-- ===== src/CpuCollection/Masks/Affinities.antt =====
-- The affinity that is set for a thread by a mask is the one that is got: mcfgthread/src/thread.c.
use Prim.Native.Nat.{bit_and, bit_or, max}
use mcfgthread.Base.{
  ℕ, zero, suc, ◌+◌, ◌-◌, ◌*◌, ◌^◌, ◌≤◌, ◌<◌, ◌≡◌, inl, inr, refl, ap, ◌∙◌, some, Bool, true, false,
  ◌||◌, ◌&&◌, ◌==◌, ltb, leb, if◌then◌else◌, List, [], ◌∷◌, pos, Bool-cases, arith, ℕ_discrete,
}
use mcfgthread.Base.Bits.{power, power_pos}
use mcfgthread.Base.Digits.{bit, bit-lt, bit-zero, bit-bit_or, bit-power, power-pow, bit_and-power}
use mcfgthread.CpuCollection.{Collection, set_selection}
use mcfgthread.CpuCollection.Lookup.{IsSorted}
use mcfgthread.CpuCollection.Masks.{
  affinity_mask, set_affinity_by_mask, select_mask, get_affinity_by_mask,
}
use mcfgthread.Thread.Affinity.{set_all_selections, select_all_of}
use mcfgthread.Thread.Affinity.Selecting.{
  is_in, SameIds, ids_apart, select_all_of-selected, cleared-id, cleared-selected, cleared-size,
  cleared-IsSorted,
}

-- The identifiers of a collection that was made from a mask.
abbrev pub InGroup : Collection → Type 0
InGroup coll = (i : ℕ) → i < coll.size → (256 ≤ (coll.data_at i).id) × ((coll.data_at i).id < 320)

bit-shifted :
    (i k mask : ℕ) → bit i (bit_or mask (2 ^ k)) ≡ max (bit i mask) (if i == k then 1 else 0)
bit-shifted i k mask =
    rw (power-pow k) (bit-bit_or i mask (power k) ∙ ap (max (bit i mask)) (bit-power i k))

-- A bit of the mask is set exactly if the processor is selected.
bit-affinity_mask :
    (coll : Collection) (i n : ℕ)
    → IsSorted coll
    → InGroup coll
    → n ≤ coll.size
    → i < coll.size
    → bit ((coll.data_at i).id - 256) (affinity_mask coll.data_at n)
      ≡ (if ltb i n && (coll.data_at i).selected then 1 else 0)
unfolding affinity_mask
bit-affinity_mask coll i zero sorted group h i_in =
    bit-zero ((coll.data_at i).id - 256) ∙ ground arith
bit-affinity_mask coll i (suc n) sorted group h i_in =
    let rest = bit-affinity_mask coll i n sorted group (omega arith) i_in in
    let mask = affinity_mask coll.data_at n in
    let shifted = bit-shifted ((coll.data_at i).id - 256) ((coll.data_at n).id - 256) mask in
    elim (ℕ_discrete i n) [
      | yes here ↦
          let same_id = ap (λ x. (coll.data_at x).id) here in
          let same = ap (λ x. (coll.data_at x).selected) here in
          elim (Bool-cases (coll.data_at n).selected) [
            | inl chosen ↦ rw chosen (shifted ∙ ground (arith, rest, same, same_id))
            | inr other ↦ rw other (rest ∙ ground (arith, same))
          ]
      | no apart ↦
          let apart_id = ids_apart coll i n sorted i_in (omega arith) apart in
          let (low, _) = group i i_in in
          let (low_n, _) = group n (omega arith) in
          elim (Bool-cases (coll.data_at n).selected) [
            | inl chosen ↦ rw chosen (shifted ∙ ground (arith, rest, apart_id))
            | inr other ↦ rw other (rest ∙ ground arith)
          ]
    ]

-- The identifiers for the bits of a mask, from the bit `k` on.
mask_ids : ℕ → ℕ → ℕ → List ℕ
mask_ids mask k zero = []
mask_ids mask k (suc left) =
    let rest = mask_ids mask (k + 1) left in
    if bit_and mask (2 ^ k) == 0 then rest else (256 + k) ∷ rest

select_mask-eq :
    (mask k left : ℕ) (coll : Collection)
    → select_mask mask k left coll ≡ select_all_of (mask_ids mask k left) coll
unfolding select_mask mask_ids select_all_of
select_mask-eq mask k zero coll = refl
select_mask-eq mask k (suc left) coll = elim (Bool-cases (bit_and mask (2 ^ k) == 0)) [
  | inl clear ↦ rw clear (select_mask-eq mask (k + 1) left coll)
  | inr set ↦ rw set (select_mask-eq mask (k + 1) left (set_selection coll (256 + k) true).1)
]

tested_bit : (k mask : ℕ) → (bit_and mask (2 ^ k) == 0) ≡ (bit k mask == 0)
tested_bit k mask =
    rw (power-pow k, bit_and-power k mask)
      (by_bit (bit k mask) (power k) (bit-lt k mask) (power_pos k))
  where
    by_bit : (b p : ℕ) → b < 2 → 0 < p → (b * p == 0) ≡ (b == 0)
    by_bit zero p lt h = ground arith
    by_bit (suc zero) p lt h = ground arith
    by_bit (suc (suc b)) p lt h = absurd (omega arith)

is_in-mask_ids :
    (mask k left b : ℕ)
    → is_in (256 + b) (mask_ids mask k left) ≡ (leb k b && ltb b (k + left) && (bit b mask == 1))
unfolding is_in mask_ids
is_in-mask_ids mask k zero b = ground arith
is_in-mask_ids mask k (suc left) b =
    let rest = is_in-mask_ids mask (k + 1) left b in
    let tested = tested_bit k mask in
    let one = bit-lt k mask in
    elim (Bool-cases (bit_and mask (2 ^ k) == 0)) [
      | inl clear ↦ rw clear (
          rest ∙ elim (ℕ_discrete b k) [
            | yes here ↦ ground (arith, ap (λ j. bit j mask) here)
            | no other ↦ ground arith
          ])
      | inr set ↦ rw set (elim (ℕ_discrete b k) [
        | yes here ↦ ground (arith, ap (λ j. bit j mask) here)
        | no other ↦ ground (arith, rest)
      ])
    ]

accepted_mask :
    (set_mask : ℕ → Bool) (coll : Collection) (mask : ℕ)
    → set_affinity_by_mask set_mask (some coll) ≡ (pos 0, mask)
    → mask ≡ affinity_mask coll.data_at coll.size
unfolding set_affinity_by_mask
accepted_mask set_mask coll mask e = ground arith

-- The affinity that is set by a mask, and accepted by the system, is got back: where the system
-- reports the mask that was passed to it, each processor of a sorted collection, with identifiers
-- from 256 to 319, is selected in the end exactly if it was selected in the beginning, whatever had
-- been selected in the collection that is filled in.
pub affinity_by_mask-roundtrip :
    (coll out : Collection) (mask : ℕ) (set_mask : ℕ → Bool)
    → IsSorted coll
    → InGroup coll
    → coll.size < 2 ^ 31
    → IsSorted out
    → SameIds out coll
    → set_affinity_by_mask set_mask (some coll) ≡ (pos 0, mask)
    → (got : Collection) × (get_affinity_by_mask (some mask) (some out) ≡ (pos 0, some got))
      × ((i : ℕ) → i < coll.size → (got.data_at i).selected ≡ (coll.data_at i).selected)
unfolding get_affinity_by_mask
affinity_by_mask-roundtrip coll out mask set_mask sorted group few out_sorted same accepted =
    let passed = accepted_mask set_mask coll mask accepted in
    let clear = set_all_selections false out in
    let size = cleared-size out in
    (
      select_mask mask 0 64 clear,
      refl,
      λ i i_in.
          let (low, high) = group i i_in in
          let b = (coll.data_at i).id - 256 in
          let id : (coll.data_at i).id ≡ 256 + b = omega arith in
          ap (λ c. (c.data_at i).selected) (select_mask-eq mask 0 64 clear)
          ∙ select_all_of-selected (mask_ids mask 0 64) clear i (cleared-IsSorted out out_sorted)
              (omega (arith, size, same.0)) (omega (arith, size, same.0))
          ∙ ap (λ x. is_in x (mask_ids mask 0 64) || (clear.data_at i).selected)
              (cleared-id out i ∙ same.1 i ∙ id)
          ∙ ap (λ x. x || (clear.data_at i).selected) (is_in-mask_ids mask 0 64 b)
          ∙ ap (λ m. (leb 0 b && ltb b 64 && (bit b m == 1)) || (clear.data_at i).selected) passed
          ∙ ground (
            arith,
            bit-affinity_mask coll i coll.size sorted group (omega arith) i_in,
            cleared-selected out i (omega (arith, same.0)),
          ),
    )
