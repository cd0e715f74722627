-- ===== src/CpuCollection/Masks/Building.antt =====
-- The processors of a new collection on a system without CPU sets: `_MCF_cpu_collection_new` of
-- mcfgthread/src/cpu_collection.c.
use Prim.Native.Nat.{bit_and}
use mcfgthread.Base.{
  ℕ, zero, suc, ◌+◌, ◌-◌, ◌^◌, ◌≤◌, ◌<◌, ◌≡◌, ◌⊎◌, ◌↔◌, inl, inr, refl, ap, ◌∙◌, none, some, Option,
  dec_lt, ◌==◌, if◌then◌else◌, arith, ℕ_discrete, List, [], ◌∷◌,
}
use mcfgthread.Base.Bits.{power}
use mcfgthread.Base.Digits.{bit, bit-zero}
use mcfgthread.Mutex.{bit_scan_forward}
use mcfgthread.CpuCollection.{Collection}
use mcfgthread.CpuCollection.Lookup.{IsSorted}
use mcfgthread.CpuCollection.Inserting.{HasId}
use mcfgthread.CpuCollection.Masks.{
  add_processor, add_processors, empty, Core, with_core, with_cores, complete_with, new_by_mask,
}
use mcfgthread.CpuCollection.Masks.Scanning.{IsLowest, scan-IsLowest, clear_lowest, cleared-lt}

-- The identifier of a processor with a bit in the mask.
abbrev pub InMask : ℕ → ℕ → Type 0
InMask id mask = (b : ℕ) × (bit b mask ≡ 1) × (id ≡ 256 + b)

module _ (group k : ℕ) (coll : Collection) (small : k < 64) where
  add_processor-id :
      (i : ℕ)
      → ((add_processor group k coll).data_at i).id
        ≡ (if i == coll.size then 256 + k else (coll.data_at i).id)
  add_processor-id i = ground arith

  add_processor-IsSorted :
      IsSorted coll
      → ((i : ℕ) → i < coll.size → (coll.data_at i).id < 256 + k)
      → IsSorted (add_processor group k coll)
  add_processor-IsSorted sorted below i j lt j_in =
      ground (arith, add_processor-id i, add_processor-id j, sorted i j lt, below i)

  add_processor-HasId :
      (id : ℕ) → HasId id (add_processor group k coll) ↔ (HasId id coll ⊎ (id ≡ 256 + k))
  add_processor-HasId id = (found, kept)
    where
      found : HasId id (add_processor group k coll) → HasId id coll ⊎ (id ≡ 256 + k)
      found (j, lt, e) = elim (ℕ_discrete j coll.size) [
        | yes last ↦ inr (ground (arith, add_processor-id j))
        | no other ↦ inl (j, omega arith, ground (arith, add_processor-id j))
      ]

      kept : HasId id coll ⊎ (id ≡ 256 + k) → HasId id (add_processor group k coll)
      kept (inl (j, lt, e)) = (j, omega arith, ground (arith, add_processor-id j))
      kept (inr e) = (coll.size, omega arith, ground (arith, add_processor-id coll.size))

-- What one round takes off the mask.
module _ (mask k id : ℕ) (lowest : IsLowest 64 mask k) (rest : ℕ)
    (cleared : (i : ℕ) → bit i rest ≡ (if i == k then 0 else bit i mask)) where
  InMask-cleared : InMask id mask ↔ ((id ≡ 256 + k) ⊎ InMask id rest)
  InMask-cleared = (split, join)
    where
      split : InMask id mask → (id ≡ 256 + k) ⊎ InMask id rest
      split (b, set, e) = elim (ℕ_discrete b k) [
        | yes here ↦ inl (omega arith)
        | no other ↦ inr (b, ground (arith, cleared b), e)
      ]

      join : (id ≡ 256 + k) ⊎ InMask id rest → InMask id mask
      join (inl e) = (k, lowest.1, e)
      join (inr (b, set, e)) = (b, ground (arith, cleared b), e)

InMask-zero : (id : ℕ) → InMask id 0 → ⊥
InMask-zero id (b, set, e) = omega (arith, bit-zero b)

add_processors-end :
    (group fuel mask : ℕ) (coll : Collection)
    → mask ≡ 0
    → add_processors group fuel mask coll ≡ some coll
unfolding add_processors
add_processors-end group zero mask coll e = ground arith
add_processors-end group (suc fuel) mask coll e = ground arith

add_processors-suc :
    (group fuel mask : ℕ) (coll : Collection)
    → 0 < mask
    → add_processors group (suc fuel) mask coll
      ≡ add_processors group fuel
          (bit_and mask (mask - 1))
          (add_processor group (bit_scan_forward 64 mask) coll)
unfolding add_processors
add_processors-suc group fuel mask coll more = ground arith

module _ {A B C D E F : Type 0} where
  regroup : A ↔ (B ⊎ C) → B ↔ (D ⊎ E) → F ↔ (E ⊎ C) → A ↔ (D ⊎ F)
  regroup p q r = (λ a. there (p.0 a), back)
    where
      there : B ⊎ C → D ⊎ F
      there (inl b) = from (q.0 b)
        where
          from : D ⊎ E → D ⊎ F
          from (inl d) = inl d
          from (inr e) = inr (r.1 (inl e))
      there (inr c) = inr (r.1 (inr c))

      back : D ⊎ F → A
      back (inl d) = p.1 (inl (q.1 (inl d)))
      back (inr f) = onward (r.0 f)
        where
          onward : E ⊎ C → A
          onward (inl e) = p.1 (inl (q.1 (inr e)))
          onward (inr c) = p.1 (inr c)

-- A collection to which the bits of the mask are added, from an index of a bit on.
abbrev Built : ℕ → ℕ → ℕ → Collection → Type 0
Built group fuel mask coll =
    (end : Collection) × (add_processors group fuel mask coll ≡ some end)
    × IsSorted end
    × ((id : ℕ) → HasId id end ↔ (HasId id coll ⊎ InMask id mask))

Built-zero :
    (group fuel mask : ℕ) (coll : Collection)
    → mask ≡ 0
    → IsSorted coll
    → Built group fuel mask coll
Built-zero group fuel mask coll e sorted =
    (coll, add_processors-end group fuel mask coll e, sorted, λ id. rw e (λ h. inl h, nothing id))
  where
    nothing : (id : ℕ) → HasId id coll ⊎ InMask id 0 → HasId id coll
    nothing id (inl h) = h
    nothing id (inr m) = absurd (InMask-zero id m)

Built-suc :
    (group fuel mask k : ℕ) (coll : Collection)
    → 0 < mask
    → mask < power 64
    → k ≡ bit_scan_forward 64 mask
    → Built group fuel (bit_and mask (mask - 1)) (add_processor group k coll)
    → Built group (suc fuel) mask coll
Built-suc group fuel mask k coll more small scan (last, ran, sorted, ids) =
    let lowest = rw (← scan) at (scan-IsLowest 64 mask more small) in
    (
      last,
      add_processors-suc group fuel mask coll more ∙ rw (← scan) ran,
      sorted,
      λ id. regroup (ids id) (add_processor-HasId group k coll lowest.0 id) (
          InMask-cleared mask k id lowest (bit_and mask (mask - 1))
            λ i. rw scan (clear_lowest 64 mask i more small)),
    )

-- The loop from a state in which the bits below `lo` are done.
add_processors_lem :
    (group fuel mask lo : ℕ) (coll : Collection)
    → mask < power 64
    → 64 ≤ lo + fuel
    → ((i : ℕ) → i < lo → bit i mask ≡ 0)
    → IsSorted coll
    → ((i : ℕ) → i < coll.size → (coll.data_at i).id < 256 + lo)
    → Built group fuel mask coll
add_processors_lem group zero mask lo coll small enough done sorted below =
    elim (ℕ_discrete mask 0) [
      | yes nothing ↦ Built-zero group 0 mask coll nothing sorted
      | no more ↦
          let (inside, set, _) = scan-IsLowest 64 mask (omega arith) small in
          absurd (omega (arith, done (bit_scan_forward 64 mask) (omega arith)))
    ]
add_processors_lem group (suc fuel) mask lo coll small enough done sorted below =
    elim (ℕ_discrete mask 0) [
      | yes nothing ↦ Built-zero group (suc fuel) mask coll nothing sorted
      | no more ↦
          let k = bit_scan_forward 64 mask in
          let (inside, set, lower) = scan-IsLowest 64 mask (omega arith) small in
          let above : lo ≤ k = not_done lo k mask done set in
          Built-suc group fuel mask k coll (omega arith) small refl (
            add_processors_lem group fuel (bit_and mask (mask - 1)) (suc k)
              (add_processor group k coll) (omega (arith, cleared-lt 64 mask (omega arith) small))
              (omega arith) (λ i lt. ground (arith, clear_lowest 64 mask i, lower i))
              (add_processor-IsSorted group k coll inside sorted
                (λ i lt. omega (arith, below i lt)))
              (λ i lt. ground (arith, add_processor-id group k coll inside i, below i)))
    ]
  where
    not_done : (lo k mask : ℕ) → ((i : ℕ) → i < lo → bit i mask ≡ 0) → bit k mask ≡ 1 → lo ≤ k
    not_done lo k mask done set = elim (dec_lt k lo) [
      | yes lt ↦ absurd (omega (arith, done k lt))
      | no ge ↦ omega arith
    ]

-- Nothing but the core and the efficiency class of processors is changed for a core.
with_core-id :
    (group : ℕ) (core : Core) (coll : Collection) (i : ℕ)
    → (((with_core group core coll).data_at i).id ≡ (coll.data_at i).id)
      × ((with_core group core coll).size ≡ coll.size)
unfolding with_core
with_core-id group core coll i = (ground arith, ground arith)

with_cores-id :
    (group : ℕ) (infos : List (Option Core)) (coll : Collection) (i : ℕ)
    → (((with_cores group infos coll).data_at i).id ≡ (coll.data_at i).id)
      × ((with_cores group infos coll).size ≡ coll.size)
unfolding with_cores
with_cores-id group [] coll i = (refl, refl)
with_cores-id group (none ∷ infos) coll i = with_cores-id group infos coll i
with_cores-id group (some core ∷ infos) coll i =
    let rest = with_cores-id group infos (with_core group core coll) i in
    let here = with_core-id group core coll i in (rest.0 ∙ here.0, rest.1 ∙ here.1)

complete_with-some :
    (group : ℕ) (infos : List (Option Core)) (coll : Collection)
    → 0 < coll.size
    → complete_with group infos (some coll) ≡ some (with_cores group infos coll)
complete_with-some group infos coll h =
    unfold complete_with in ground (arith, with_cores-id group infos coll 0)

-- On a system without CPU sets, for the mask of the processors of a process, which is not 0 and has
-- 64 bits: a new collection has the processors of the bits that are set and no others, each with
-- 256 and the index of its bit for the identifier, in the order of their identifiers, whatever the
-- system reports of cores; the loop ends within 64 rounds, and the assertion that there is a
-- processor holds.
pub new_by_mask_lem :
    (proc_mask group : ℕ) (infos : List (Option Core))
    → 0 < proc_mask
    → proc_mask < 2 ^ 64
    → (coll : Collection) × (new_by_mask proc_mask group infos ≡ some coll)
      × IsSorted coll
      × ((id : ℕ) → HasId id coll ↔ InMask id proc_mask)
unfolding new_by_mask
new_by_mask_lem proc_mask group infos some_bit small =
    let (coll, ran, sorted, ids) =
      add_processors_lem group 64 proc_mask 0 empty small (omega arith)
        (λ i lt. absurd (omega arith)) (λ i j lt j_in. absurd (omega arith))
        (λ i lt. absurd (omega arith)) in
    let kept = with_cores-id group infos coll in
    let (lowest, set, _) = scan-IsLowest 64 proc_mask some_bit small in
    let (i, i_in, _) = (ids (256 + bit_scan_forward 64 proc_mask)).1 (inr (_, set, refl)) in
    (
      with_cores group infos coll,
      ap (complete_with group infos) ran ∙ complete_with-some group infos coll (omega arith),
      λ i j lt j_in. omega (arith, sorted i j lt (omega (arith, kept 0)), kept i, kept j),
      λ id. (
        λ h.
            absurd_empty id
              ((ids id).0 (h.0, omega (arith, h.1, kept 0), omega (arith, h.2, kept h.0))),
        λ m.
            let (j, j_in, e) = (ids id).1 (inr m) in
            (j, omega (arith, kept 0), omega (arith, kept j)),
      ),
    )
  where
    absurd_empty : (id : ℕ) → HasId id empty ⊎ InMask id proc_mask → InMask id proc_mask
    absurd_empty id (inl (j, lt, e)) = absurd (omega arith)
    absurd_empty id (inr m) = m
