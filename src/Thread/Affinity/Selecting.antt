-- ===== src/Thread/Affinity/Selecting.antt =====
-- The affinity that is set for a thread in mcfgthread/src/thread.c is the one that is got.
use mcfgthread.Base.{
  ℕ, zero, suc, ◌≤◌, ◌<◌, ◌^◌, ◌≡◌, ◌≢◌, inl, inr, refl, sym, ap, ◌∙◌, none, some, Bool, true,
  false, ◌||◌, ◌==◌, ltb, if◌then◌else◌, List, [], ◌∷◌, ◌++◌, pos, Bool-cases, Option-cases, arith,
  dec_lt, ℕ_discrete,
}
use mcfgthread.CpuCollection.{Collection, find_cpu_opt, set_selection, select_at}
use mcfgthread.CpuCollection.Lookup.{
  IsSorted, find_cpu_opt_lem, select_at-IsSorted, select_at-id, select_at-selected, select_at-size,
}
use mcfgthread.Thread.Affinity.{
  set_all_selections, selected_ids, passed_on, set_affinity, select_all_of, select_reported,
  get_affinity,
}

unfoldable pub is_in : ℕ → List ℕ → Bool
is_in id [] = false
is_in id (x ∷ ids) = let rest = is_in id ids in (id == x) || rest

is_in-append : (id x : ℕ) (ids : List ℕ) → is_in id (ids ++ (x ∷ [])) ≡ (is_in id ids || (id == x))
unfolding is_in
is_in-append id x [] = ground arith
is_in-append id x (y ∷ ids) = ground (arith, is_in-append id x ids)

-- Two collections of the same processors.
abbrev pub SameIds : Collection → Collection → Type 0
SameIds a b = (a.size ≡ b.size) × ((i : ℕ) → (a.data_at i).id ≡ (b.data_at i).id)

-- Different processors have different identifiers.
pub ids_apart :
    (coll : Collection) (i j : ℕ)
    → IsSorted coll
    → i < coll.size
    → j < coll.size
    → i ≢ j
    → (coll.data_at i).id ≢ (coll.data_at j).id
ids_apart coll i j sorted i_in j_in apart same = elim (dec_lt i j) [
  | yes lt ↦ omega (arith, sorted i j lt j_in)
  | no ge ↦ omega (arith, sorted j i (omega arith) i_in)
]

-- A processor is among the identifiers exactly if it is selected.
is_in-selected_ids :
    (coll : Collection) (i n : ℕ)
    → IsSorted coll
    → n ≤ coll.size
    → i < coll.size
    → is_in (coll.data_at i).id (selected_ids coll.data_at n)
      ≡ (if ltb i n then (coll.data_at i).selected else false)
unfolding is_in selected_ids
is_in-selected_ids coll i zero sorted h i_in = ground arith
is_in-selected_ids coll i (suc n) sorted h i_in =
    let rest = is_in-selected_ids coll i n sorted (omega arith) i_in in
    elim (ℕ_discrete i n) [
      | yes here ↦
          let same_id : (coll.data_at i).id ≡ (coll.data_at n).id =
            ap (λ x. (coll.data_at x).id) here in
          let same : (coll.data_at i).selected ≡ (coll.data_at n).selected =
            ap (λ x. (coll.data_at x).selected) here in
          elim (Bool-cases (coll.data_at n).selected) [
            | inl chosen ↦ rw chosen (
                is_in-append (coll.data_at i).id (coll.data_at n).id (selected_ids coll.data_at n)
                ∙ ground (arith, rest, same, same_id))
            | inr other ↦ rw other (rest ∙ ground (arith, same))
          ]
      | no apart ↦
          let apart_id = ids_apart coll i n sorted i_in (omega arith) apart in
          elim (Bool-cases (coll.data_at n).selected) [
            | inl chosen ↦ rw chosen (
                is_in-append (coll.data_at i).id (coll.data_at n).id (selected_ids coll.data_at n)
                ∙ ground (arith, rest, apart_id))
            | inr other ↦ rw other (rest ∙ ground arith)
          ]
    ]

set_selection-none :
    (coll : Collection) (id : ℕ)
    → find_cpu_opt coll id ≡ none
    → (set_selection coll id true).1 ≡ coll
unfolding set_selection
set_selection-none coll id e = rw (e, set_selection) refl

set_selection-some :
    (coll : Collection) (id j : ℕ)
    → find_cpu_opt coll id ≡ some j
    → (set_selection coll id true).1 ≡ select_at j true coll
unfolding set_selection
set_selection-some coll id j e = rw (e, set_selection) refl

pub select_all_of-selected :
    (ids : List ℕ) (coll : Collection) (i : ℕ)
    → IsSorted coll
    → coll.size < 2 ^ 31
    → i < coll.size
    → ((select_all_of ids coll).data_at i).selected
      ≡ (is_in (coll.data_at i).id ids || (coll.data_at i).selected)
unfolding is_in select_all_of
select_all_of-selected [] coll i sorted few i_in = refl
select_all_of-selected (id ∷ ids) coll i sorted few i_in =
    elim (Option-cases (find_cpu_opt coll id)) [
      | inl nowhere ↦
          let apart : (coll.data_at i).id ≢ id = λ same.
            absurd (ground (arith, (find_cpu_opt_lem coll id i sorted few).1 (i_in, same))) in
          ap (λ c. ((select_all_of ids c).data_at i).selected) (set_selection-none coll id nowhere)
          ∙ select_all_of-selected ids coll i sorted few i_in
          ∙ ground (arith, apart)
      | inr (j, found) ↦
          let there = (find_cpu_opt_lem coll id j sorted few).0 found in
          let next =
            select_all_of-selected ids (select_at j true coll) i
              (select_at-IsSorted coll j true sorted) (omega (arith, select_at-size coll j true))
              (omega (arith, select_at-size coll j true)) in
          ap (λ c. ((select_all_of ids c).data_at i).selected) (set_selection-some coll id j found)
          ∙ next
          ∙ ap (λ x. is_in x ids || ((select_at j true coll).data_at i).selected)
              (select_at-id coll j i true)
          ∙ ap (λ x. is_in (coll.data_at i).id ids || x) (select_at-selected coll j i true)
          ∙ elim (ℕ_discrete i j) [
            | yes here ↦ ground (arith, ap (λ x. (coll.data_at x).id) here, there.1)
            | no apart ↦ ground (arith, ids_apart coll i j sorted i_in there.0 apart, there.1)
          ]
    ]

reported_all :
    (ids : List ℕ) (coll : Collection)
    → ids ≢ []
    → select_reported ids coll ≡ select_all_of ids coll
reported_all [] coll some_id = absurd (some_id refl)
reported_all (id ∷ ids) coll some_id = refl

passed_ids :
    (set_cpus : List ℕ → Bool) (l ids : List ℕ)
    → passed_on set_cpus l ≡ (pos 0, ids)
    → (ids ≢ []) × (l ≡ ids)
passed_ids set_cpus [] ids e = absurd (ground arith)
passed_ids set_cpus (x ∷ xs) ids e =
    let same : x ∷ xs ≡ ids = ap (λ p. p.1) e in (λ z. absurd (ground arith), same)

accepted_ids :
    (set_cpus : List ℕ → Bool) (coll : Collection) (ids : List ℕ)
    → set_affinity set_cpus (some coll) ≡ (pos 0, ids)
    → (ids ≢ []) × (selected_ids coll.data_at coll.size ≡ ids)
unfolding set_affinity
accepted_ids set_cpus coll ids e = passed_ids set_cpus (selected_ids coll.data_at coll.size) ids e

pub cleared-id :
    (out : Collection) (i : ℕ) → ((set_all_selections false out).data_at i).id ≡ (out.data_at i).id
unfolding set_all_selections
cleared-id out i = ground arith

pub cleared-selected :
    (out : Collection) (i : ℕ)
    → i < out.size
    → ((set_all_selections false out).data_at i).selected ≡ false
unfolding set_all_selections
cleared-selected out i i_in = ground arith

pub cleared-size : (out : Collection) → (set_all_selections false out).size ≡ out.size
unfolding set_all_selections
cleared-size out = refl

pub cleared-IsSorted : (out : Collection) → IsSorted out → IsSorted (set_all_selections false out)
cleared-IsSorted out sorted i j lt j_in =
    omega
      (arith, cleared-id out i, cleared-id out j, sorted i j lt (omega (arith, cleared-size out)))

-- The affinity that is set, and accepted by the system, is got back: where the system reports the
-- identifiers that were passed to it, each processor of a sorted collection of fewer than 2 ^ 31 is
-- selected in the end exactly if it was selected in the beginning, whatever had been selected in the
-- collection that is filled in.
pub set_affinity-get_affinity :
    (coll out : Collection) (ids : List ℕ) (set_cpus : List ℕ → Bool)
    → IsSorted coll
    → coll.size < 2 ^ 31
    → IsSorted out
    → SameIds out coll
    → set_affinity set_cpus (some coll) ≡ (pos 0, ids)
    → (got : Collection) × (get_affinity (some ids) (some out) ≡ (pos 0, some got))
      × ((i : ℕ) → i < coll.size → (got.data_at i).selected ≡ (coll.data_at i).selected)
unfolding get_affinity
set_affinity-get_affinity coll out ids set_cpus sorted few out_sorted same accepted =
    let (some_id, passed) = accepted_ids set_cpus coll ids accepted in
    let clear = set_all_selections false out in
    let size = cleared-size out in
    (
      select_reported ids clear,
      refl,
      λ i i_in.
          ap (λ c. (c.data_at i).selected) (reported_all ids clear some_id)
          ∙ select_all_of-selected ids clear i (cleared-IsSorted out out_sorted)
              (omega (arith, size, same.0)) (omega (arith, size, same.0))
          ∙ ap (λ id. is_in id ids || (clear.data_at i).selected) (cleared-id out i ∙ same.1 i)
          ∙ ap (λ x. is_in (coll.data_at i).id x || (clear.data_at i).selected) (sym passed)
          ∙ ground (
            arith,
            is_in-selected_ids coll i coll.size sorted (omega arith) i_in,
            cleared-selected out i (omega (arith, same.0)),
          ),
    )
