-- ===== src/CpuCollection/Lookup.antt =====
-- The lookup by identifier finds the element that has it.
use mcfgthread.Base.{
  ℕ, zero, suc, ◌+◌, ◌-◌, ◌/◌, ◌%◌, ◌≤◌, ◌<◌, ◌^◌, ◌≡◌, ◌≢◌, ◌↔◌, refl, Option, none, some, Bool,
  not, ◌&&◌, ◌==◌, ltb, dec_lt, ℕ_discrete, ap, if◌then◌else◌, arith, if_ind,
}
use mcfgthread.CpuCollection.{
  Element, Collection, search, find_cpu_opt, get_selection, select_at, set_selection,
}

-- The identifiers rise, which `_MCF_cpu_collection_new` takes care of.
abbrev pub IsSorted : Collection → Type 0
IsSorted coll = (i j : ℕ) → i < j → j < coll.size → (coll.data_at i).id < (coll.data_at j).id

-- What a search between two indexes finds: an element there with the identifier, or none when there
-- is no such element.
abbrev Finds : (ℕ → Element) → ℕ → ℕ → ℕ → Option ℕ → Type 0
Finds elements id bpos epos none = (i : ℕ) → bpos ≤ i → i < epos → (elements i).id ≢ id
Finds elements id bpos epos (some i) = (bpos ≤ i) × (i < epos) × ((elements i).id ≡ id)

widen :
    (elements : ℕ → Element) (id bpos low epos high : ℕ) (r : Option ℕ)
    → bpos ≤ low
    → high ≤ epos
    → ((i : ℕ) → bpos ≤ i → i < epos → (elements i).id ≡ id → (low ≤ i) × (i < high))
    → Finds elements id low high r
    → Finds elements id bpos epos r
widen elements id bpos low epos high none l h only found =
    λ i b e same. let o = only i b e same in found i o.0 o.1 same
widen elements id bpos low epos high (some i) l h only found =
    (omega (arith, found.0), omega (arith, found.1), found.2)

module _ (elements : ℕ → Element) (id : ℕ) where
  Rises : ℕ → Type 0
  Rises epos = (i j : ℕ) → i < j → j < epos → (elements i).id < (elements j).id

  below :
      (epos mpos i : ℕ)
      → Rises epos
      → id < (elements mpos).id
      → i < epos
      → (elements i).id ≡ id
      → i < mpos
  unfolding Rises
  below epos mpos i rises lt i_in same = elim (dec_lt i mpos) [
    | yes h ↦ h
    | no h ↦ elim (ℕ_discrete i mpos) [
      | yes e ↦ absurd (omega (arith, ap (λ k. (elements k).id) e))
      | no e ↦ absurd (omega (arith, rises mpos i (omega arith) i_in))
    ]
  ]

  above :
      (epos mpos i : ℕ)
      → Rises epos
      → mpos < epos
      → (elements mpos).id < id
      → (elements i).id ≡ id
      → mpos < i
  unfolding Rises
  above epos mpos i rises mpos_in lt same = elim (dec_lt mpos i) [
    | yes h ↦ h
    | no h ↦ elim (ℕ_discrete i mpos) [
      | yes e ↦ absurd (omega (arith, ap (λ k. (elements k).id) e))
      | no e ↦ absurd (omega (arith, rises i mpos (omega arith) mpos_in))
    ]
  ]

  search-Finds :
      (fuel bpos epos : ℕ)
      → Rises epos
      → bpos ≤ epos
      → epos - bpos < fuel
      → Finds elements id bpos epos (search elements id fuel bpos epos)
  unfolding search Rises
  search-Finds zero bpos epos rises le h = absurd (omega (arith, h))
  search-Finds (suc fuel) bpos epos rises le h =
      let mpos = bpos + (epos - bpos) / 2 in
      let P : Option ℕ → Type 0 = Finds elements id bpos epos in
      if_ind P (bpos == epos) (λ e i b i_in. absurd (ground arith))
        (λ some_left.
          if_ind P (id == (elements mpos).id) (λ e. (omega arith, ground arith, ground arith))
            (λ other.
              if_ind P (ltb id (elements mpos).id)
                (λ lt.
                  let down : id < (elements mpos).id = ground arith in
                  widen elements id bpos bpos epos mpos (search elements id fuel bpos mpos)
                    (omega arith) (omega arith)
                    (λ i b i_in same. (b, below epos mpos i rises down i_in same))
                    (search-Finds fuel bpos mpos (λ i j lt_ij j_in. rises i j lt_ij (omega arith))
                      (omega arith) (ground arith)))
                (λ ge.
                  let up : (elements mpos).id < id = ground arith in
                  let inside : mpos < epos = ground arith in
                  widen elements id bpos (mpos + 1) epos epos
                    (search elements id fuel (mpos + 1) epos) (omega arith) (omega arith)
                    (λ i b i_in same. (omega (arith, above epos mpos i rises inside up same), i_in))
                    (search-Finds fuel (mpos + 1) epos rises (omega arith) (omega arith)))))

find_cpu_opt-Finds :
    (coll : Collection) (id : ℕ)
    → IsSorted coll
    → coll.size < 2 ^ 31
    → Finds coll.data_at id 0 coll.size (find_cpu_opt coll id)
unfolding find_cpu_opt Rises
find_cpu_opt-Finds coll id sorted few =
    if_ind (Finds coll.data_at id 0 coll.size)
      (not (ltb id 256)
        && ltb id ((256 + coll.size) % 2 ^ 32)
        && (id == (coll.data_at (id - 256)).id))
      (λ hit. (omega arith, ground arith, ground arith))
      (λ miss.
        search-Finds coll.data_at id (coll.size + 1) 0 coll.size sorted (omega arith) (omega arith))

found_at :
    (coll : Collection) (id i : ℕ) (r : Option ℕ)
    → IsSorted coll
    → Finds coll.data_at id 0 coll.size r
    → i < coll.size
    → (coll.data_at i).id ≡ id
    → r ≡ some i
found_at coll id i none sorted found i_in same = absurd (found i (omega arith) i_in same)
found_at coll id i (some j) sorted found i_in same = elim (ℕ_discrete j i) [
  | yes e ↦ ap some e
  | no e ↦ elim (dec_lt j i) [
    | yes lt ↦ absurd (omega (arith, sorted j i lt i_in, found.2))
    | no ge ↦ absurd (omega (arith, sorted i j (omega arith) found.1, found.2))
  ]
]

at_found :
    (coll : Collection) (id i : ℕ) (r : Option ℕ)
    → Finds coll.data_at id 0 coll.size r
    → r ≡ some i
    → (i < coll.size) × ((coll.data_at i).id ≡ id)
at_found coll id i none found e = absurd (ground arith)
at_found coll id i (some j) found e = (ground (arith, found.1), ground (arith, found.2))

-- In a collection of fewer than 2 ^ 31 processors in the order of their identifiers, the lookup finds
-- an index exactly when the element there has the identifier: the shortcut for consecutive
-- identifiers and the binary search miss none, and find no other.
pub find_cpu_opt_lem :
    (coll : Collection) (id i : ℕ)
    → IsSorted coll
    → coll.size < 2 ^ 31
    → (find_cpu_opt coll id ≡ some i) ↔ ((i < coll.size) × ((coll.data_at i).id ≡ id))
find_cpu_opt_lem coll id i sorted few =
    let found = find_cpu_opt-Finds coll id sorted few in
    (
      λ e. at_found coll id i (find_cpu_opt coll id) found e,
      λ h. found_at coll id i (find_cpu_opt coll id) sorted found h.0 h.1,
    )

pub select_at-id :
    (coll : Collection) (i j : ℕ) (selected : Bool)
    → ((select_at i selected coll).data_at j).id ≡ (coll.data_at j).id
unfolding select_at
select_at-id coll i j selected = ground arith

pub select_at-selected :
    (coll : Collection) (i j : ℕ) (selected : Bool)
    → ((select_at i selected coll).data_at j).selected
      ≡ (if j == i then selected else (coll.data_at j).selected)
unfolding select_at
select_at-selected coll i j selected = ground arith

pub select_at-size :
    (coll : Collection) (i : ℕ) (selected : Bool) → (select_at i selected coll).size ≡ coll.size
unfolding select_at
select_at-size coll i selected = refl

pub select_at-IsSorted :
    (coll : Collection) (i : ℕ) (selected : Bool)
    → IsSorted coll
    → IsSorted (select_at i selected coll)
select_at-IsSorted coll i selected sorted a b lt b_in =
    rw (select_at-id coll i a selected, select_at-id coll i b selected)
      (sorted a b lt (omega (arith, select_at-size coll i selected)))

select_at-find_cpu_opt :
    (coll : Collection) (i j : ℕ) (selected : Bool)
    → IsSorted coll
    → coll.size < 2 ^ 31
    → j < coll.size
    → find_cpu_opt (select_at i selected coll) (coll.data_at j).id ≡ some j
select_at-find_cpu_opt coll i j selected sorted few j_in =
    let size = select_at-size coll i selected in
    (find_cpu_opt_lem (select_at i selected coll) (coll.data_at j).id j
        (select_at-IsSorted coll i selected sorted) (omega arith)).1
      (omega arith, select_at-id coll i j selected)

-- In a collection of fewer than 2 ^ 31 processors in the order of their identifiers, setting the
-- selection of one processor is seen for it, and leaves that of each other processor as it was.
pub set_selection-get_selection :
    (coll : Collection) (i j : ℕ) (selected : Bool)
    → IsSorted coll
    → coll.size < 2 ^ 31
    → i < coll.size
    → j < coll.size
    → get_selection (set_selection coll (coll.data_at i).id selected).1 (coll.data_at j).id
      ≡ (if j == i then selected else (coll.data_at j).selected)
unfolding get_selection set_selection
set_selection-get_selection coll i j selected sorted few i_in j_in =
    let f : find_cpu_opt coll (coll.data_at i).id ≡ some i =
      (find_cpu_opt_lem coll (coll.data_at i).id i sorted few).1 (i_in, refl) in
    rw (f, set_selection)
      (rw (select_at-find_cpu_opt coll i j selected sorted few j_in, get_selection)
        (select_at-selected coll i j selected))
