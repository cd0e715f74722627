-- ===== src/CpuCollection/Inserting.antt =====
-- The insertion of `_MCF_cpu_collection_new` in mcfgthread/src/cpu_collection.c keeps the collection
-- sorted.
use mcfgthread.Base.{
  ℕ, ◌+◌, ◌-◌, ◌≤◌, ◌<◌, ◌≡◌, ◌≢◌, ◌↔◌, ◌⊎◌, inl, inr, refl, sym, Option, none, some, List, [], ◌∷◌,
  dec_lt, ℕ_discrete, ap, ◌∙◌, arith,
}
use mcfgthread.Base.Family.{assign-here, assign-elsewhere}
use mcfgthread.CpuCollection.{Collection, CpuSet, make_room, with_info, insert, insert_all}
use mcfgthread.CpuCollection.Lookup.{IsSorted}
use mcfgthread.CpuCollection.Shifting.{HasRoom, make_room-HasRoom}

-- No processor of the collection has the identifier.
abbrev pub IsNew : ℕ → Collection → Type 0
IsNew id coll = (j : ℕ) → j < coll.size → (coll.data_at j).id ≢ id

-- The new collection by the place of the new element.
record HasInserted (info : CpuSet) (coll new : Collection) (k : ℕ) : Type 0 where
  inside : k ≤ coll.size
  size : new.size ≡ coll.size + 1
  here : (new.data_at k).id ≡ info.id
  below : (j : ℕ) → j < k → new.data_at j ≡ coll.data_at j
  above : (j : ℕ) → k < j → j ≤ coll.size → new.data_at j ≡ coll.data_at (j - 1)
  greater : (j : ℕ) → k ≤ j → j < coll.size → info.id < (coll.data_at j).id
  smaller : 0 < k → (coll.data_at (k - 1)).id ≤ info.id

insert-HasInserted :
    (info : CpuSet) (coll : Collection) → (k : ℕ) × HasInserted info coll (insert info coll) k
unfolding insert
insert-HasInserted info coll =
    let k = (make_room info.id coll.size coll.size coll.data_at).1 in
    let es = (make_room info.id coll.size coll.size coll.data_at).0 in
    let r : HasRoom info.id coll.size coll.data_at es k =
      make_room-HasRoom info.id coll.size coll.size coll.data_at coll.data_at (record {
        inside = omega arith;
        below = λ j low. refl;
        above = λ j low high. absurd (omega arith);
        greater = λ j low high. absurd (omega arith);
      }) in
    let e = with_info info (es k) in
    (
      k,
      record {
        inside = r.inside;
        size = refl;
        here = ap (λ x. x.id) (assign-here k e es k refl);
        below = λ j low. assign-elsewhere k e es j (omega arith) ∙ r.below j low;
        above = λ j low high. assign-elsewhere k e es j (omega arith) ∙ r.above j low high;
        greater = r.greater;
        smaller = r.smaller;
      },
    )

module _ (info : CpuSet) (coll new : Collection) (k : ℕ) (sorted : IsSorted coll)
    (fresh : IsNew info.id coll) (r : HasInserted info coll new k) where
  -- All elements below the place have smaller identifiers.
  low_id : (j : ℕ) → j < k → (coll.data_at j).id < info.id
  low_id j low = elim (ℕ_discrete j (k - 1)) [
    | yes e ↦ omega (
      arith,
      ap (λ x. (coll.data_at x).id) e,
      r.smaller (omega arith),
      fresh j (omega (arith, r.inside)),
    )
    | no e ↦
        omega
          (arith, sorted j (k - 1) (omega arith) (omega (arith, r.inside)), r.smaller (omega arith))
  ]

  new-IsSorted : IsSorted new
  new-IsSorted i j lt j_in =
      let n_in : j ≤ coll.size = omega (arith, r.size) in
      elim (dec_lt i k) [
        | yes i_low ↦
            let i_is = ap (λ e. e.id) (r.below i i_low) in
            elim (dec_lt j k) [
              | yes j_low ↦ omega (
                arith,
                i_is,
                ap (λ e. e.id) (r.below j j_low),
                sorted i j lt (omega (arith, r.inside)),
              )
              | no j_high ↦ elim (ℕ_discrete j k) [
                | yes here ↦
                    omega (arith, i_is, ap (λ x. (new.data_at x).id) here, r.here, low_id i i_low)
                | no beyond ↦ omega (
                  arith,
                  i_is,
                  ap (λ e. e.id) (r.above j (omega arith) n_in),
                  low_id i i_low,
                  r.greater (j - 1) (omega arith) (omega arith),
                )
              ]
            ]
        | no i_high ↦
            let j_is = ap (λ e. e.id) (r.above j (omega arith) n_in) in
            elim (ℕ_discrete i k) [
              | yes here ↦ omega (
                arith,
                j_is,
                ap (λ x. (new.data_at x).id) here,
                r.here,
                r.greater (j - 1) (omega arith) (omega arith),
              )
              | no beyond ↦ omega (
                arith,
                j_is,
                ap (λ e. e.id) (r.above i (omega arith) (omega arith)),
                sorted (i - 1) (j - 1) (omega arith) (omega arith),
              )
            ]
      ]

  -- The processors are the old ones and the new one.
  new_ids :
      (id : ℕ)
      → ((j : ℕ) × (j < new.size) × ((new.data_at j).id ≡ id))
        ↔ ((id ≡ info.id) ⊎ ((j : ℕ) × (j < coll.size) × ((coll.data_at j).id ≡ id)))
  new_ids id = (
    λ (j, j_in, same). elim (ℕ_discrete j k) [
      | yes here ↦ inl (sym same ∙ ap (λ x. (new.data_at x).id) here ∙ r.here)
      | no other ↦ elim (dec_lt j k) [
        | yes low ↦ inr (j, omega (arith, r.inside), sym (ap (λ e. e.id) (r.below j low)) ∙ same)
        | no high ↦ inr (
          j - 1,
          omega (arith, r.size),
          sym (ap (λ e. e.id) (r.above j (omega arith) (omega (arith, r.size)))) ∙ same,
        )
      ]
    ],
    λ h. elim h [
      | inl same ↦ (k, omega (arith, r.inside, r.size), r.here ∙ sym same)
      | inr (j, j_in, same) ↦ elim (dec_lt j k) [
        | yes low ↦ (j, omega (arith, r.size), ap (λ e. e.id) (r.below j low) ∙ same)
        | no high ↦ (
          j + 1,
          omega (arith, r.size),
          ap (λ e. e.id) (r.above (j + 1) (omega arith) (omega arith))
              ∙ ap (λ x. (coll.data_at x).id) (omega arith)
              ∙ same,
        )
      ]
    ],
  )

abbrev pub HasId : ℕ → Collection → Type 0
HasId id coll = (j : ℕ) × (j < coll.size) × ((coll.data_at j).id ≡ id)

-- A processor whose identifier is new is added to a sorted collection: the collection stays sorted, and its
-- identifiers are the old ones and the new one.
pub insert-IsSorted :
    (info : CpuSet) (coll : Collection)
    → IsSorted coll
    → IsNew info.id coll
    → IsSorted (insert info coll)
      × ((id : ℕ) → HasId id (insert info coll) ↔ ((id ≡ info.id) ⊎ HasId id coll))
insert-IsSorted info coll sorted fresh =
    let (k, r) = insert-HasInserted info coll in
    (
      new-IsSorted info coll (insert info coll) k sorted fresh r,
      new_ids info coll (insert info coll) k sorted fresh r,
    )

-- No processor that is reported has the identifier, and none is reported twice.
abbrev pub IsUnreported : ℕ → List (Option CpuSet) → Type 0
IsUnreported id [] = Unit
IsUnreported id (none ∷ infos) = IsUnreported id infos
IsUnreported id (some info ∷ infos) = (info.id ≢ id) × IsUnreported id infos

abbrev pub AreDistinct : List (Option CpuSet) → Type 0
AreDistinct [] = Unit
AreDistinct (none ∷ infos) = AreDistinct infos
AreDistinct (some info ∷ infos) = IsUnreported info.id infos × AreDistinct infos

abbrev pub AreNew : Collection → List (Option CpuSet) → Type 0
AreNew coll [] = Unit
AreNew coll (none ∷ infos) = AreNew coll infos
AreNew coll (some info ∷ infos) = IsNew info.id coll × AreNew coll infos

AreNew-insert :
    (info : CpuSet) (coll : Collection) (infos : List (Option CpuSet))
    → IsSorted coll
    → IsNew info.id coll
    → IsUnreported info.id infos
    → AreNew coll infos
    → AreNew (insert info coll) infos
AreNew-insert info coll [] sorted fresh apart others = tt
AreNew-insert info coll (none ∷ infos) sorted fresh apart others =
    AreNew-insert info coll infos sorted fresh apart others
AreNew-insert info coll (some x ∷ infos) sorted fresh apart others = (
  λ j j_in same. elim (((insert-IsSorted info coll sorted fresh).1 x.id).0 (j, j_in, same)) [
    | inl e ↦ apart.0 e
    | inr (i, i_in, e) ↦ others.0 i i_in e
  ],
  AreNew-insert info coll infos sorted fresh apart.1 others.1,
)

-- Whatever the order in which the system reports processors, with identifiers that are new to a sorted
-- collection and different from one another, the collection is sorted when they are inserted.
pub insert_all-IsSorted :
    (infos : List (Option CpuSet)) (coll : Collection)
    → IsSorted coll
    → AreDistinct infos
    → AreNew coll infos
    → IsSorted (insert_all infos coll)
unfolding insert_all
insert_all-IsSorted [] coll sorted distinct fresh = sorted
insert_all-IsSorted (none ∷ infos) coll sorted distinct fresh =
    insert_all-IsSorted infos coll sorted distinct fresh
insert_all-IsSorted (some info ∷ infos) coll sorted distinct fresh =
    insert_all-IsSorted infos (insert info coll) (insert-IsSorted info coll sorted fresh.0).0
      distinct.1 (AreNew-insert info coll infos sorted fresh.0 distinct.0 fresh.1)
