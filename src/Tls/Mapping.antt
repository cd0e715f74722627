-- ===== src/Tls/Mapping.antt =====
-- What `__MCF_tls_table_xset` of mcfgthread/src/tls.c does to the values and to the references.
use mcfgthread.Base.{
  ℕ, ◌+◌, ◌/◌, ◌≤◌, ◌≡◌, ◌≢◌, ◌↔◌, ◌⊎◌, inl, inr, refl, ap, ◌∙◌, Option, none, some, true, false,
  ◌==◌, if◌then◌else◌, Bool-cases, Option-cases, arith, dec_lt, ℕ_discrete, pos, negsuc,
}
use mcfgthread.Tls.{Store, Outcome, grow, get, set_grown, xset}
use mcfgthread.Tls.Moving.{held}
use mcfgthread.Tls.Larger.{IsStore, IsLarger, grow-IsLarger}
use mcfgthread.Tls.Setting.{HasSet, set_at-HasSet}

module _ (key value_opt : ℕ) (s : Store) (g : IsStore s) (nonzero : key ≢ 0)
    (kept : (s.keys key).deleted ≡ false) where
  pub HasSet-IsStore : (o : Outcome) → HasSet key value_opt s o → IsStore o.store
  HasSet-IsStore o r = record {
    table = r.table;
    covered = λ k z. omega (arith, r.balance k z, g.covered k z);
  }

  -- A value of null in a table without storage.
  unset_nothing :
      value_opt ≡ 0
      → s.table.size ≡ 0
      → HasSet key value_opt s (record { err = pos 0; old_value = 0; store = s })
  unfolding get
  unset_nothing null nothing = record {
    success = refl;
    old = ground arith;
    table = g.table;
    flags = λ k. refl;
    values = λ k z. ground arith;
    balance = λ k z. refl;
  }

  after_growth :
      (s' : Store) (o : Outcome)
      → IsLarger s s'
      → HasSet key value_opt s' o
      → HasSet key value_opt s o
  after_growth s' o l r = record {
    success = r.success;
    old = r.old ∙ l.values key nonzero;
    table = r.table;
    flags = λ k. r.flags k ∙ l.flags k;
    values = λ k z. r.values k z ∙ ap (λ x. if k == key then value_opt else x) (l.values k z);
    balance = λ k z. omega (arith, r.balance k z, l.balance k z);
  }

  grown-HasSet :
      (spare : ℕ)
      → (o : Outcome) × (set_grown key value_opt (grow spare s) ≡ some o) × HasSet key value_opt s o
  grown-HasSet spare =
      let (s', e, l) = grow-IsLarger spare s g in
      let kept' : (s'.keys key).deleted ≡ false = l.flags key ∙ kept in
      let (o, f, r) =
        set_at-HasSet key value_opt s' l.table nonzero kept' (omega (arith, l.free))
          (λ value. l.free) in
      (o, ap (set_grown key value_opt) e ∙ f, after_growth s' o l r)

  -- Memory is needed if a value is to be put into a table that is full to one half.
  pub xset-HasSet :
      (memory : Option ℕ)
      → (value_opt ≢ 0 → s.table.size / 2 ≤ s.table.size_hint → memory ≢ none)
      → (o : Outcome) × (xset memory key value_opt s ≡ some o) × HasSet key value_opt s o
  unfolding xset
  xset-HasSet memory given = elim (ℕ_discrete value_opt 0) [
    | yes null ↦ elim (ℕ_discrete s.table.size 0) [
      | yes nothing ↦ (
        record { err = pos 0; old_value = 0; store = s },
        ground arith,
        unset_nothing null nothing,
      )
      | no storage ↦
          let (o, f, r) =
            set_at-HasSet key value_opt s g.table nonzero kept (omega arith)
              (λ value. absurd (value null)) in
          (o, ground arith, r)
    ]
    | no value ↦ elim (dec_lt s.table.size_hint (s.table.size / 2)) [
      | yes free ↦
          let (o, f, r) =
            set_at-HasSet key value_opt s g.table nonzero kept (omega arith) (λ _. free) in
          (o, ground arith, r)
      | no full ↦ elim (Option-cases memory) [
        | inl nothing ↦ absurd (given value (omega arith) nothing)
        | inr (spare, there) ↦ let (o, f, r) = grown-HasSet spare in (o, ground arith, r)
      ]
    ]
  ]

-- In a well-formed store, where the keys count the references of the table, and with memory: a key that
-- is not null and not deleted gets the value, every other key keeps its own, the old value is
-- reported, and the store stays well-formed, even when the table has to grow.
pub xset_updates :
    (memory : Option ℕ) (key value_opt : ℕ) (s : Store)
    → IsStore s
    → key ≢ 0
    → (s.keys key).deleted ≡ false
    → memory ≢ none
    → (o : Outcome) × (xset memory key value_opt s ≡ some o)
      × (o.err ≡ pos 0)
      × (o.old_value ≡ get s.keys s.table key)
      × IsStore o.store
      × ((k : ℕ)
          → k ≢ 0
          → get o.store.keys o.store.table k
            ≡ (if k == key then value_opt else get s.keys s.table k))
xset_updates memory key value_opt s g nonzero kept given =
    let (o, e, r) = xset-HasSet key value_opt s g nonzero kept memory (λ _. λ _. given) in
    (o, e, r.success, r.old, HasSet-IsStore key value_opt s g nonzero kept o r, r.values)

-- A table that is full to one half cannot take a value without memory.
abbrev IsExhausted : Option ℕ → ℕ → ℕ → Store → Type 0
IsExhausted memory key value_opt s =
    ((s.keys key).deleted ≡ false)
    × (value_opt ≢ 0)
    × (s.table.size / 2 ≤ s.table.size_hint)
    × (memory ≡ none)

abbrev Succeeds : Option ℕ → ℕ → ℕ → Store → Type 0
Succeeds memory key value_opt s =
    (o : Outcome) × (xset memory key value_opt s ≡ some o)
    × HasSet key value_opt s o
    × ((s.keys key).deleted ≡ false)
    × (value_opt ≢ 0 → s.table.size / 2 ≤ s.table.size_hint → memory ≢ none)

xset-cases :
    (memory : Option ℕ) (key value_opt : ℕ) (s : Store)
    → IsStore s
    → key ≢ 0
    → Succeeds memory key value_opt s
      ⊎ (((s.keys key).deleted ≡ true) ⊎ IsExhausted memory key value_opt s)
xset-cases memory key value_opt s g nonzero = elim (Bool-cases (s.keys key).deleted) [
  | inl d ↦ inr (inl d)
  | inr kept ↦
      let enough : (value_opt ≢ 0 → s.table.size / 2 ≤ s.table.size_hint → memory ≢ none)
          → Succeeds memory key value_opt s =
        λ given.
          let (o, e, r) = xset-HasSet key value_opt s g nonzero kept memory given in
          (o, e, r, kept, given) in
      elim (ℕ_discrete value_opt 0) [
        | yes null ↦ inl (enough (λ value. absurd (value null)))
        | no value ↦ elim (dec_lt s.table.size_hint (s.table.size / 2)) [
          | yes free ↦ inl (enough (λ _. λ full. absurd (omega arith)))
          | no full ↦ elim (Option-cases memory) [
            | inl nothing ↦ inr (inr (kept, value, omega arith, nothing))
            | inr (spare, there) ↦ inl (enough (λ _. λ _. λ nothing. absurd (ground arith)))
          ]
        ]
      ]
]

-- What goes wrong in a well-formed store, for a key that is not null: -1 if and only if the key is deleted,
-- and -2 if and only if it is not, the value is not null, the table is full to one half and there is no
-- memory; then nothing changes and null is reported.
pub xset_errors :
    (memory : Option ℕ) (key value_opt : ℕ) (s : Store)
    → IsStore s
    → key ≢ 0
    → (o : Outcome) × (xset memory key value_opt s ≡ some o)
      × ((o.err ≡ negsuc 0) ↔ ((s.keys key).deleted ≡ true))
      × ((o.err ≡ negsuc 1) ↔ (
          ((s.keys key).deleted ≡ false)
          × (value_opt ≢ 0)
          × (s.table.size / 2 ≤ s.table.size_hint)
          × (memory ≡ none)))
      × (o.err ≢ pos 0 → (o.store ≡ s) × (o.old_value ≡ 0))
unfolding xset
xset_errors memory key value_opt s g nonzero = elim (xset-cases memory key value_opt s g nonzero) [
  | inl (o, e, r, kept, given) ↦ (
    o,
    e,
    ground (arith, r.success),
    (
      λ h. absurd (ground (arith, r.success)),
      λ h. let (k, v, full, nothing) = h in absurd (given v full nothing),
    ),
    λ h. absurd (h r.success),
  )
  | inr (inl d) ↦ (
    record { err = negsuc 0; old_value = 0; store = s },
    ground arith,
    ground arith,
    ground arith,
    λ h. (refl, refl),
  )
  | inr (inr full) ↦ (
    record { err = negsuc 1; old_value = 0; store = s },
    ground (arith, full),
    ground (arith, full),
    (λ h. full, λ h. refl),
    λ h. (refl, refl),
  )
]

-- In a well-formed store, whether a value is set or not, no assertion fails, and each key has gained as
-- many references as the table holds for it more than before.
pub xset_counted :
    (memory : Option ℕ) (key value_opt : ℕ) (s : Store)
    → IsStore s
    → key ≢ 0
    → (o : Outcome) × (xset memory key value_opt s ≡ some o)
      × ((k : ℕ)
          → k ≢ 0
          → (o.store.keys k).nref + held s.table k ≡ (s.keys k).nref + held o.store.table k)
unfolding xset
xset_counted memory key value_opt s g nonzero = elim (xset-cases memory key value_opt s g nonzero) [
  | inl (o, e, r, kept, given) ↦ (o, e, r.balance)
  | inr (inl d) ↦ (record { err = negsuc 0; old_value = 0; store = s }, ground arith, λ k z. refl)
  | inr (inr full) ↦
      (record { err = negsuc 1; old_value = 0; store = s }, ground (arith, full), λ k z. refl)
]
