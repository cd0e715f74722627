-- ===== src/Tls/Moving.antt =====
-- One round of the loop of mcfgthread/src/tls.c that moves elements into a larger table.
use mcfgthread.Base.{
  ℕ, ◌+◌, ◌/◌, ◌≤◌, ◌<◌, ◌≡◌, ◌≢◌, inl, inr, refl, ◌∙◌, some, Bool, true, false, ◌==◌,
  if◌then◌else◌, Bool-cases, arith, ℕ_discrete,
}
use mcfgthread.Base.Family.{weigh, weigh-assign}
use mcfgthread.Tls.{
  Element, Table, Store, live, deleted_in, linear_probe, value_in, put, key_drop_ref_nonnull,
  relocate_at, relocate,
}
use mcfgthread.Tls.Probing.{IsTable, IsAbsent, stored_or_IsAbsent}
use mcfgthread.Tls.Putting.{put-IsTable, put-value_in}

abbrev pub points : ℕ → Element → ℕ
points key e = if e.key_opt == key then 1 else 0

-- The number of elements with a key: how many references the table holds.
abbrev pub held : Table → ℕ → ℕ
held t key = weigh (points key) t.size t.element_at

abbrev pub Unmoved : Element → (ℕ → Bool) → ℕ → Type 0
Unmoved e deleted key = 0 < live deleted e → e.key_opt ≢ key

-- What an element may rely on, and what its relocation gives.
pub record IsMovable (e : Element) (s : Store) : Type 0 where
  pub table : IsTable s.table
  pub space : s.table.size_hint + live (deleted_in s.keys) e ≤ s.table.size / 2
  pub nonempty : 0 < s.table.size
  pub apart : 0 < live (deleted_in s.keys) e → IsAbsent s.table e.key_opt

pub record HasMoved (e : Element) (s s' : Store) : Type 0 where
  pub table : IsTable s'.table
  pub size : s'.table.size ≡ s.table.size
  pub hint : s'.table.size_hint ≡ live (deleted_in s.keys) e + s.table.size_hint
  pub flags : (k : ℕ) → deleted_in s'.keys k ≡ deleted_in s.keys k
  pub moved :
      0 < live (deleted_in s.keys) e
      → value_in s'.table (linear_probe s'.table e.key_opt) ≡ e.value_opt
  pub kept :
      (k : ℕ)
      → k ≢ 0
      → Unmoved e (deleted_in s.keys) k
      → value_in s'.table (linear_probe s'.table k) ≡ value_in s.table (linear_probe s.table k)
  pub absent : (k : ℕ) → IsAbsent s.table k → Unmoved e (deleted_in s.keys) k → IsAbsent s'.table k
  pub references : (k : ℕ) → (s.keys k).nref ≤ (s'.keys k).nref + points k e
  pub balance :
      (k : ℕ)
      → k ≢ 0
      → points k e ≤ (s.keys k).nref
      → (s'.keys k).nref + points k e + held s.table k ≡ (s.keys k).nref + held s'.table k

module _ (e : Element) (s : Store) (g : IsMovable e s) where
  skip : e.key_opt ≡ 0 → HasMoved e s s
  skip z = record {
    table = g.table;
    size = refl;
    hint = ground arith;
    flags = λ k. refl;
    moved = λ h. absurd (ground arith);
    kept = λ k nonzero u. refl;
    absent = λ k a u. a;
    references = λ k. omega arith;
    balance = λ k nonzero c. ground arith;
  }

  abbrev dropped : Store
  unfolding key_drop_ref_nonnull
  dropped = record s { keys = key_drop_ref_nonnull e.key_opt s.keys }

  drop : e.key_opt ≢ 0 → deleted_in s.keys e.key_opt ≡ true → HasMoved e s dropped
  unfolding key_drop_ref_nonnull
  drop nonzero d = record {
    table = g.table;
    size = refl;
    hint = ground arith;
    flags = λ k. ground arith;
    moved = λ h. absurd (ground arith);
    kept = λ k z u. refl;
    absent = λ k a u. a;
    references = λ k. ground arith;
    balance = λ k z c. ground arith;
  }

  abbrev placed_at : ℕ → Store
  unfolding put
  placed_at i = record s { table = put s.table i e }

  place :
      (i : ℕ)
      → e.key_opt ≢ 0
      → deleted_in s.keys e.key_opt ≡ false
      → i < s.table.size
      → linear_probe s.table e.key_opt ≡ some i
      → (s.table.element_at i).key_opt ≡ 0
      → HasMoved e s (placed_at i)
  unfolding put
  place i nonzero d i_in probed vacant =
      let light : live (deleted_in s.keys) e ≡ 1 = ground arith in
      let g' =
        put-IsTable s.table e.key_opt e.value_opt i g.table nonzero i_in probed vacant
          (omega (arith, g.space)) in
      let values =
        put-value_in s.table e.key_opt e.value_opt i g.table nonzero i_in probed vacant in
      record {
        table = g';
        size = refl;
        hint = omega arith;
        flags = λ k. refl;
        moved = λ h. values e.key_opt nonzero g' ∙ ground arith;
        kept = λ k z u. let other = u (omega arith) in values k z g' ∙ ground arith;
        absent = λ k a u j j_in. let other = u (omega arith) in ground (arith, a j j_in);
        references = λ k. omega arith;
        balance = λ k z c.
            ground (arith, weigh-assign (points k) s.table.element_at s.table.size i e i_in);
      }

  pub relocate-HasMoved : (s' : Store) × (relocate e s ≡ some s') × HasMoved e s s'
  unfolding relocate relocate_at key_drop_ref_nonnull put
  relocate-HasMoved = elim (ℕ_discrete e.key_opt 0) [
    | yes z ↦ (s, ground arith, skip z)
    | no nonzero ↦ elim (Bool-cases (s.keys e.key_opt).deleted) [
      | inl d ↦ (dropped, ground arith, drop nonzero d)
      | inr d ↦
          let a = g.apart (ground arith) in
          let (i, p, i_in, which) =
            stored_or_IsAbsent s.table e.key_opt g.table g.nonempty nonzero in
          let vacant : (s.table.element_at i).key_opt ≡ 0 = elim which [
            | inl hit ↦ absurd (a i i_in hit)
            | inr v ↦ v.0
          ] in
          (placed_at i, ground arith, place i nonzero d i_in p vacant)
    ]
  ]
