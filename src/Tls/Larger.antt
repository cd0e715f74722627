-- ===== src/Tls/Larger.antt =====
-- The larger table of mcfgthread/src/tls.c holds what the old one held, without the deleted keys.
use mcfgthread.Base.{
  ℕ, ◌+◌, ◌*◌, ◌/◌, ◌≤◌, ◌<◌, ◌≡◌, ◌≢◌, inl, inr, refl, sym, ap, ◌∙◌, some, false, ◌==◌,
  if◌then◌else◌, Bool-cases, arith, dec_lt,
}
use mcfgthread.Base.Family.{weigh, weigh-eq_zero}
use mcfgthread.Tls.{
  empty_element, Table, Store, live, deleted_in, linear_probe, value_in, grow, get,
}
use mcfgthread.Tls.Probing.{
  used, IsTable, probe-Stored, value_in-IsAbsent, value_in-Stored, stored_or_IsAbsent,
}
use mcfgthread.Tls.Moving.{points, held}
use mcfgthread.Tls.Growing.{IsDistinct, IsGrowing, HasGrown, relocate_all-HasGrown}

-- A well-formed table whose references are counted in the keys.
pub record IsStore (s : Store) : Type 0 where
  pub table : IsTable s.table
  pub covered : (k : ℕ) → k ≢ 0 → held s.table k ≤ (s.keys k).nref

pub IsTable-IsDistinct : (t : Table) → IsTable t → IsDistinct t.size t.element_at
IsTable-IsDistinct t g i j i_in j_in nonzero same = ground (
  arith,
  g.placed i i_in nonzero,
  probe-Stored t (t.element_at i).key_opt j g nonzero (j_in, sym same),
)

abbrev pub cleared : ℕ → Table
cleared size = record { size = size; element_at = λ _. empty_element; size_hint = 0 }

pub cleared-IsTable : (size : ℕ) → IsTable (cleared size)
cleared-IsTable size = record {
  counted = weigh-eq_zero used (λ _. empty_element) size (λ i. refl);
  room = omega arith;
  valueless = λ i z. refl;
  placed = λ i i_in z. absurd (z refl);
}

-- What a larger table has in common with the old one.
pub record IsLarger (s s' : Store) : Type 0 where
  pub table : IsTable s'.table
  pub free : s'.table.size_hint < s'.table.size / 2
  pub flags : (k : ℕ) → deleted_in s'.keys k ≡ deleted_in s.keys k
  pub values : (k : ℕ) → k ≢ 0 → get s'.keys s'.table k ≡ get s.keys s.table k
  pub balance :
      (k : ℕ) → k ≢ 0 → (s'.keys k).nref + held s.table k ≡ (s.keys k).nref + held s'.table k

module _ (spare : ℕ) (s : Store) (g : IsStore s) where
  abbrev new_size : ℕ
  new_size = 17 + 3 * weigh (live (deleted_in s.keys)) s.table.size s.table.element_at + spare

  abbrev start : Store
  start = record s { table = cleared new_size }

  start-IsGrowing : IsGrowing s.table.element_at s.table.size start
  start-IsGrowing = record {
    table = cleared-IsTable new_size;
    nonempty = omega arith;
    space = omega arith;
    distinct = IsTable-IsDistinct s.table g.table;
    apart = λ j j_in l i i_in. ground arith;
    covered = g.covered;
  }

  start-absent :
      (k : ℕ) → k ≢ 0 → value_in (cleared new_size) (linear_probe (cleared new_size) k) ≡ 0
  start-absent k nonzero =
      value_in-IsAbsent (cleared new_size) k (cleared-IsTable new_size) (omega arith) nonzero
        (λ i i_in. ground arith)

  module _ (s' : Store) (r : HasGrown s.table.element_at s.table.size start s') where
    found :
        (k : ℕ)
        → k ≢ 0
        → deleted_in s.keys k ≡ false
        → value_in s'.table (linear_probe s'.table k)
          ≡ (if s.table.size == 0 then 0 else value_in s.table (linear_probe s.table k))
    found k nonzero d = elim (dec_lt 0 s.table.size) [
      | no none_there ↦
          r.kept k nonzero (λ j j_in. absurd (omega arith)) ∙ start-absent k nonzero ∙ ground arith
      | yes some_there ↦
          let (i, p, i_in, which) = stored_or_IsAbsent s.table k g.table some_there nonzero in
          elim which [
            | inl hit ↦
                ap (λ x. value_in s'.table (linear_probe s'.table x)) (sym hit)
                ∙ r.moved i i_in (ground arith)
                ∙ sym (value_in-Stored s.table k i g.table nonzero (i_in, hit))
                ∙ ground arith
            | inr gone ↦
                r.kept k nonzero (λ j j_in l. gone.1 j j_in)
                ∙ start-absent k nonzero
                ∙ sym (value_in-IsAbsent s.table k g.table some_there nonzero gone.1)
                ∙ ground arith
          ]
    ]

    grown-IsLarger : IsLarger s s'
    unfolding get
    grown-IsLarger = record {
      table = r.table;
      free = rw r.size (omega (arith, r.hint));
      flags = r.flags;
      values = λ k nonzero. elim (Bool-cases (s.keys k).deleted) [
        | inl d ↦ ground (arith, r.flags k)
        | inr d ↦ ground (arith, r.flags k, found k nonzero d, r.size)
      ];
      balance = λ k nonzero. omega (
        arith,
        r.balance k nonzero,
        weigh-eq_zero (points k) (λ _. empty_element) new_size (λ i. ground arith),
      );
    }

  pub grow-IsLarger : (s' : Store) × (grow spare s ≡ some s') × IsLarger s s'
  unfolding grow
  grow-IsLarger =
      let (s', e, r) =
        relocate_all-HasGrown s.table.element_at s.table.size start start-IsGrowing in
      (s', e, grown-IsLarger s' r)
