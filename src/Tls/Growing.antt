-- ===== src/Tls/Growing.antt =====
-- The loop of mcfgthread/src/tls.c that moves all elements into a larger table.
use mcfgthread.Base.{
  ℕ, zero, suc, ◌+◌, ◌/◌, ◌≤◌, ◌<◌, ◌≡◌, ◌≢◌, refl, sym, ap, ◌∙◌, some, Bool, ◌||◌, ◌==◌,
  if◌then◌else◌, arith, ℕ_discrete,
}
use mcfgthread.Base.Family.{weigh}
use mcfgthread.Tls.{Element, Store, live, deleted_in, linear_probe, value_in, relocate_all}
use mcfgthread.Tls.Probing.{IsTable, IsAbsent}
use mcfgthread.Tls.Moving.{points, held, Unmoved, IsMovable, HasMoved, relocate-HasMoved}

-- No key stands at two of the first `n` elements.
abbrev pub IsDistinct : ℕ → (ℕ → Element) → Type 0
IsDistinct n elements =
    (i j : ℕ)
    → i < n
    → j < n
    → (elements i).key_opt ≢ 0
    → (elements i).key_opt ≡ (elements j).key_opt
    → i ≡ j

-- What the loop relies on while `n` elements are left.
pub record IsGrowing (elements : ℕ → Element) (n : ℕ) (s : Store) : Type 0 where
  pub table : IsTable s.table
  pub nonempty : 0 < s.table.size
  pub space : s.table.size_hint + weigh (live (deleted_in s.keys)) n elements ≤ s.table.size / 2
  pub distinct : IsDistinct n elements
  pub apart :
      (j : ℕ)
      → j < n
      → 0 < live (deleted_in s.keys) (elements j)
      → IsAbsent s.table (elements j).key_opt
  pub covered : (k : ℕ) → k ≢ 0 → weigh (points k) n elements ≤ (s.keys k).nref

abbrev pub NoneMoved : (ℕ → Element) → ℕ → (ℕ → Bool) → ℕ → Type 0
NoneMoved elements n deleted k = (j : ℕ) → j < n → Unmoved (elements j) deleted k

-- What the rest of the loop gives.
pub record HasGrown (elements : ℕ → Element) (n : ℕ) (s s' : Store) : Type 0 where
  pub table : IsTable s'.table
  pub size : s'.table.size ≡ s.table.size
  pub hint : s'.table.size_hint ≡ weigh (live (deleted_in s.keys)) n elements + s.table.size_hint
  pub flags : (k : ℕ) → deleted_in s'.keys k ≡ deleted_in s.keys k
  pub moved :
      (j : ℕ)
      → j < n
      → 0 < live (deleted_in s.keys) (elements j)
      → value_in s'.table (linear_probe s'.table (elements j).key_opt) ≡ (elements j).value_opt
  pub kept :
      (k : ℕ)
      → k ≢ 0
      → NoneMoved elements n (deleted_in s.keys) k
      → value_in s'.table (linear_probe s'.table k) ≡ value_in s.table (linear_probe s.table k)
  pub balance :
      (k : ℕ)
      → k ≢ 0
      → (s'.keys k).nref + weigh (points k) n elements + held s.table k
        ≡ (s.keys k).nref + held s'.table k

live-same :
    (deleted deleted' : ℕ → Bool) (e : Element)
    → deleted' e.key_opt ≡ deleted e.key_opt
    → live deleted' e ≡ live deleted e
live-same deleted deleted' e same = ap (λ b. if e.key_opt == 0 || b then 0 else 1) same

weigh-live_same :
    (deleted deleted' : ℕ → Bool) (n : ℕ) (elements : ℕ → Element)
    → ((k : ℕ) → deleted' k ≡ deleted k)
    → weigh (live deleted') n elements ≡ weigh (live deleted) n elements
unfolding weigh
weigh-live_same deleted deleted' zero elements same = refl
weigh-live_same deleted deleted' (suc n) elements same = omega (
  arith,
  live-same deleted deleted' (elements n) (same (elements n).key_opt),
  weigh-live_same deleted deleted' n elements same,
)

module _ (elements : ℕ → Element) (n : ℕ) (s : Store) (g : IsGrowing elements (suc n) s) where
  first-IsMovable : IsMovable (elements n) s
  unfolding weigh
  first-IsMovable = record {
    table = g.table;
    space = omega (arith, g.space);
    nonempty = g.nonempty;
    apart = g.apart n (omega arith);
  }

  module _ (s1 : Store) (m : HasMoved (elements n) s s1) where
    flag-live :
        (j : ℕ) → live (deleted_in s1.keys) (elements j) ≡ live (deleted_in s.keys) (elements j)
    flag-live j =
        live-same (deleted_in s.keys) (deleted_in s1.keys) (elements j)
          (m.flags (elements j).key_opt)

    -- The element at `n` has another key than a live one below it.
    others :
        (j : ℕ)
        → j < n
        → 0 < live (deleted_in s.keys) (elements j)
        → (elements n).key_opt ≢ (elements j).key_opt
    others j j_in l same =
        let here : j ≡ n = g.distinct j n (omega arith) (omega arith) (ground arith) (sym same) in
        omega arith

    rest-IsGrowing : IsGrowing elements n s1
    unfolding weigh
    rest-IsGrowing = record {
      table = m.table;
      nonempty = omega (arith, m.size, g.nonempty);
      space = rw m.size (
          omega (
            arith,
            g.space,
            m.hint,
            weigh-live_same (deleted_in s.keys) (deleted_in s1.keys) n elements m.flags,
          ));
      distinct = λ i j i_in j_in. g.distinct i j (omega arith) (omega arith);
      apart = λ j j_in l.
          let l' : 0 < live (deleted_in s.keys) (elements j) = omega (arith, flag-live j) in
          m.absent (elements j).key_opt (g.apart j (omega arith) l') (λ h. others j j_in l');
      covered = λ k nonzero. omega (arith, g.covered k nonzero, m.references k);
    }

    rest-HasGrown : (s' : Store) → HasGrown elements n s1 s' → HasGrown elements (suc n) s s'
    unfolding weigh
    rest-HasGrown s' r = record {
      table = r.table;
      size = r.size ∙ m.size;
      hint = omega (
        arith,
        r.hint,
        m.hint,
        weigh-live_same (deleted_in s.keys) (deleted_in s1.keys) n elements m.flags,
      );
      flags = λ k. r.flags k ∙ m.flags k;
      moved = λ j j_in l. elim (ℕ_discrete j n) [
        | yes here ↦
            let l' : 0 < live (deleted_in s.keys) (elements n) = rw (sym here) l in
            rw here (
              r.kept (elements n).key_opt (ground arith)
                (λ i i_in li. λ same. others i i_in (omega (arith, li, flag-live i)) (sym same))
              ∙ m.moved l')
        | no below ↦ r.moved j (omega arith) (omega (arith, l, flag-live j))
      ];
      kept = λ k nonzero u.
          r.kept k nonzero (λ j j_in l. u j (omega arith) (omega (arith, l, flag-live j)))
          ∙ m.kept k nonzero (u n (omega arith));
      balance = λ k nonzero.
          omega
            (arith, r.balance k nonzero, m.balance k nonzero (omega (arith, g.covered k nonzero)));
    }

pub relocate_all-HasGrown :
    (elements : ℕ → Element) (n : ℕ) (s : Store)
    → IsGrowing elements n s
    → (s' : Store) × (relocate_all elements n (some s) ≡ some s') × HasGrown elements n s s'
unfolding relocate_all weigh
relocate_all-HasGrown elements zero s g = (
  s,
  refl,
  record {
    table = g.table;
    size = refl;
    hint = omega arith;
    flags = λ k. refl;
    moved = λ j j_in. absurd (omega arith);
    kept = λ k nonzero u. refl;
    balance = λ k nonzero. omega arith;
  },
)
relocate_all-HasGrown elements (suc n) s g =
    let (s1, e, m) = relocate-HasMoved (elements n) s (first-IsMovable elements n s g) in
    let (s', e', r) = relocate_all-HasGrown elements n s1 (rest-IsGrowing elements n s g s1 m) in
    (s', ap (relocate_all elements n) e ∙ e', rest-HasGrown elements n s g s1 m s' r)
