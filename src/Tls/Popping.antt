-- ===== src/Tls/Popping.antt =====
-- `__MCF_tls_table_pop` of mcfgthread/src/tls.c takes the values out of a table, one at a time.
use mcfgthread.Base.{
  ℕ, zero, suc, ◌+◌, ◌≤◌, ◌<◌, ◌≡◌, ◌≢◌, ◌⊎◌, inl, inr, refl, ap, Option, none, some, true, false,
  ◌==◌, if◌then◌else◌, arith, ℕ_discrete, pos, negsuc,
}
use mcfgthread.Base.Family.{weigh, weigh-assign}
use mcfgthread.Base.Round.{first_round, first_round-some, first_round-none}
use mcfgthread.Tls.{Keys, Element, Store, revalue, get, key_drop_ref_nonnull}
use mcfgthread.Tls.Pop.{
  PoppedElement, Popped, pops, release_keys, pop_element, deallocate, pop_origin, pop_found, pop,
}
use mcfgthread.Tls.Probing.{Stored, stored_or_IsAbsent, value_in-Stored}
use mcfgthread.Tls.Putting.{revalue-IsTable, revalue-value_in}
use mcfgthread.Tls.Moving.{points, held}
use mcfgthread.Tls.Larger.{IsStore}
use mcfgthread.Tls.Setting.{values_of}

-- Every key loses the references of the elements that name it.
release_keys-nref :
    (elements : ℕ → Element) (keys : Keys) (k : ℕ)
    → k ≢ 0
    → (n : ℕ) → weigh (points k) n elements ≤ (keys k).nref
    → (release_keys elements n keys k).nref + weigh (points k) n elements ≡ (keys k).nref
unfolding release_keys weigh key_drop_ref_nonnull
release_keys-nref elements keys k nonzero zero h = omega arith
release_keys-nref elements keys k nonzero (suc n) h =
    ground (arith, release_keys-nref elements keys k nonzero n (omega arith))

-- One value that is not null, of a key that is not deleted, becomes null.
pub record PopsOne (s : Store) (p : Popped) (e : PoppedElement) : Type 0 where
  pub success : p.err ≡ pos 0
  pub element : p.out_elem ≡ some e
  pub nonzero : e.key ≢ 0
  pub value : e.value ≢ 0
  pub kept : (s.keys e.key).deleted ≡ false
  pub current : get s.keys s.table e.key ≡ e.value
  pub stored : Stored s.table e.key e.hint
  pub value_there : (s.table.element_at e.hint).value_opt ≡ e.value
  pub keys : p.store.keys ≡ s.keys
  pub taken : p.store.table ≡ revalue s.table e.hint 0
  pub store : IsStore p.store
  pub values :
      (k : ℕ)
      → k ≢ 0
      → get p.store.keys p.store.table k ≡ (if k == e.key then 0 else get s.keys s.table k)

-- All values are null; the table is deallocated, and its references are given back.
pub record PopsNone (s : Store) (p : Popped) : Type 0 where
  pub failure : p.err ≡ negsuc 0
  pub element : p.out_elem ≡ none
  pub empty : p.store.table.size ≡ 0
  pub valueless : (i : ℕ) → i < s.table.size → pops s.keys s.table.element_at i ≡ false
  pub values : (k : ℕ) → k ≢ 0 → get s.keys s.table k ≡ 0
  pub released : (k : ℕ) → k ≢ 0 → (p.store.keys k).nref + held s.table k ≡ (s.keys k).nref

module _ (s : Store) (g : IsStore s) where
  pop_element-PopsOne :
      (i : ℕ)
      → i < s.table.size
      → pops s.keys s.table.element_at i ≡ true
      → PopsOne s (pop_element s i) (record {
        key = (s.table.element_at i).key_opt;
        value = (s.table.element_at i).value_opt;
        hint = i;
      })
  unfolding pop_element revalue get
  pop_element-PopsOne i i_in hit =
      let key = (s.table.element_at i).key_opt in
      let nonzero : key ≢ 0 = λ z. ground (arith, g.table.valueless i z) in
      let kept : (s.keys key).deleted ≡ false = ground arith in
      record {
        success = refl;
        element = refl;
        nonzero = nonzero;
        value = ground arith;
        kept = kept;
        current = ground (arith, value_in-Stored s.table key i g.table nonzero (i_in, refl));
        stored = (i_in, refl);
        value_there = refl;
        keys = refl;
        taken = refl;
        store = record {
          table = revalue-IsTable s.table key 0 i g.table nonzero (i_in, refl);
          covered = λ k z. ground (
            arith,
            g.covered k z,
            weigh-assign (points k) s.table.element_at s.table.size i
                (record (s.table.element_at i) { value_opt = 0 }) i_in,
          );
        };
        values = λ k z.
            values_of key 0 s.keys s.keys s.table (revalue s.table i 0) kept (λ j. refl)
              (omega arith) refl k
              (revalue-value_in s.table key 0 i g.table nonzero (i_in, refl) k z);
      }

  deallocate-PopsNone :
      ((i : ℕ) → i < s.table.size → pops s.keys s.table.element_at i ≡ false)
      → 0 < s.table.size
      → PopsNone s (deallocate s)
  unfolding deallocate get
  deallocate-PopsNone miss h = record {
    failure = refl;
    element = refl;
    empty = refl;
    valueless = miss;
    values = λ k z.
        (let (i, p, i_in, which) = stored_or_IsAbsent s.table k g.table h z in
          elim which [ inl hit ↦ ground (arith, miss i i_in) | inr gone ↦ ground (arith, gone.0) ]);
    released = λ k z. release_keys-nref s.table.element_at s.keys k z s.table.size (g.covered k z);
  }

  nothing_held : s.table.size ≡ 0 → (k : ℕ) → held s.table k ≡ 0
  unfolding weigh
  nothing_held z k = ap (λ n. weigh (points k) n s.table.element_at) z

  empty-PopsNone :
      s.table.size ≡ 0 → PopsNone s (record { err = negsuc 0; out_elem = none; store = s })
  unfolding get
  empty-PopsNone z = record {
    failure = refl;
    element = refl;
    empty = z;
    valueless = λ i i_in. absurd (omega arith);
    values = λ k nonzero. ground arith;
    released = λ k nonzero. omega (arith, nothing_held z k);
  }

  found-cases :
      (hint : ℕ) (o : Option ℕ)
      → 0 < s.table.size
      → first_round (pops s.keys s.table.element_at) s.table.size (pop_origin hint s.table) ≡ o
      → ((e : PoppedElement) × PopsOne s (pop_found s o) e) ⊎ PopsNone s (pop_found s o)
  found-cases hint none h e = inr (
      deallocate-PopsNone
        (λ i.
          first_round-none (pops s.keys s.table.element_at) s.table.size (pop_origin hint s.table) i
            e)
        h)
  found-cases hint (some i) h e =
      let found =
        first_round-some (pops s.keys s.table.element_at) s.table.size (pop_origin hint s.table) i
          (ground arith) e in
      inl (_, pop_element-PopsOne i found.0 found.1)

  pop_storage :
      (hint : ℕ)
      → 0 < s.table.size
      → pop (some hint) s
        ≡ pop_found s
            (first_round (pops s.keys s.table.element_at) s.table.size (pop_origin hint s.table))
  unfolding pop
  pop_storage hint h = ground arith

  pop_nothing :
      (hint : ℕ)
      → s.table.size ≡ 0
      → pop (some hint) s ≡ record { err = negsuc 0; out_elem = none; store = s }
  unfolding pop
  pop_nothing hint z = ground arith

  -- A pop takes one value out of the table, or there is none and the table is deallocated.
  pub pop-cases :
      (hint : ℕ)
      → ((e : PoppedElement) × PopsOne s (pop (some hint) s) e) ⊎ PopsNone s (pop (some hint) s)
  pop-cases hint = elim (ℕ_discrete s.table.size 0) [
    | yes z ↦ inr (rw (pop_nothing hint z) (empty-PopsNone z))
    | no storage ↦ rw (pop_storage hint (omega arith)) (
        found-cases hint
          (first_round (pops s.keys s.table.element_at) s.table.size (pop_origin hint s.table))
          (omega arith) refl)
  ]

-- A pop from a well-formed table, from wherever it begins to search, does one of two things. It takes the
-- value of a stored key that is not deleted and reports it, and then that key has null and all
-- others what they had; or there is no such value, the table is deallocated, and each key gives back
-- the references that the table held.
pub pop_lem :
    (hint : ℕ) (s : Store)
    → IsStore s
    → ((e : PoppedElement) × PopsOne s (pop (some hint) s) e) ⊎ PopsNone s (pop (some hint) s)
pop_lem hint s g = pop-cases s g hint
