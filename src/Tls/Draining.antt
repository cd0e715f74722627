-- ===== src/Tls/Draining.antt =====
-- When a thread exits, the loop of mcfgthread/src/xglobals.c over the pops of mcfgthread/src/tls.c ends.
use mcfgthread.Base.{
  ℕ, zero, suc, ◌+◌, ◌<◌, ◌≡◌, ◌≢◌, inl, inr, refl, sym, ap, ◌∙◌, Option, none, some, false, not,
  ◌&&◌, ◌==◌, if◌then◌else◌, arith, ℕ_discrete, List, [], ◌∷◌,
}
use mcfgthread.Base.Family.{weigh, weigh-assign}
use mcfgthread.Tls.{Keys, Element, Store, revalue, key_get_destructor}
use mcfgthread.Tls.Pop.{PoppedElement, Popped, pops, pop, Call, called, drain_popped, drain}
use mcfgthread.Tls.Moving.{points, held}
use mcfgthread.Tls.Larger.{IsStore}
use mcfgthread.Tls.Popping.{PopsOne, PopsNone, pop-cases}

-- An element that has a value which a destructor is to be called with.
abbrev pub owes : Keys → Call → Element → ℕ
owes keys c e =
    if not (e.value_opt == 0)
      && not (keys e.key_opt).deleted
      && ((e.value_opt == c.value) && ((keys e.key_opt).dtor_opt == c.dtor))
    then 1
    else 0

abbrev pub has_value : Keys → Element → ℕ
has_value keys e = if not (e.value_opt == 0) && not (keys e.key_opt).deleted then 1 else 0

-- How often a call is in a list.
unfoldable pub count : Call → List Call → ℕ
count c [] = 0
count c (x ∷ l) =
    let rest = count c l in if (x.value == c.value) && (x.dtor == c.dtor) then suc rest else rest

abbrev pub call_of : Keys → PoppedElement → Call
call_of keys e = record { dtor = (keys e.key).dtor_opt; value = e.value }

abbrev pub is_call : Call → Call → ℕ
is_call c x = if (x.value == c.value) && (x.dtor == c.dtor) then 1 else 0

module _ (s : Store) (p : Popped) (e : PoppedElement) (m : PopsOne s p e) where
  -- One value less, and one call less that is owed.
  pop-has_value :
      weigh (has_value s.keys) s.table.size s.table.element_at
      ≡ suc (weigh (has_value p.store.keys) p.store.table.size p.store.table.element_at)
  unfolding revalue
  pop-has_value = rw m.taken (
      rw m.keys (
        ground (
          arith,
          m.value,
          m.kept,
          m.value_there,
          m.stored.1,
          weigh-assign (has_value s.keys) s.table.element_at s.table.size e.hint
              (record (s.table.element_at e.hint) { value_opt = 0 }) m.stored.0,
        )))

  pop-owes :
      (c : Call)
      → weigh (owes s.keys c) s.table.size s.table.element_at
        ≡ is_call c (call_of s.keys e)
          + weigh (owes p.store.keys c) p.store.table.size p.store.table.element_at
  unfolding revalue
  pop-owes c = rw m.taken (
      rw m.keys (
        ground (
          arith,
          m.value,
          m.kept,
          m.value_there,
          m.stored.1,
          weigh-assign (owes s.keys c) s.table.element_at s.table.size e.hint
              (record (s.table.element_at e.hint) { value_opt = 0 }) m.stored.0,
        )))

  pop-held : (k : ℕ) → held p.store.table k ≡ held s.table k
  unfolding revalue
  pop-held k = rw m.taken (
      ground (
        arith,
        m.stored.1,
        weigh-assign (points k) s.table.element_at s.table.size e.hint
            (record (s.table.element_at e.hint) { value_opt = 0 }) m.stored.0,
      ))

-- What the loop has done in the end: every value that a destructor is due has been passed to it once, no
-- null destructor has been called, and the references of the table are given back.
pub record IsDrained (s : Store) (calls : List Call) (s' : Store) : Type 0 where
  pub empty : s'.table.size ≡ 0
  pub counts :
      (c : Call)
      → c.dtor ≢ 0
      → count c calls ≡ weigh (owes s.keys c) s.table.size s.table.element_at
  pub no_null : (c : Call) → c.dtor ≡ 0 → count c calls ≡ 0
  pub released : (k : ℕ) → k ≢ 0 → (s'.keys k).nref + held s.table k ≡ (s.keys k).nref

weigh-owes_none :
    (keys : Keys) (elements : ℕ → Element) (c : Call) (n : ℕ)
    → ((i : ℕ) → i < n → pops keys elements i ≡ false)
    → weigh (owes keys c) n elements ≡ 0
unfolding weigh
weigh-owes_none keys elements c zero h = refl
weigh-owes_none keys elements c (suc n) h =
    ground
      (arith, h n (omega arith), weigh-owes_none keys elements c n (λ i i_in. h i (omega arith)))

count-call : (c x : Call) (calls : List Call) → count c (x ∷ calls) ≡ is_call c x + count c calls
unfolding count
count-call c x calls = ground arith

module _ (invoke : Call → Store → Store) (quiet : (c : Call) (s : Store) → invoke c s ≡ s) where
  abbrev Drains : Store → Option (List Call × Store) → Type 0
  Drains s r = (calls : List Call) × (s' : Store) × (r ≡ some (calls, s')) × IsDrained s calls s'

  none-Drains :
      (go_on : ℕ → Store → Option (List Call × Store)) (s : Store) (p : Popped)
      → PopsNone s p
      → Drains s (drain_popped invoke go_on p)
  unfolding drain_popped count
  none-Drains go_on s p m = (
    [],
    p.store,
    rw m.element refl,
    record {
      empty = m.empty;
      counts = λ c z. sym (weigh-owes_none s.keys s.table.element_at c s.table.size m.valueless);
      no_null = λ c z. refl;
      released = m.released;
    },
  )

  drain_silent :
      (go_on : ℕ → Store → Option (List Call × Store)) (p : Popped) (e : PoppedElement)
      → p.out_elem ≡ some e
      → (p.store.keys e.key).dtor_opt ≡ 0
      → drain_popped invoke go_on p ≡ go_on e.hint p.store
  unfolding drain_popped key_get_destructor
  drain_silent go_on p e m silent = rw m (ground arith)

  drain_loud :
      (go_on : ℕ → Store → Option (List Call × Store)) (p : Popped) (e : PoppedElement)
      → p.out_elem ≡ some e
      → (p.store.keys e.key).dtor_opt ≢ 0
      → drain_popped invoke go_on p ≡ called (call_of p.store.keys e) (go_on e.hint p.store)
  unfolding drain_popped key_get_destructor
  drain_loud go_on p e m loud =
      let call = call_of p.store.keys e in
      ap
        (λ o. elim o [
          | none ↦ some ([], p.store)
          | some x ↦
              if (p.store.keys x.key).dtor_opt == 0
              then go_on x.hint p.store
              else called (call_of p.store.keys x)
                  (go_on x.hint (invoke (call_of p.store.keys x) p.store))
        ])
        m
      ∙ rw (quiet call p.store) (ground arith)

  one-Drains :
      (go_on : ℕ → Store → Option (List Call × Store)) (s : Store) (p : Popped) (e : PoppedElement)
      → PopsOne s p e
      → Drains p.store (go_on e.hint p.store)
      → Drains s (drain_popped invoke go_on p)
  one-Drains go_on s p e m (calls, s', same, d) =
      let same_dtor : (p.store.keys e.key).dtor_opt ≡ (s.keys e.key).dtor_opt =
        ap (λ x. (x e.key).dtor_opt) m.keys in
      let released : (k : ℕ) → k ≢ 0 → (s'.keys k).nref + held s.table k ≡ (s.keys k).nref =
        λ k z. omega (arith, d.released k z, pop-held s p e m k, ap (λ x. (x k).nref) m.keys) in
      elim (ℕ_discrete (s.keys e.key).dtor_opt 0) [
        | yes silent ↦ (
          calls,
          s',
          drain_silent go_on p e m.element (same_dtor ∙ silent) ∙ same,
          record {
            empty = d.empty;
            counts = λ c z. d.counts c z ∙ ground (arith, pop-owes s p e m c);
            no_null = d.no_null;
            released = released;
          },
        )
        | no loud ↦ (
          call_of s.keys e ∷ calls,
          s',
          drain_loud go_on p e m.element (omega arith)
              ∙ ap (called (call_of p.store.keys e)) same
              ∙ ap (λ k. some (call_of k e ∷ calls, s')) m.keys,
          record {
            empty = d.empty;
            counts = λ c z.
                count-call c (call_of s.keys e) calls
                ∙ omega (arith, d.counts c z, pop-owes s p e m c);
            no_null =
                λ c z. count-call c (call_of s.keys e) calls ∙ ground (arith, d.no_null c z, loud);
            released = released;
          },
        )
      ]

  pub drain_lem :
      (fuel hint : ℕ) (s : Store)
      → IsStore s
      → weigh (has_value s.keys) s.table.size s.table.element_at < fuel
      → Drains s (drain invoke fuel hint s)
  unfolding drain
  drain_lem zero hint s g h = absurd (omega arith)
  drain_lem (suc fuel) hint s g h = elim (pop-cases s g hint) [
    | inl (e, m) ↦ one-Drains (drain invoke fuel) s (pop (some hint) s) e m (
        drain_lem fuel e.hint (pop (some hint) s).store m.store
          (omega (arith, pop-has_value s (pop (some hint) s) e m)))
    | inr m ↦ none-Drains (drain invoke fuel) s (pop (some hint) s) m
  ]
