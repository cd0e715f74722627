-- ===== src/Cpp/Pointers.antt =====
-- A `thread_specific_ptr` of mcfgthread/cxx11.hpp owns the pointer that it is reset to.
use mcfgthread.Base.{
  ℕ, ◌≡◌, ◌≢◌, refl, ap, ◌∙◌, Option, none, some, false, ◌==◌, if◌then◌else◌, ltb_ℤ, pos, arith,
}
use mcfgthread.RecursiveMutex.{bind}
use mcfgthread.Tls.{Store, Outcome, xset, key_get_destructor}
use mcfgthread.Tls.Larger.{IsStore}
use mcfgthread.Tls.Mapping.{xset-HasSet, HasSet-IsStore}
use mcfgthread.Cpp.{get_pointer, cleaned_up, not_enough_memory, cleanup, reset, release}

reset-outcome :
    (memory : Option ℕ) (key ptr : ℕ) (s : Store) (o : Outcome)
    → xset memory key ptr s ≡ some o
    → o.err ≡ pos 0
    → reset memory key ptr s
      ≡ some (cleaned_up (cleanup o.old_value (o.store.keys key).dtor_opt) o.store)
unfolding reset key_get_destructor
reset-outcome memory key ptr s o e success =
    ap
      (λ x. bind x (λ y. some (
        if ltb_ℤ y.err (pos 0)
        then not_enough_memory y.store
        else cleaned_up (cleanup y.old_value (y.store.keys key).dtor_opt) y.store)))
      e
    ∙ rw success refl

-- In a well-formed store and with memory, a reset of a pointer whose key is not null and not deleted
-- succeeds. It cleans up the old pointer, once, if that is not null and the key has a cleanup function.
-- Then the pointer is the new one, and all other pointers of the thread are what they were. A release
-- gives the new pointer back without cleaning it up, and leaves null.
pub reset-release :
    (memory later : Option ℕ) (key ptr : ℕ) (s : Store)
    → IsStore s
    → key ≢ 0
    → (s.keys key).deleted ≡ false
    → memory ≢ none
    → (s1 : Store) × (s2 : Store) × (reset memory key ptr s
        ≡ some (cleaned_up (cleanup (get_pointer key s) (s1.keys key).dtor_opt) s1))
      × ((k : ℕ) → k ≢ 0 → get_pointer k s1 ≡ (if k == key then ptr else get_pointer k s))
      × (release later key s1 ≡ some (ptr, s2))
      × (get_pointer key s2 ≡ 0)
unfolding get_pointer release
reset-release memory later key ptr s g nonzero kept given =
    let (o, e, r) = xset-HasSet key ptr s g nonzero kept memory (λ _. λ _. given) in
    let g1 : IsStore o.store = HasSet-IsStore key ptr s g nonzero kept o r in
    let kept1 : (o.store.keys key).deleted ≡ false = r.flags key ∙ kept in
    let (p, f, q) =
      xset-HasSet key 0 o.store g1 nonzero kept1 later (λ value. absurd (value refl)) in
    (
      o.store,
      p.store,
      reset-outcome memory key ptr s o e r.success
          ∙ ap (λ x. some (cleaned_up (cleanup x (o.store.keys key).dtor_opt) o.store)) r.old,
      r.values,
      ap (λ x. bind x (λ y. some (y.old_value, y.store))) f
          ∙ ap (λ x. some (x, p.store)) (q.old ∙ r.values key nonzero ∙ ground arith),
      q.values key nonzero ∙ ground arith,
    )
