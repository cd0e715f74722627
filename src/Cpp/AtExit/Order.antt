-- ===== src/Cpp/AtExit/Order.antt =====
-- The order of the callbacks of `notify_all_at_thread_exit`: mcfgthread/cxx11.hpp, with
-- mcfgthread/src/dtor_queue.c.
use mcfgthread.Base.{
  ℕ, zero, suc, ◌+◌, ◌≤◌, ◌<◌, ◌≡◌, ◌≢◌, ◌↔◌, inl, inr, refl, sym, ap, ◌∙◌, Bool, true, false, none,
  some, ◌∷◌, length, ℤ, pos, negsuc, eqb_ℤ, Bool-cases, arith,
}
use mcfgthread.DtorQueue.{Element, Queue, capacity, reserve_and_push, push, pop, run_dtors}
use mcfgthread.DtorQueue.Laws.{to_list}
use mcfgthread.DtorQueue.Pushing.{IsQueue, pushed, reserve_and_push_lem}
use mcfgthread.DtorQueue.Running.{matched_all, run_dtors_lem}
use mcfgthread.Cpp.AtExit.{Program, signal_element, unlock_element, notify_all_at_thread_exit}

-- The functions are functions.
pub record IsProgram (p : Program) : Type 0 where
  pub signal_all_valid : p.signal_all ≢ 0
  pub unlock_valid : p.unlock ≢ 0

-- A push that finds room needs no memory.
roomy_result :
    (memory : Bool) (e : Element) (q : Queue)
    → e.dtor ≢ 0
    → length q.block + 1 ≤ capacity
    → (reserve_and_push memory 1 (some e) q).0 ≡ pos 0
unfolding reserve_and_push
roomy_result memory e q valid room = ground arith

roomy_push :
    (memory : Bool) (e : Element) (q : Queue)
    → IsQueue q
    → e.dtor ≢ 0
    → length q.block + 1 ≤ capacity
    → to_list (push memory (some e) q).1 ≡ e ∷ to_list q
roomy_push memory e q is valid room =
    let all = reserve_and_push_lem memory 1 e q is in
    let result = roomy_result memory e q valid room in
    unfold push in all.0 ∙ ap (λ r. pushed r e (to_list q)) result

zero_result : (z : ℤ) → eqb_ℤ z (pos 0) ≡ true → z ≡ pos 0
zero_result (pos zero) e = refl
zero_result (pos (suc n)) e = absurd (ground (arith, e))
zero_result (negsuc n) e = absurd (ground (arith, e))

notify-throws :
    (p : Program) (memory memory2 : Bool) (cnd mtx : ℕ) (q : Queue)
    → IsProgram p
    → length q.block ≤ capacity
    → (notify_all_at_thread_exit p memory memory2 cnd mtx q ≡ none)
      ↔ ((capacity < length q.block + 2) × (memory ≡ false))
unfolding notify_all_at_thread_exit reserve_and_push
notify-throws p memory memory2 cnd mtx q is fits =
    (λ e. ground (arith, e, is.signal_all_valid), λ h. ground (arith, is.signal_all_valid))

-- The queue after the two pushes, if the first one succeeds.
notify-to_list :
    (p : Program) (memory memory2 : Bool) (cnd mtx : ℕ) (q after : Queue)
    → IsProgram p
    → IsQueue q
    → notify_all_at_thread_exit p memory memory2 cnd mtx q ≡ some after
    → to_list after ≡ unlock_element p mtx ∷ signal_element p cnd ∷ to_list q
unfolding notify_all_at_thread_exit
notify-to_list p memory memory2 cnd mtx q after is queue e =
    let first = reserve_and_push_lem memory 2 (signal_element p cnd) q queue in
    let r = reserve_and_push memory 2 (some (signal_element p cnd)) q in
    elim (Bool-cases (eqb_ℤ r.0 (pos 0))) [
      | inr refused ↦ absurd (ground (arith, e, refused))
      | inl accepted ↦
          let same : (push memory2 (some (unlock_element p mtx)) r.1).1 ≡ after =
            ground (arith, e, accepted) in
          let room : length r.1.block + 1 ≤ capacity = ground (arith, first.2, accepted) in
          ap to_list (sym same)
          ∙ roomy_push memory2 (unlock_element p mtx) r.1 first.1 is.unlock_valid room
          ∙ ap (λ l. unlock_element p mtx ∷ l)
              (first.0
                ∙ ap (λ z. pushed z (signal_element p cnd) (to_list q)) (zero_result r.0 accepted))
    ]

-- Where the callbacks leave the queue alone and there is fuel for one step more than there are
-- callbacks in the end: after the call, if it does not throw, the exit of the thread first unlocks the
-- mutex, then signals the condition variable, and then calls the callbacks that were registered
-- before; the second push never fails. The call throws exactly if there is neither room for two
-- callbacks in the current block nor memory.
pub notify_all_at_thread_exit_lem :
    (p : Program) (memory memory2 : Bool) (cnd mtx : ℕ) (q : Queue) (fuel : ℕ)
    (invoke : Element → Queue → Queue)
    → IsProgram p
    → IsQueue q
    → ((e : Element) (q' : Queue) → invoke e q' ≡ q')
    → length (to_list q) + 2 < fuel
    → ((notify_all_at_thread_exit p memory memory2 cnd mtx q ≡ none)
        ↔ ((capacity < length q.block + 2) × (memory ≡ false)))
      × ((after : Queue)
          → notify_all_at_thread_exit p memory memory2 cnd mtx q ≡ some after
          → (end : Queue) × (run_dtors (pop 0) invoke fuel after
              ≡ some (unlock_element p mtx ∷ signal_element p cnd ∷ to_list q, end)))
notify_all_at_thread_exit_lem p memory memory2 cnd mtx q fuel invoke is queue quiet enough = (
  notify-throws p memory memory2 cnd mtx q is queue.0,
  λ after e.
      let listed = notify-to_list p memory memory2 cnd mtx q after is queue e in
      let all = matched_all (to_list after) ∙ listed in
      let (end, ran, left) = run_dtors_lem invoke fuel 0 after quiet (rw all (omega arith)) in
      (end, ran ∙ ap (λ l. some (l, end)) all),
)
