-- ===== src/Cxa/Finalizing.antt =====
-- The callbacks that are called at the end, and their order.
use mathlib.Core.List.{append-nil}
use mcfgthread.Base.{ℕ, ◌<◌, ◌≡◌, refl, ap, ◌∙◌, some, ◌++◌, length}
use mcfgthread.DtorQueue.{Element, Queue, kept, run_dtors}
use mcfgthread.DtorQueue.Laws.{to_list, pop-pop_list, remove-kept}
use mcfgthread.DtorQueue.Running.{matched, matched_all, run_dtors-calls}
use mcfgthread.Cxa.{
  Process, pop_thread, pop_exit, pop_quick_exit, remove_quick_exit, cxa_finalize, quick_exit,
}

-- A callback that registers nothing and takes nothing off.
abbrev pub IsQuiet : (Element → Process → Process) → Type 0
IsQuiet invoke = (e : Element) (p : Process) → invoke e p ≡ p

abbrev beside_thread : Process → Queue × Queue
beside_thread p = (p.exit_queue, p.quick_exit_queue)

abbrev beside_exit : Process → Queue × Queue
beside_exit p = (p.thread_queue, p.quick_exit_queue)

abbrev beside_quick_exit : Process → Queue × Queue
beside_quick_exit p = (p.thread_queue, p.exit_queue)

thread_calls :
    (invoke : Element → Process → Process) (fuel dso : ℕ) (p : Process)
    → IsQuiet invoke
    → length (matched dso (to_list p.thread_queue)) < fuel
    → (p' : Process) × (run_dtors (pop_thread dso) invoke fuel p
        ≡ some (matched dso (to_list p.thread_queue), p'))
      × (to_list p'.thread_queue ≡ kept dso (to_list p.thread_queue))
      × (beside_thread p' ≡ beside_thread p)
unfolding pop_thread
thread_calls invoke fuel dso p quiet h =
    run_dtors-calls (λ x. to_list x.thread_queue) beside_thread dso (pop_thread dso) invoke quiet
      (λ x. pop-pop_list dso x.thread_queue) (λ x. refl) fuel p h

exit_calls :
    (invoke : Element → Process → Process) (fuel dso : ℕ) (p : Process)
    → IsQuiet invoke
    → length (matched dso (to_list p.exit_queue)) < fuel
    → (p' : Process) × (run_dtors (pop_exit dso) invoke fuel p
        ≡ some (matched dso (to_list p.exit_queue), p'))
      × (to_list p'.exit_queue ≡ kept dso (to_list p.exit_queue))
      × (beside_exit p' ≡ beside_exit p)
unfolding pop_exit
exit_calls invoke fuel dso p quiet h =
    run_dtors-calls (λ x. to_list x.exit_queue) beside_exit dso (pop_exit dso) invoke quiet
      (λ x. pop-pop_list dso x.exit_queue) (λ x. refl) fuel p h

-- Where the callbacks leave the queues alone and there is fuel for one step more than a queue has
-- matching elements, `__MCF_cxa_finalize` calls exactly the matching callbacks of the thread and then
-- those of the process, each the newest first; the other callbacks stay in their queues, and no
-- matching quick exit callback stays.
pub cxa_finalize_lem :
    (invoke : Element → Process → Process) (fuel dso : ℕ) (p : Process)
    → IsQuiet invoke
    → length (matched dso (to_list p.thread_queue)) < fuel
    → length (matched dso (to_list p.exit_queue)) < fuel
    → (p' : Process) × (cxa_finalize invoke fuel dso p
        ≡ some (matched dso (to_list p.thread_queue) ++ matched dso (to_list p.exit_queue), p'))
      × (to_list p'.thread_queue ≡ kept dso (to_list p.thread_queue))
      × (to_list p'.exit_queue ≡ kept dso (to_list p.exit_queue))
      × (to_list p'.quick_exit_queue ≡ kept dso (to_list p.quick_exit_queue))
unfolding cxa_finalize remove_quick_exit
cxa_finalize_lem invoke fuel dso p quiet h k =
    let t = thread_calls invoke fuel dso p quiet h in
    let same : t.0.exit_queue ≡ p.exit_queue = ap (λ x. x.0) t.3 in
    let x = exit_calls invoke fuel dso t.0 quiet (rw same k) in
    (
      remove_quick_exit dso x.0,
      rw (t.1, x.1, same) refl
          ∙ ap (λ l. some (matched dso (to_list p.thread_queue) ++ l, remove_quick_exit dso x.0))
              (append-nil (matched dso (to_list p.exit_queue))),
      ap (λ y. to_list y.0) x.3 ∙ t.2,
      x.2 ∙ ap (λ y. kept dso (to_list y)) same,
      (remove-kept dso x.0.quick_exit_queue).0
          ∙ ap (λ y. kept dso (to_list y.1)) x.3
          ∙ ap (λ y. kept dso (to_list y.1)) t.3,
    )

-- Where the callbacks leave the queues alone and there is fuel for one step more than the queue has
-- elements, `__MCF_quick_exit` calls every quick exit callback, the newest first, and no other.
pub quick_exit_lem :
    (invoke : Element → Process → Process) (fuel : ℕ) (p : Process)
    → IsQuiet invoke
    → length (to_list p.quick_exit_queue) < fuel
    → (p' : Process) × (quick_exit invoke fuel p ≡ some (to_list p.quick_exit_queue, p'))
      × (to_list p'.quick_exit_queue ≡ kept 0 (to_list p.quick_exit_queue))
      × (p'.thread_queue ≡ p.thread_queue)
      × (p'.exit_queue ≡ p.exit_queue)
unfolding quick_exit pop_quick_exit
quick_exit_lem invoke fuel p quiet h =
    let all = matched_all (to_list p.quick_exit_queue) in
    let r =
      run_dtors-calls (λ x. to_list x.quick_exit_queue) beside_quick_exit 0 (pop_quick_exit 0)
        invoke quiet (λ x. pop-pop_list 0 x.quick_exit_queue) (λ x. refl) fuel p (rw all h) in
    (r.0, r.1 ∙ ap (λ l. some (l, r.0)) all, r.2, ap (λ y. y.0) r.3, ap (λ y. y.1) r.3)
