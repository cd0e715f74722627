-- ===== src/Tests/Initializers.antt =====
-- Functions that are called once, callbacks at the exit of a thread, and threads of C++.
use mcfgthread.Base.{
  ℕ, ◌+◌, ◌≤◌, ◌<◌, ◌≡◌, ◌≢◌, ◌⊎◌, ◌↔◌, refl, Bool, true, false, none, some, [], ◌∷◌, arith, ℤ, pos,
  ◌*◌,
}
use mcfgthread.DtorQueue.{Queue, empty, capacity, pop, run_dtors}
use mcfgthread.Base.{length}
use mcfgthread.Cpp.AtExit.{Program, signal_element, unlock_element, notify_all_at_thread_exit}
use mcfgthread.Cpp.AtExit.Order.{notify_all_at_thread_exit_lem}
use mcfgthread.Cpp.Starting.{
  World, Step, Reach, begin, next, start, construct, complete, detach, await, invoke, destroy, exit,
  invoking, cancelling, dropping, thrown, woken, zero_status, constructed, exited, finished,
  joining, waited,
}
use mcfgthread.Cpp.Starting.Lifetime.{
  IsOver, held_by_creator, held_by_worker, CreatorSteps, WorkerSteps, thread_lifetime,
  thread_progress, steps_left,
}

abbrev program : Program
program = record { signal_all = 0x100; unlock = 0x200; dso_handle = 0x300 }

notify_all_at_thread_exit_lem_example :
    ((notify_all_at_thread_exit program false false 1 2 empty ≡ none)
      ↔ ((capacity < length empty.block + 2) × (◌≡◌ {A = Bool} false false)))
    × ((after : Queue)
        → notify_all_at_thread_exit program false false 1 2 empty ≡ some after
        → (end : Queue) × (run_dtors (pop 0) (λ e q. q) 4 after
            ≡ some (unlock_element program 2 ∷ signal_element program 1 ∷ [], end)))
notify_all_at_thread_exit_lem_example =
    notify_all_at_thread_exit_lem program false false 1 2 empty 4 (λ e q. q) (omega arith)
      (omega arith) (λ e q. refl) (omega arith)

-- The thread is detached while it runs.
abbrev done : World
done = record {
  creator = finished;
  worker = exited;
  status = constructed;
  tuple = false;
  nref = 0;
  runs = 1;
}

ran : Reach done
ran =
    let built = next begin (construct start refl) in
    let set = next built (complete _ refl) in
    let woke = next set (await _ refl (λ z. cc)) in
    let running = next woke (invoke _ refl) in
    let detached = next running (detach _ refl) in
    let destroyed = next detached (destroy _ refl) in next destroyed (exit _ refl)

thread_lifetime_example :
    (done.runs ≤ 1)
    × (done.worker ≡ invoking → done.tuple ≡ true)
    × ((done.creator ≡ cancelling) ⊎ ((done.creator ≡ dropping) ⊎ (done.creator ≡ thrown))
        → done.runs ≡ 0)
    × (done.worker ≢ woken zero_status)
    × (done.nref ≡ held_by_creator done.creator + held_by_worker done.worker)
    × (IsOver done
        → (done.nref ≡ 0)
          × (done.tuple ≡ false)
          × (((done.creator ≡ finished) × (done.runs ≡ 1))
              ⊎ ((done.creator ≡ thrown) × (done.runs ≡ 0))))
thread_lifetime_example = thread_lifetime ran

thread_progress_example :
    (done.status ≡ zero_status → CreatorSteps done)
    × (done.status ≢ zero_status → (done.worker ≡ exited) ⊎ WorkerSteps done)
    × (done.worker ≡ exited → IsOver done ⊎ CreatorSteps done)
    × (done.creator ≡ joining
        → ((w1 : World) × Step done w1 × (w1.creator ≡ waited))
          ⊎ ((done.worker ≢ exited) × WorkerSteps done))
    × ((w1 : World) → Step done w1 → steps_left w1 < steps_left done)
    × (steps_left done ≤ 9)
thread_progress_example = thread_progress ran

-- The deadline is 10, the clock shows 4, 8 and 12, and every wait times out.
abbrev clock : ℕ → ℤ
clock k = pos (4 + k * 4)
