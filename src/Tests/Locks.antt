-- ===== src/Tests/Locks.antt =====
-- Two threads over one mutex, step by step, and the theorems about them.
use mcfgthread.Base.{ℕ, ◌++◌, ◌+◌, ◌<◌, ◌≡◌, refl, ap, List, ◌∷◌, none, arith, ℕ_discrete}
use mcfgthread.Base.Family.{weigh}
use mcfgthread.Waitable.Holding.{free}
use mcfgthread.Waitable.Schedule.{Action, waits_for, signals, meets, Run, play}
use mcfgthread.Waitable.Progress.{active}
use mcfgthread.Mutex.{
  init, Mutex-discrete, Call, lock, Signal, unlock, ops, poll, attempt, role_after, signal,
}
use mcfgthread.Mutex.Laws.{may_unlock, reading}
use mcfgthread.Mutex.Exclusion.{owns, may_lock, mutual_exclusion, sleepers_counted}
use mcfgthread.Mutex.Wakeup.{is_free, no_lost_wakeup}
use mcfgthread.Waitable.Ledger.{waits, pending}
use mcfgthread.Tests.Actions.{go, times}

-- Thread 0 owns the mutex; threads 1 and 2 spin in vain and go to sleep.
abbrev to_sleep : List (ℕ × Action Call Signal)
to_sleep =
    (0, waits_for lock none) ∷ times 2 (go 0)
    ++ ((1, waits_for lock none) ∷ times 170 (go 1)
        ++ ((2, waits_for lock none) ∷ times 170 (go 2)))

abbrev asleep_run : Run ops may_lock may_unlock 3 init free
asleep_run = play ops may_lock may_unlock 3 init free to_sleep

-- Thread 0 has unlocked the mutex, and has a release to make.
abbrev unlocked_run : Run ops may_lock may_unlock 3 init free
unlocked_run =
    play ops may_lock may_unlock 3 init free (to_sleep ++ ((0, signals unlock) ∷ times 2 (go 0)))

-- Thread 1 is woken and takes the mutex.
abbrev passed_run : Run ops may_lock may_unlock 3 init free
passed_run =
    play ops may_lock may_unlock 3 init free
      (to_sleep ++ ((0, signals unlock) ∷ times 2 (go 0) ++ ((1, meets 0) ∷ times 3 (go 1))))

asleep_word : asleep_run.last.word ≡ record { locked = 1; sp_mask = 0; sp_nfail = 2; nsleep = 2 }
unfolding play ℕ_discrete Mutex-discrete poll attempt role_after
asleep_word = refl

unlocked_word :
    unlocked_run.last.word ≡ record { locked = 0; sp_mask = 0; sp_nfail = 2; nsleep = 1 }
unfolding play ℕ_discrete Mutex-discrete poll attempt role_after signal
unlocked_word = refl

passed_word : passed_run.last.word ≡ record { locked = 1; sp_mask = 0; sp_nfail = 1; nsleep = 1 }
unfolding play ℕ_discrete Mutex-discrete poll attempt role_after signal
passed_word = refl

passed_owner : owns (passed_run.last.pc 1) ≡ 1
unfolding play ℕ_discrete Mutex-discrete poll attempt role_after signal
passed_owner = refl

mutual_exclusion_example : ◌≡◌ {A = ℕ} 1 1
mutual_exclusion_example =
    mutual_exclusion (omega arith) passed_run.reach 1 1 (omega arith) (omega arith)
      (omega (arith, passed_owner)) (omega (arith, passed_owner))

sleepers_counted_example :
    (weigh owns 3 unlocked_run.last.pc ≡ unlocked_run.last.word.locked)
    × (weigh (waits ops reading) 3 unlocked_run.last.pc
        ≡ unlocked_run.last.word.nsleep + weigh (pending ops reading) 3 unlocked_run.last.pc)
sleepers_counted_example = sleepers_counted (omega arith) unlocked_run.reach

no_lost_wakeup_example :
    (i : ℕ) × (i < 3) × (0 < active ops reading is_free (unlocked_run.last.pc i))
no_lost_wakeup_example =
    no_lost_wakeup (omega arith) unlocked_run.reach (ap (λ m. m.locked) unlocked_word)
      (rw unlocked_word (omega arith))
