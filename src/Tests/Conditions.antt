-- ===== src/Tests/Conditions.antt =====
-- Threads over one condition variable, step by step, and the theorems about them.
use mcfgthread.Base.{◌++◌, ◌+◌, ◌≡◌, refl, ◌∷◌, none, arith, ℕ_discrete}
use mcfgthread.Base.Family.{weigh}
use mcfgthread.Waitable.Holding.{free}
use mcfgthread.Waitable.Schedule.{waits_for, signals, Run, play}
use mcfgthread.Waitable.Ledger.{waits, pending}
use mcfgthread.Cond.{Cond, init, Cond-discrete, unlock_and_wait, signal_some, attempt, signal, ops}
use mcfgthread.Cond.Laws.{reading, may_signal, may_wait, cond_waiters_counted}
use mcfgthread.Tests.Actions.{go, times}

-- Threads 0 and 1 wait, and thread 2 signals one of them.
abbrev one_run : Run ops may_wait may_signal 3 init free
one_run = play ops may_wait may_signal 3 init free (
    (0, waits_for unlock_and_wait none) ∷ times 2 (go 0)
    ++ ((1, waits_for unlock_and_wait none) ∷ times 2 (go 1)
        ++ ((2, signals (signal_some 1)) ∷ times 2 (go 2))))

one_word : one_run.last.word ≡ record { reserved_bits = 0; nsleep = 1 }
unfolding play ℕ_discrete Cond-discrete attempt signal
one_word = refl

cond_waiters_counted_example :
    weigh (waits ops reading) 3 one_run.last.pc
    ≡ one_run.last.word.nsleep + weigh (pending ops reading) 3 one_run.last.pc
cond_waiters_counted_example = cond_waiters_counted (omega arith) one_run.reach

abbrev two_asleep : Cond
two_asleep = record { reserved_bits = 0; nsleep = 2 }
