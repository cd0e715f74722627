-- ===== src/Tests/Semaphores.antt =====
-- Threads over one semaphore, step by step, and the theorems about them.
use mcfgthread.Base.{
  ◌++◌, ◌+◌, ◌<◌, ◌^◌, ◌≡◌, refl, ◌∷◌, none, pos, negsuc, pos_part, neg_part, arith, ℕ_discrete,
}
use mcfgthread.Base.Family.{weigh}
use mcfgthread.Waitable.Holding.{free}
use mcfgthread.Waitable.Machine.{wake}
use mcfgthread.Waitable.Schedule.{waits_for, signals, Run, play}
use mcfgthread.Waitable.Ledger.{waits, pending}
use mcfgthread.Sem.{Sem, Sem-discrete, wait, signal_some, attempt, signal, ops}
use mcfgthread.Sem.Laws.{IsWord, reading, may_signal, may_wait, units_counted}
use mcfgthread.Tests.Actions.{go, times}

abbrev one_unit : Sem
one_unit = record { value = pos 1 }

-- Of two threads that wait for one unit, the first takes it; a signal of two units follows.
abbrev signalled_run : Run ops may_wait may_signal 3 one_unit free
signalled_run = play ops may_wait may_signal 3 one_unit free (
    (0, waits_for wait none) ∷ times 2 (go 0)
    ++ ((1, waits_for wait none) ∷ times 2 (go 1)
        ++ ((2, signals (signal_some (pos 2))) ∷ times 2 (go 2))))

signalled_word : signalled_run.last.word ≡ record { value = pos 1 }
unfolding play ℕ_discrete Sem-discrete attempt signal
signalled_word = refl

signalled_pending : weigh (pending ops reading) 3 signalled_run.last.pc ≡ 1
unfolding play ℕ_discrete Sem-discrete attempt signal weigh
signalled_pending = refl

units_counted_example :
    (pos_part signalled_run.last.word.value < 2 ^ 63)
    × (neg_part signalled_run.last.word.value < 2 ^ 63)
    × (weigh (waits ops reading) 3 signalled_run.last.pc
        ≡ neg_part signalled_run.last.word.value
          + weigh (pending ops reading) 3 signalled_run.last.pc)
units_counted_example = units_counted (omega arith) (omega arith) signalled_run.reach

abbrev two_asleep : Sem
two_asleep = record { value = negsuc 1 }

two_asleep-IsWord : IsWord two_asleep
two_asleep-IsWord = record { above = omega arith; below = omega arith }

abbrev three_units : Sem
three_units = record { value = pos 3 }

signal_asleep : signal (signal_some (pos 5)) free two_asleep ≡ wake three_units 2 (pos 0) free
unfolding signal
signal_asleep = refl
