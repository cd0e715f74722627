-- ===== src/Tests/Events.antt =====
-- Threads over one event, step by step, and the theorems about them.
use mcfgthread.Base.{◌++◌, ◌+◌, ◌<◌, ◌≡◌, refl, ◌∷◌, none, pos, arith, ℕ_discrete}
use mcfgthread.Base.Family.{weigh}
use mcfgthread.Waitable.Holding.{free}
use mcfgthread.Waitable.Machine.{wake}
use mcfgthread.Waitable.Schedule.{waits_for, signals, Run, play}
use mcfgthread.Waitable.Ledger.{waits, pending}
use mcfgthread.Event.{Event, Event-discrete, await_change, set, attempt, signal, ops}
use mcfgthread.Event.Laws.{reading, may_set, may_await, awaiters_counted}
use mcfgthread.Tests.Actions.{go, times}

-- A thread awaits a change of an event that is 1; another one sets it to 2.
abbrev one : Event
one = record { value = 1; reserved_bit = 0; nsleep = 0 }

abbrev set_run : Run ops may_await may_set 2 one free
set_run = play ops may_await may_set 2 one free (
    (0, waits_for (await_change (pos 1)) none) ∷ times 2 (go 0)
    ++ ((1, signals (set (pos 2) 0)) ∷ times 2 (go 1)))

set_word : set_run.last.word ≡ record { value = 2; reserved_bit = 0; nsleep = 0 }
unfolding play ℕ_discrete Event-discrete attempt signal
set_word = refl

set_pending : weigh (pending ops reading) 2 set_run.last.pc ≡ 1
unfolding play ℕ_discrete Event-discrete attempt signal weigh
set_pending = refl

awaiters_counted_example :
    (set_run.last.word.value < 256)
    × (weigh (waits ops reading) 2 set_run.last.pc
        ≡ set_run.last.word.nsleep + weigh (pending ops reading) 2 set_run.last.pc)
awaiters_counted_example = awaiters_counted (omega arith) (omega arith) set_run.reach

abbrev asleep : Event
asleep = record { value = 1; reserved_bit = 0; nsleep = 3 }

abbrev two : Event
two = record { value = 2; reserved_bit = 0; nsleep = 0 }

set_asleep : signal (set (pos 2) 0) free asleep ≡ wake two 3 (pos 0) free
unfolding signal
set_asleep = refl
