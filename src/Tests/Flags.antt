-- ===== src/Tests/Flags.antt =====
-- Threads over one once-initialization flag, step by step, and the theorems about them.
use mcfgthread.Base.{ℕ, ◌++◌, ◌≡◌, refl, List, ◌∷◌, none, arith, ℕ_discrete}
use mcfgthread.Waitable.Holding.{free}
use mcfgthread.Waitable.Schedule.{Action, waits_for, signals, Run, play}
use mcfgthread.Once.{
  init, Once-discrete, Call, wait, Signal, abort, release, abort_word, release_word, ops, attempt,
  role_after, signal,
}
use mcfgthread.Once.Laws.{may_end}
use mcfgthread.Once.Single.{may_wait, initializes, single_initializer}
use mcfgthread.Tests.Actions.{go, times}

-- Thread 0 is told to do the initialization; thread 1 goes to sleep.
abbrev begun : List (ℕ × Action Call Signal)
begun = (0, waits_for wait none) ∷ times 2 (go 0) ++ ((1, waits_for wait none) ∷ times 2 (go 1))

abbrev begun_run : Run ops may_wait may_end 2 init free
begun_run = play ops may_wait may_end 2 init free begun

-- Thread 2 sleeps as well; thread 0 aborts and has a release to make.
abbrev aborted_run : Run ops may_wait may_end 3 init free
aborted_run =
    play ops may_wait may_end 3 init free (
      begun ++ ((2, waits_for wait none) ∷ times 2 (go 2) ++ ((0, signals abort) ∷ times 2 (go 0))))

-- Thread 0 has done the initialization, and has a release to make.
abbrev ready_run : Run ops may_wait may_end 2 init free
ready_run = play ops may_wait may_end 2 init free (begun ++ ((0, signals release) ∷ times 2 (go 0)))

begun_word : begun_run.last.word ≡ record { ready = 0; locked = 1; nsleep = 1 }
unfolding play ℕ_discrete Once-discrete attempt role_after
begun_word = refl

begun_owner : initializes (begun_run.last.pc 0) ≡ 1
unfolding play ℕ_discrete Once-discrete attempt role_after
begun_owner = refl

aborted_word : aborted_run.last.word ≡ record { ready = 0; locked = 0; nsleep = 1 }
unfolding play ℕ_discrete Once-discrete attempt role_after signal abort_word
aborted_word = refl

ready_word : ready_run.last.word ≡ record { ready = 1; locked = 0; nsleep = 0 }
unfolding play ℕ_discrete Once-discrete attempt role_after signal release_word
ready_word = refl

single_initializer_example : (◌≡◌ {A = ℕ} 0 0) × (begun_run.last.word.ready ≡ 0)
single_initializer_example =
    single_initializer (omega arith) begun_run.reach 0 0 (omega arith) (omega arith)
      (omega (arith, begun_owner)) (omega (arith, begun_owner))
