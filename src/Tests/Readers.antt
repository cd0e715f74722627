-- ===== src/Tests/Readers.antt =====
-- Threads over one shared mutex, step by step, and the theorems about them.
use mcfgthread.Base.{ℕ, ◌++◌, ◌+◌, ◌*◌, ◌≤◌, ◌≡◌, refl, ◌∷◌, none, arith, ℕ_discrete}
use mcfgthread.Base.Family.{weigh}
use mcfgthread.Waitable.Holding.{free}
use mcfgthread.Waitable.Schedule.{waits_for, signals, Run, play}
use mcfgthread.Waitable.Ledger.{waits, pending}
use mcfgthread.SharedMutex.{
  SharedMutex, init, SharedMutex-discrete, max_share, lock_shared, lock_exclusive, unlock,
  drop_share, unlock_word, ops, attempt, role_after, signal,
}
use mcfgthread.SharedMutex.Laws.{may_unlock, reading, IsWord}
use mcfgthread.SharedMutex.Exclusion.{
  may_lock, shares, owns, readers_or_writer, holds_recorded, released_when_free,
}
use mcfgthread.Tests.Actions.{go, times}

-- Threads 0 and 1 read; thread 2 wants to write and goes to sleep.
abbrev reading_run : Run ops may_lock may_unlock 3 init free
reading_run = play ops may_lock may_unlock 3 init free (
    (0, waits_for lock_shared none) ∷ times 2 (go 0)
    ++ ((1, waits_for lock_shared none) ∷ times 2 (go 1)
        ++ ((2, waits_for lock_exclusive none) ∷ times 2 (go 2))))

reading_word : reading_run.last.word ≡ record { nshare = 2; nsleep = 1 }
unfolding play ℕ_discrete SharedMutex-discrete attempt role_after
reading_word = refl

-- Thread 0 writes.
abbrev writing_run : Run ops may_lock may_unlock 2 init free
writing_run =
    play ops may_lock may_unlock 2 init free ((0, waits_for lock_exclusive none) ∷ times 2 (go 0))

writing_word : writing_run.last.word ≡ record { nshare = 0x3FFF; nsleep = 0 }
unfolding play ℕ_discrete SharedMutex-discrete attempt role_after
writing_word = refl

writing_owner : owns (writing_run.last.pc 0) ≡ 1
unfolding play ℕ_discrete SharedMutex-discrete attempt role_after
writing_owner = refl

-- Thread 0 writes, thread 1 goes to sleep, and thread 0 unlocks and has a release to make.
abbrev freed_run : Run ops may_lock may_unlock 2 init free
freed_run = play ops may_lock may_unlock 2 init free (
    (0, waits_for lock_exclusive none) ∷ times 2 (go 0)
    ++ ((1, waits_for lock_shared none) ∷ times 2 (go 1) ++ ((0, signals unlock) ∷ times 2 (go 0))))

freed_shares : weigh shares 2 freed_run.last.pc ≡ 0
unfolding play ℕ_discrete SharedMutex-discrete attempt role_after signal unlock_word drop_share
    weigh
freed_shares = refl

freed_owns : weigh owns 2 freed_run.last.pc ≡ 0
unfolding play ℕ_discrete SharedMutex-discrete attempt role_after signal unlock_word drop_share
    weigh
freed_owns = refl

freed_pending : weigh (pending ops reading) 2 freed_run.last.pc ≡ 1
unfolding play ℕ_discrete SharedMutex-discrete attempt role_after signal unlock_word drop_share
    weigh
freed_pending = refl

readers_or_writer_example : (◌≡◌ {A = ℕ} 0 0) × (shares (writing_run.last.pc 0) ≡ 0)
readers_or_writer_example =
    readers_or_writer (omega arith) writing_run.reach 0 0 (omega arith) (omega arith)
      (omega (arith, writing_owner)) (omega (arith, writing_owner))

holds_recorded_example :
    (reading_run.last.word.nshare
      ≡ weigh shares 3 reading_run.last.pc + 0x3FFF * weigh owns 3 reading_run.last.pc)
    × (weigh shares 3 reading_run.last.pc ≤ max_share)
    × (weigh (waits ops reading) 3 reading_run.last.pc
        ≡ reading_run.last.word.nsleep + weigh (pending ops reading) 3 reading_run.last.pc)
holds_recorded_example = holds_recorded (omega arith) reading_run.reach

released_when_free_example :
    (freed_run.last.word ≡ init)
    × (weigh (waits ops reading) 2 freed_run.last.pc
        ≡ weigh (pending ops reading) 2 freed_run.last.pc)
released_when_free_example =
    released_when_free (omega arith) freed_run.reach freed_shares freed_owns

abbrev two_readers : SharedMutex
two_readers = record { nshare = 2; nsleep = 3 }

abbrev one_reader : SharedMutex
one_reader = record { nshare = 1; nsleep = 3 }

two_readers-IsWord : IsWord two_readers
two_readers-IsWord = record {
  nshare_bits = omega arith;
  nsleep_bits = omega arith;
  awake = λ e. absurd (omega (arith, e));
}
