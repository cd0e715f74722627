-- ===== src/Once/Single.antt =====
-- Threads over one flag of mcfgthread/src/once.c: one initialization at a time, none after it is
-- done, and nobody waits for one that has ended.
use mcfgthread.Base.{ℕ, ◌+◌, ◌<◌, ◌^◌, ◌≡◌, refl, Bool, true, ◌==◌, ◌&&◌, arith, ℕ_discrete}
use mcfgthread.Base.Family.{weigh, weigh-ge, weigh-ge_two, weigh_pos}
use mcfgthread.Waitable.Holding.{Holding, free}
use mcfgthread.Waitable.Machine.{Pc}
use mcfgthread.Waitable.System.{System, Step, Reach, start, later}
use mcfgthread.Waitable.Ledger.{waits, pending, of_role, Held}
use mcfgthread.Waitable.Invariant.{Inv, Reach-Inv}
use mcfgthread.Waitable.Progress.{
  AttemptTakes, ReplyReleases, Handover, active, Delivers, Step-Delivers,
}
use mcfgthread.Waitable.Progress
use mcfgthread.Waitable.Stable.{AttemptKeeps, ReplyKeeps, Keeps, Step-P}
use mcfgthread.Waitable.Stable
use mcfgthread.Once.{
  Once, init, Phase, lock_loop, Call, wait, Signal, abort, release, ops, attempt, leave, signal,
}
use mcfgthread.Once.Laws.{IsWord, reading, may_end, laws}

abbrev pub Threads : Type 0
Threads = System Once Phase Holding Call Signal

abbrev pub may_wait : Holding → Call → Bool
may_wait r c = true

abbrev pub Reachable : ℕ → Threads → Type 0
Reachable n = Reach ops may_wait may_end n init free

-- How many initializations the thread at `p` is to do.
abbrev pub initializes : Pc Once Phase Holding Call Signal → ℕ
initializes = of_role ops reading (λ r. r.owns)

Reachable-Inv : {n : ℕ} {s : Threads} → n < 2 ^ 55 → Reachable n s → Inv ops reading may_end n s
Reachable-Inv {n} few r =
    Reach-Inv ops reading may_end n laws (omega arith) r (omega arith) refl refl refl refl refl

-- Fewer than 2 ^ 55 threads wait for one flag, interleaved in any order, where only the thread that
-- was told to do the initialization ends it, by a release or an abort. Then no two threads do the
-- initialization at the same time, and none does it when the flag is ready.
pub single_initializer :
    {n : ℕ} {s : Threads}
    → n < 2 ^ 55
    → Reachable n s
    → (i j : ℕ) → i < n
    → j < n
    → 0 < initializes (s.pc i)
    → 0 < initializes (s.pc j)
    → (i ≡ j) × (s.word.ready ≡ 0)
single_initializer {n} {s} few r i j i_in j_in a b =
    let inv = Reachable-Inv few r in
    let one = weigh-ge initializes s.pc n i i_in in
    (
      elim (ℕ_discrete i j) [
        | yes same ↦ same
        | no apart ↦ absurd (
            omega (
              arith,
              weigh-ge_two initializes s.pc n i j i_in j_in apart,
              inv.owned,
              inv.good.one_state,
            ))
      ],
      omega (arith, one, inv.owned, inv.good.one_state),
    )

-- Fewer than 2 ^ 55 threads wait for one flag, interleaved in any order, where only the thread that
-- was told to do the initialization ends it. Then the flag is locked exactly while a thread does the initialization, and
-- the threads in the wait are those that the flag counts and those for whom a release is due.
pub waiters_counted :
    {n : ℕ} {s : Threads}
    → n < 2 ^ 55
    → Reachable n s
    → (weigh initializes n s.pc ≡ s.word.locked)
      × (weigh (waits ops reading) n s.pc ≡ s.word.nsleep + weigh (pending ops reading) n s.pc)
waiters_counted few r = let inv = Reachable-Inv few r in (inv.owned, inv.counted)

abbrev IsReady : Once → Type 0
IsReady w = w ≡ record { ready = 1; locked = 0; nsleep = 0 }

attempt-Keeps :
    (c : Call) (l : Phase) (z : Bool) (old : Once)
    → IsWord old
    → IsReady old
    → AttemptKeeps ops reading may_end IsReady (attempt c l z old)
unfolding attempt
attempt-Keeps wait lock_loop z old g e = rw e tt

leave-Keeps :
    (old : Once)
    → IsWord old
    → IsReady old
    → Stable.LeaveKeeps ops reading may_end IsReady (leave old)
unfolding leave
leave-Keeps old g e = rw e tt

signal-Keeps :
    (s : Signal) (r : Holding) (old : Once)
    → IsWord old
    → may_end r s ≡ true
    → Held ops reading old r
    → IsReady old
    → ReplyKeeps ops reading may_end IsReady (signal s r old)
signal-Keeps s r old g m h e = absurd (ground arith)

keeps_IsReady : Keeps ops reading may_end IsReady
keeps_IsReady = record {
  attempt_keeps = attempt-Keeps;
  leave_keeps = leave-Keeps;
  reply_keeps = signal-Keeps;
}

-- Fewer than 2 ^ 55 threads wait for one flag, interleaved in any order, where only the thread that
-- was told to do the initialization ends it. Then, whatever step is taken, a flag that is ready stays ready, unlocked and
-- with no sleeping thread: there is no second initialization.
pub ready_stays :
    {n : ℕ} {s t : Threads}
    → n < 2 ^ 55
    → Reachable n s
    → Step ops may_wait may_end n s t
    → s.word.ready ≡ 1
    → t.word ≡ record { ready = 1; locked = 0; nsleep = 0 }
ready_stays few r st e =
    let inv = Reachable-Inv few r in
    Step-P ops reading may_end IsReady keeps_IsReady st inv
      (ground (arith, inv.good.one_state, inv.good.awake e))

abbrev pub is_free : Once → Bool
is_free w = (w.ready == 0) && (w.locked == 0)

attempt-Takes :
    (c : Call) (l : Phase) (z : Bool) (old : Once)
    → AttemptTakes ops reading is_free old (attempt c l z old)
unfolding attempt
attempt-Takes wait lock_loop z old = ground arith

leave-Free : (old : Once) → IsWord old → Progress.LeaveKeeps ops reading is_free old (leave old)
unfolding leave
leave-Free old g = ground arith

signal-Releases :
    (s : Signal) (r : Holding) (old : Once)
    → IsWord old
    → ReplyReleases ops reading is_free (signal s r old)
unfolding signal
signal-Releases abort r old g = ground arith
signal-Releases release r old g = ground arith

handover : Handover ops reading is_free
handover = record {
  restarts = refl;
  attempt_takes = attempt-Takes;
  leave_keeps = leave-Free;
  reply_releases = signal-Releases;
}

delivers : {n : ℕ} {s : Threads} → n < 2 ^ 55 → Reachable n s → Delivers ops reading is_free n s
delivers few start owed = absurd (omega (arith, owed.1))
delivers few (later r st) owed =
    Step-Delivers ops reading is_free handover st (Reachable-Inv few r).good (delivers few r) owed

-- Fewer than 2 ^ 55 threads wait for one flag, interleaved in any order, where only the thread that
-- was told to do the initialization ends it. After an abort no sleeping thread is forgotten: while the flag is neither ready nor locked and counts a sleeping thread, some thread
-- owes a release, or has been woken, or goes on to look at the flag, or is about to lock it.
pub retried_after_abort :
    {n : ℕ} {s : Threads}
    → n < 2 ^ 55
    → Reachable n s
    → s.word.ready ≡ 0
    → s.word.locked ≡ 0
    → 0 < s.word.nsleep
    → (i : ℕ) × (i < n) × (0 < active ops reading is_free (s.pc i))
retried_after_abort {n} {s} few r unready unlocked asleep =
    weigh_pos (active ops reading is_free) s.pc n (delivers few r (ground arith, asleep))
