-- ===== src/Mutex/Wakeup.antt =====
-- No wake-up of mcfgthread/src/mutex.c is lost.
use mcfgthread.Base.{ℕ, ◌<◌, ◌^◌, ◌≡◌, refl, Bool, ◌==◌, arith}
use mcfgthread.Base.Family.{weigh_pos}
use mcfgthread.Waitable.Holding.{Holding}
use mcfgthread.Waitable.System.{start, later}
use mcfgthread.Waitable.Progress.{
  AttemptTakes, LeaveKeeps, ReplyReleases, Handover, active, Delivers, Step-Delivers,
}
use mcfgthread.Mutex.{
  Mutex, Phase, lock_loop, spin, spin_again, give_up, Call, lock, Signal, unlock, ops, attempt,
  leave, signal, unlock_word,
}
use mcfgthread.Mutex.Laws.{IsWord, reading}
use mcfgthread.Mutex.Exclusion.{Threads, Reachable, Reachable-Inv}

abbrev pub is_free : Mutex → Bool
is_free m = m.locked == 0

attempt-Takes :
    (c : Call) (l : Phase) (z : Bool) (old : Mutex)
    → AttemptTakes ops reading is_free old (attempt c l z old)
unfolding attempt
attempt-Takes lock lock_loop z old = ground arith
attempt-Takes lock (spin b m) z old = tt
attempt-Takes lock (spin_again b m) z old = ground arith
attempt-Takes lock (give_up m) z old = ground arith

leave-Keeps : (old : Mutex) → IsWord old → LeaveKeeps ops reading is_free old (leave old)
unfolding leave
leave-Keeps old g = ground arith

signal-Releases :
    (s : Signal) (r : Holding) (old : Mutex)
    → IsWord old
    → ReplyReleases ops reading is_free (signal s r old)
unfolding signal unlock_word
signal-Releases unlock r old g = ground arith

handover : Handover ops reading is_free
handover = record {
  restarts = refl;
  attempt_takes = attempt-Takes;
  leave_keeps = leave-Keeps;
  reply_releases = signal-Releases;
}

delivers : {n : ℕ} {s : Threads} → n < 2 ^ 55 → Reachable n s → Delivers ops reading is_free n s
delivers few start owed = absurd (omega (arith, owed.1))
delivers few (later r st) owed =
    Step-Delivers ops reading is_free handover st (Reachable-Inv few r).good (delivers few r) owed

-- Fewer than 2 ^ 55 threads lock and unlock one mutex, interleaved in any order, where only an
-- owner unlocks. Whenever the mutex is unlocked and counts a sleeping thread, some thread owes a
-- release, or has been woken, or goes on to look at the mutex again, or is about to lock it: the
-- sleeping threads are not forgotten.
pub no_lost_wakeup :
    {n : ℕ} {s : Threads}
    → n < 2 ^ 55
    → Reachable n s
    → s.word.locked ≡ 0
    → 0 < s.word.nsleep
    → (i : ℕ) × (i < n) × (0 < active ops reading is_free (s.pc i))
no_lost_wakeup {n} {s} few r unlocked asleep =
    weigh_pos (active ops reading is_free) s.pc n (delivers few r (ground arith, asleep))
