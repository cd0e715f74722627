-- ===== src/Once/Laws.antt =====
-- The operations of mcfgthread/src/once.c keep the books.
use mcfgthread.Base.{◌+◌, ◌-◌, ◌≤◌, ◌<◌, ◌^◌, ◌≡◌, Bool, true, ltb, ℤ, arith}
use mcfgthread.Waitable.Holding.{Holding}
use mcfgthread.Waitable.Machine.{done}
use mcfgthread.Waitable.Ledger.{Reading, Laws, AttemptIsSound, LeaveIsSound, ReplyIsSound, Held}
use mcfgthread.Once.{
  Once, Call, wait, Signal, abort, release, ops, Phase, lock_loop, attempt, leave, signal,
  role_after,
}

-- The bit-fields of a word. A flag is unlocked, locked or ready, and nobody sleeps on a ready one.
pub record IsWord (w : Once) : Type 0 where
  pub one_state : w.ready + w.locked ≤ 1
  pub awake : w.ready ≡ 1 → w.nsleep ≡ 0
  pub nsleep_bits : w.nsleep < 2 ^ 55

abbrev pub reading : Reading Once Holding
reading = record {
  Good = IsWord;
  sleepers = λ w. w.nsleep;
  limit = 2 ^ 55 - 1;
  shared_by = λ _. 0;
  owned_by = λ w. w.locked;
  shares = λ _. 0;
  owns = λ r. r.owns;
}

-- Only the thread that does the initialization ends it.
abbrev pub may_end : Holding → Signal → Bool
may_end r s = ltb 0 r.owns

attempt-IsSound :
    (c : Call) (l : Phase) (z : Bool) (r : Holding) (old : Once)
    → IsWord old
    → old.nsleep < 2 ^ 55 - 1
    → AttemptIsSound ops reading c r old (attempt c l z old)
unfolding attempt role_after
attempt-IsSound wait lock_loop z r old g few = ground arith

done-role :
    (c : Call) (l : Phase) (z : Bool) (r : Holding) (old : Once) (x : ℤ)
    → ops.attempt c l z old ≡ done x
    → (reading.shares (role_after c x r) ≡ reading.shares r)
      × (reading.owns (role_after c x r) ≡ reading.owns r)
unfolding attempt role_after
done-role wait lock_loop z r old x q = ground arith

leave-IsSound :
    (c : Call) (r : Holding) (old : Once)
    → IsWord old
    → LeaveIsSound ops reading c r old (leave old)
unfolding leave role_after
leave-IsSound wait r old g = ground arith

signal-IsSound :
    (s : Signal) (r : Holding) (old : Once)
    → IsWord old
    → may_end r s ≡ true
    → Held ops reading old r
    → ReplyIsSound ops reading r old (signal s r old)
unfolding signal
signal-IsSound abort r old g m h = ground arith
signal-IsSound release r old g m h = ground arith

pub laws : Laws ops reading may_end
laws = record {
  attempt_is_sound = attempt-IsSound;
  done_keeps_role = done-role;
  leave_is_sound = leave-IsSound;
  resume_keeps_role = λ c r e. cc;
  signal_is_sound = signal-IsSound;
}
