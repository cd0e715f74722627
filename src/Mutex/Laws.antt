-- ===== src/Mutex/Laws.antt =====
-- The operations of mcfgthread/src/mutex.c keep the books.
use mcfgthread.Base.{◌-◌, ◌≤◌, ◌<◌, ◌^◌, ◌≡◌, Bool, true, ltb, ℤ, arith}
use mcfgthread.Waitable.Holding.{Holding}
use mcfgthread.Waitable.Machine.{done}
use mcfgthread.Waitable.Ledger.{Reading, Laws, AttemptIsSound, LeaveIsSound, ReplyIsSound, Held}
use mcfgthread.Mutex.{
  Mutex, Call, lock, Signal, unlock, ops, lock_loop, spin, spin_again, give_up, Phase, attempt,
  leave, signal, role_after, unlock_word,
}

-- The bit-fields of a word.
pub record IsWord (m : Mutex) : Type 0 where
  pub locked_bit : m.locked ≤ 1
  pub mask_bits : m.sp_mask < 16
  pub nfail_bits : m.sp_nfail < 16
  pub nsleep_bits : m.nsleep < 2 ^ 55

abbrev pub reading : Reading Mutex Holding
reading = record {
  Good = IsWord;
  sleepers = λ m. m.nsleep;
  limit = 2 ^ 55 - 1;
  shared_by = λ _. 0;
  owned_by = λ m. m.locked;
  shares = λ _. 0;
  owns = λ r. r.owns;
}

-- Only a thread that owns the mutex unlocks it.
abbrev pub may_unlock : Holding → Signal → Bool
may_unlock r unlock = ltb 0 r.owns

attempt-IsSound :
    (c : Call) (l : Phase) (z : Bool) (r : Holding) (old : Mutex)
    → IsWord old
    → old.nsleep < 2 ^ 55 - 1
    → AttemptIsSound ops reading c r old (attempt c l z old)
unfolding attempt role_after
attempt-IsSound lock lock_loop z r old g few = ground arith
attempt-IsSound lock (spin b m) z r old g few = tt
attempt-IsSound lock (spin_again b m) z r old g few = ground arith
attempt-IsSound lock (give_up m) z r old g few = ground arith

done-role :
    (c : Call) (l : Phase) (z : Bool) (r : Holding) (old : Mutex) (x : ℤ)
    → ops.attempt c l z old ≡ done x
    → (reading.shares (role_after c x r) ≡ reading.shares r)
      × (reading.owns (role_after c x r) ≡ reading.owns r)
unfolding attempt role_after
done-role lock lock_loop z r old x q = ground arith
done-role lock (spin b m) z r old x q = cc
done-role lock (spin_again b m) z r old x q = ground arith
done-role lock (give_up m) z r old x q = ground arith

leave-IsSound :
    (c : Call) (r : Holding) (old : Mutex)
    → IsWord old
    → LeaveIsSound ops reading c r old (leave old)
unfolding leave role_after
leave-IsSound lock r old g = ground arith

signal-IsSound :
    (s : Signal) (r : Holding) (old : Mutex)
    → IsWord old
    → may_unlock r s ≡ true
    → Held ops reading old r
    → ReplyIsSound ops reading r old (signal s r old)
unfolding signal unlock_word
signal-IsSound unlock r old g m h = ground arith

pub laws : Laws ops reading may_unlock
laws = record {
  attempt_is_sound = attempt-IsSound;
  done_keeps_role = done-role;
  leave_is_sound = leave-IsSound;
  resume_keeps_role = λ c r e. cc;
  signal_is_sound = signal-IsSound;
}
