-- ===== src/Cond/Laws.antt =====
-- The operations of mcfgthread/src/cond.c keep the books.
use mcfgthread.Base.{ℕ, ◌+◌, ◌-◌, ◌<◌, ◌^◌, ◌≡◌, ◌↔◌, refl, Bool, true, ℤ, pos, arith, some}
use mcfgthread.Base.Family.{weigh}
use mcfgthread.Waitable.Holding.{Holding, free}
use mcfgthread.Waitable.Machine.{Reply, refuse, wake}
use mcfgthread.Waitable.System.{System, Reach}
use mcfgthread.Waitable.Ledger.{
  Reading, Laws, AttemptIsSound, LeaveIsSound, ReplyIsSound, Held, waits, pending,
}
use mcfgthread.Waitable.Invariant.{Reach-Inv}
use mcfgthread.Cond.{
  Cond, init, Call, unlock_and_wait, Signal, signal_some, signal_all, ops, Phase, allocate, attempt,
  leave, signal, signal_fast, minz,
}

-- The bit-fields of a word.
pub record IsWord (w : Cond) : Type 0 where
  pub unused : w.reserved_bits ≡ 0
  pub nsleep_bits : w.nsleep < 2 ^ 55

abbrev pub reading : Reading Cond Holding
reading = record {
  Good = IsWord;
  sleepers = λ w. w.nsleep;
  limit = 2 ^ 55 - 1;
  shared_by = λ _. 0;
  owned_by = λ _. 0;
  shares = λ _. 0;
  owns = λ _. 0;
}

abbrev pub may_signal : Holding → Signal → Bool
may_signal r s = true

attempt-IsSound :
    (c : Call) (l : Phase) (z : Bool) (r : Holding) (old : Cond)
    → IsWord old
    → old.nsleep < 2 ^ 55 - 1
    → AttemptIsSound ops reading c r old (attempt c l z old)
unfolding attempt
attempt-IsSound unlock_and_wait allocate z r old g few = ground arith

leave-IsSound :
    (c : Call) (r : Holding) (old : Cond)
    → IsWord old
    → LeaveIsSound ops reading c r old (leave old)
unfolding leave
leave-IsSound c r old g = ground arith

signal-IsSound :
    (s : Signal) (r : Holding) (old : Cond)
    → IsWord old
    → may_signal r s ≡ true
    → Held ops reading old r
    → ReplyIsSound ops reading r old (signal s r old)
unfolding signal
signal-IsSound (signal_some limit) r old g m h = ground arith

pub laws : Laws ops reading may_signal
laws = record {
  attempt_is_sound = attempt-IsSound;
  done_keeps_role = λ c l z r old x q. (refl, refl);
  leave_is_sound = leave-IsSound;
  resume_keeps_role = λ c r e. (refl, refl);
  signal_is_sound = signal-IsSound;
}

abbrev pub Threads : Type 0
Threads = System Cond Phase Holding Call Signal

abbrev pub may_wait : Holding → Call → Bool
may_wait r c = true

abbrev pub Reachable : ℕ → Threads → Type 0
Reachable n = Reach ops may_wait may_signal n init free

-- Fewer than 2 ^ 55 threads wait for one condition variable and signal it, interleaved in any
-- order. Then the threads in the wait are those that the word counts and those for whom a release
-- is due: a signal never waits for a thread that has left.
pub cond_waiters_counted :
    {n : ℕ} {s : Threads}
    → n < 2 ^ 55
    → Reachable n s
    → weigh (waits ops reading) n s.pc ≡ s.word.nsleep + weigh (pending ops reading) n s.pc
cond_waiters_counted {n} few r =
    let inv =
      Reach-Inv ops reading may_signal n laws (omega arith) r
        (record { unused = refl; nsleep_bits = omega arith }) refl refl refl refl refl in
    inv.counted

-- The threads that a signal releases, and its result.
abbrev pub released : Reply Cond Holding → ℕ × ℤ
released (refuse x) = (0, x)
released (wake new k x r) = (k, x)

-- The count that a signal leaves in the word.
abbrev pub remaining : Cond → Reply Cond Holding → ℕ
remaining old (refuse x) = old.nsleep
remaining old (wake new k x r) = new.nsleep

-- On every branch, a signal releases as many counted threads as there are, up to the limit,
-- returns their number, and takes them off the count; `_MCF_cond_signal_all` leaves none. The inline
-- function spares the call exactly when there is none.
pub signal_some_lem :
    (w : Cond) (r : Holding) (limit : ℕ)
    → IsWord w
    → ((released (signal (signal_some limit) r w)).0 ≡ minz w.nsleep limit)
      × ((released (signal (signal_some limit) r w)).1 ≡ pos (minz w.nsleep limit))
      × (remaining w (signal (signal_some limit) r w) ≡ w.nsleep - limit)
      × (remaining w (signal signal_all r w) ≡ 0)
      × ((signal_fast w ≡ some (pos 0)) ↔ (w.nsleep ≡ 0))
unfolding signal signal_fast
signal_some_lem w r limit g =
    (ground arith, ground arith, ground arith, ground arith, (λ e. ground arith, λ e. ground arith))
