-- ===== src/Sem/Laws.antt =====
-- The operations of mcfgthread/src/sem.c keep the books.
use mcfgthread.Base.{
  ℕ, ◌+◌, ◌-◌, ◌<◌, ◌^◌, ◌≡◌, ◌↔◌, refl, Bool, true, ℤ, pos, negsuc, pos_part, neg_part, ◌+ℤ◌, ◌≤ℤ◌,
  arith,
}
use mcfgthread.Base.Family.{weigh}
use mcfgthread.Waitable.Holding.{Holding, free}
use mcfgthread.Waitable.Machine.{refuse, wake}
use mcfgthread.Waitable.System.{System, Reach}
use mcfgthread.Waitable.Ledger.{
  Reading, Laws, AttemptIsSound, LeaveIsSound, ReplyIsSound, Held, waits, pending,
}
use mcfgthread.Waitable.Invariant.{Reach-Inv}
use mcfgthread.Sem.{
  Sem, Call, wait, Signal, signal_some, ops, Phase, wait_loop, attempt, leave, signal, value_max,
}

-- An `intptr_t`.
pub record IsWord (w : Sem) : Type 0 where
  pub above : neg_part w.value < 2 ^ 63
  pub below : pos_part w.value < 2 ^ 63

abbrev pub reading : Reading Sem Holding
reading = record {
  Good = IsWord;
  sleepers = λ w. neg_part w.value;
  limit = 2 ^ 63 - 1;
  shared_by = λ _. 0;
  owned_by = λ _. 0;
  shares = λ _. 0;
  owns = λ _. 0;
}

abbrev pub may_signal : Holding → Signal → Bool
may_signal r s = true

attempt-IsSound :
    (c : Call) (l : Phase) (z : Bool) (r : Holding) (old : Sem)
    → IsWord old
    → neg_part old.value < 2 ^ 63 - 1
    → AttemptIsSound ops reading c r old (attempt c l z old)
unfolding attempt
attempt-IsSound wait wait_loop z r old g few = ground arith

leave-IsSound :
    (c : Call) (r : Holding) (old : Sem) → IsWord old → LeaveIsSound ops reading c r old (leave old)
unfolding leave
leave-IsSound c r old g = ground arith

signal-IsSound :
    (s : Signal) (r : Holding) (old : Sem)
    → IsWord old
    → may_signal r s ≡ true
    → Held ops reading old r
    → ReplyIsSound ops reading r old (signal s r old)
unfolding signal
signal-IsSound (signal_some (pos x)) r old g m h = ground arith
signal-IsSound (signal_some (negsuc x)) r old g m h = ground arith

pub laws : Laws ops reading may_signal
laws = record {
  attempt_is_sound = attempt-IsSound;
  done_keeps_role = λ c l z r old x q. (refl, refl);
  leave_is_sound = leave-IsSound;
  resume_keeps_role = λ c r e. (refl, refl);
  signal_is_sound = signal-IsSound;
}

abbrev pub Threads : Type 0
Threads = System Sem Phase Holding Call Signal

abbrev pub may_wait : Holding → Call → Bool
may_wait r c = true

-- The states that `n` threads reach from a semaphore that was initialized with a value.
abbrev pub Reachable : ℕ → ℕ → Threads → Type 0
Reachable value n = Reach ops may_wait may_signal n (record { value = pos value }) free

-- Fewer than 2 ^ 63 threads wait for one semaphore and signal it, interleaved in any order. Then
-- its value stays an `intptr_t`, and as many threads are in the wait as the value is below zero
-- and releases are due; so nobody waits while units are left, but for those who are released.
pub units_counted :
    {value n : ℕ} {s : Threads}
    → value < 2 ^ 63
    → n < 2 ^ 63
    → Reachable value n s
    → (pos_part s.word.value < 2 ^ 63)
      × (neg_part s.word.value < 2 ^ 63)
      × (weigh (waits ops reading) n s.pc
          ≡ neg_part s.word.value + weigh (pending ops reading) n s.pc)
units_counted {n} small few r =
    let inv =
      Reach-Inv ops reading may_signal n laws (omega arith) r
        (record { above = omega arith; below = omega arith }) refl refl refl refl refl in
    (inv.good.below, inv.good.above, inv.counted)

-- When a signal to an `intptr_t` semaphore is accepted, each unit that it adds either releases a sleeping thread or can be taken at once: the
-- threads that are released leave the negative part, and the rest raises the positive part. The
-- value is never raised above the maximum.
pub signal_units :
    (w new : Sem) (r r' : Holding) (n x : ℤ) (k : ℕ)
    → IsWord w
    → signal (signal_some n) r w ≡ wake new k x r'
    → (pos_part new.value + k ≡ pos_part w.value + pos_part n)
      × (neg_part new.value + k ≡ neg_part w.value)
      × (new.value ≤ℤ value_max)
unfolding signal
signal_units w new r r' (pos n) x k g e = (ground arith, ground arith, ground arith)
signal_units w new r r' (negsuc n) x k g e = absurd (ground arith)

-- A signal is refused with -1 exactly when it is out of range, and with -2 exactly when it is in
-- range, is not zero, and would raise the value above the maximum.
pub signal_errors :
    (w : Sem) (r : Holding) (n : ℤ)
    → IsWord w
    → ((signal (signal_some n) r w ≡ refuse (negsuc 0)) ↔ (¬ ((pos 0 ≤ℤ n) × (n ≤ℤ value_max))))
      × ((signal (signal_some n) r w ≡ refuse (negsuc 1))
          ↔ ((m : ℕ) × (n ≡ pos m) × (m < 2 ^ 63) × (¬ (w.value +ℤ n ≤ℤ value_max))))
unfolding signal
signal_errors w r (pos n) g = (
  (λ e h. ground arith, λ h. ground arith),
  (λ e. (n, refl, ground arith, λ h. ground arith), λ h. ground arith),
)
signal_errors w r (negsuc n) g =
    ((λ e h. ground arith, λ h. ground arith), (λ e. absurd (ground arith), λ h. cc))
