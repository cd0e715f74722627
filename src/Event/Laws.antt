-- ===== src/Event/Laws.antt =====
-- The operations of mcfgthread/src/event.c keep the books, and what threads see of an event.
use mcfgthread.Base.{
  ℕ, ◌+◌, ◌-◌, ◌≤◌, ◌<◌, ◌^◌, ◌≡◌, ◌≢◌, ◌↔◌, refl, Bool, true, ℤ, pos, negsuc, arith, some,
}
use mcfgthread.Base.Family.{weigh}
use mcfgthread.Waitable.Holding.{Holding, free}
use mcfgthread.Waitable.Machine.{done, refuse, wake}
use mcfgthread.Waitable.System.{System, Reach}
use mcfgthread.Waitable.Ledger.{
  Reading, Laws, AttemptIsSound, LeaveIsSound, ReplyIsSound, Held, waits, pending,
}
use mcfgthread.Waitable.Invariant.{Reach-Inv}
use mcfgthread.Event.{
  Event, Call, await_change, Signal, set, ops, Phase, wait_loop, attempt, leave, signal, uint8,
  await_fast, init,
}

-- The bit-fields of a word.
pub record IsWord (w : Event) : Type 0 where
  pub value_bits : w.value < 256
  pub reserved_bits : w.reserved_bit ≤ 1
  pub nsleep_bits : w.nsleep < 2 ^ 55

abbrev pub reading : Reading Event Holding
reading = record {
  Good = IsWord;
  sleepers = λ w. w.nsleep;
  limit = 2 ^ 55 - 1;
  shared_by = λ _. 0;
  owned_by = λ _. 0;
  shares = λ _. 0;
  owns = λ _. 0;
}

abbrev pub may_set : Holding → Signal → Bool
may_set r s = true

attempt-IsSound :
    (c : Call) (l : Phase) (z : Bool) (r : Holding) (old : Event)
    → IsWord old
    → old.nsleep < 2 ^ 55 - 1
    → AttemptIsSound ops reading c r old (attempt c l z old)
unfolding attempt
attempt-IsSound (await_change u) wait_loop z r old g few = ground arith

leave-IsSound :
    (c : Call) (r : Holding) (old : Event)
    → IsWord old
    → LeaveIsSound ops reading c r old (leave old)
unfolding leave
leave-IsSound c r old g = ground arith

uint8-lt : (x : ℤ) → uint8 x < 256
uint8-lt (pos n) = omega arith
uint8-lt (negsuc n) = omega arith

signal-IsSound :
    (s : Signal) (r : Holding) (old : Event)
    → IsWord old
    → may_set r s ≡ true
    → Held ops reading old r
    → ReplyIsSound ops reading r old (signal s r old)
unfolding signal
signal-IsSound (set (pos x) stale) r old g m h = ground arith
signal-IsSound (set (negsuc x) stale) r old g m h = ground arith

pub laws : Laws ops reading may_set
laws = record {
  attempt_is_sound = attempt-IsSound;
  done_keeps_role = λ c l z r old x q. (refl, refl);
  leave_is_sound = leave-IsSound;
  resume_keeps_role = λ c r e. (refl, refl);
  signal_is_sound = signal-IsSound;
}

abbrev pub Threads : Type 0
Threads = System Event Phase Holding Call Signal

abbrev pub may_await : Holding → Call → Bool
may_await r c = true

-- The states that `n` threads reach from an event that was initialized with a value.
abbrev pub Reachable : ℕ → ℕ → Threads → Type 0
Reachable value n =
    Reach ops may_await may_set n (record { value = value; reserved_bit = 0; nsleep = 0 }) free

-- Fewer than 2 ^ 55 threads await changes of one event and set it, interleaved in any order. Then
-- its value stays below 256, and the threads in the wait are those that the word counts and those
-- for whom a release is due.
pub awaiters_counted :
    {value n : ℕ} {s : Threads}
    → value < 256
    → n < 2 ^ 55
    → Reachable value n s
    → (s.word.value < 256)
      × (weigh (waits ops reading) n s.pc ≡ s.word.nsleep + weigh (pending ops reading) n s.pc)
awaiters_counted {n} small few r =
    let inv =
      Reach-Inv ops reading may_set n laws (omega arith) r (omega arith) refl refl refl refl refl in
    (inv.good.value_bits, inv.counted)

-- When an event is set to a value that it did not have, every counted sleeper is released, and
-- whoever then awaits a change from another value gets the new one at once.
pub set-await_change :
    (w new : Event) (r r' : Holding) (v stale k : ℕ) (u x : ℤ) (no_wait : Bool)
    → v < 256
    → v ≢ uint8 u
    → signal (set (pos v) stale) r w ≡ wake new k x r'
    → (k ≡ w.nsleep)
      × (new.nsleep ≡ 0)
      × (v ≢ w.value)
      × (attempt (await_change u) wait_loop no_wait new ≡ done (pos v))
unfolding signal attempt
set-await_change w new r r' v stale k u x no_wait lt ne e =
    (ground arith, ground arith, ground arith, ground arith)

-- An event accepts exactly the values from 0 to 255, by `_MCF_event_init` and by
-- `_MCF_event_set_slow`, and it has the value that it was initialized with.
pub accepts_bytes :
    (w : Event) (r : Holding) (x : ℤ) (stale : ℕ)
    → (((init x).0 ≡ pos 0) ↔ ((v : ℕ) × (x ≡ pos v) × (v < 256)))
      × ((signal (set x stale) r w ≢ refuse (negsuc 0)) ↔ ((v : ℕ) × (x ≡ pos v) × (v < 256)))
unfolding init signal
accepts_bytes w r (pos v) stale = (
  (λ e. (v, refl, ground arith), λ h. ground arith),
  (λ e. (v, refl, ground arith), λ h e. ground arith),
)
accepts_bytes w r (negsuc v) stale =
    ((λ e. absurd (ground arith), λ h. cc), (λ e. absurd (e (ground arith)), λ h. cc))

-- A pass of the waiting function returns a value exactly when it is the value of the event and not
-- the undesired one, whatever the timeout, and so does the inline function.
pub await_change_lem :
    (w : Event) (u : ℤ) (no_wait : Bool) (x : ℕ)
    → ((attempt (await_change u) wait_loop no_wait w ≡ done (pos x))
        ↔ ((x ≡ w.value) × (x ≢ uint8 u)))
      × ((await_fast u w ≡ some (pos x)) ↔ ((x ≡ w.value) × (x ≢ uint8 u)))
unfolding attempt await_fast
await_change_lem w u no_wait x = (
  (λ e. (ground arith, λ q. ground arith), λ h. ground arith),
  (λ e. (ground arith, λ q. ground arith), λ h. ground arith),
)
