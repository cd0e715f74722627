-- ===== src/Event.antt =====
-- The event: mcfgthread/src/event.c and mcfgthread/event.h, with 64-bit pointers.
pub mod Laws
use mcfgthread.Base.{
  ℕ, ◌+◌, ◌-◌, ◌%◌, ◌^◌, Option, none, some, Bool, true, false, not, ◌||◌, ◌==◌, if◌then◌else◌, ℤ,
  pos, negsuc, pos_part, ltb_ℤ, ℕ_discrete,
}
use mcfgthread.Waitable.Machine.{Attempt, done, sleep, Reply, refuse, wake, Ops}
use mcfgthread.Waitable.Holding.{Holding}

-- `struct __MCF_event`
pub record Event : Type 0 where
  pub value : ℕ
  pub reserved_bit : ℕ
  pub nsleep : ℕ

unfoldable pub Event-discrete : Discrete Event
Event-discrete = hlevel ℕ_discrete

abbrev pub value_max : ℤ
value_max = pos 0xFF

-- An `int` cast to `uint8_t`.
abbrev pub uint8 : ℤ → ℕ
uint8 (pos n) = n % 256
uint8 (negsuc n) = 255 - n % 256

abbrev pub out_of_range : ℤ → Bool
out_of_range value = ltb_ℤ value (pos 0) || ltb_ℤ value_max value

-- `_MCF_event_init`: the result, and the word where it is written.
unfoldable pub init : ℤ → ℤ × Option Event
init value_init =
    if out_of_range value_init
    then (negsuc 0, none)
    else (pos 0, some (record { value = uint8 value_init; reserved_bit = 0; nsleep = 0 }))

-- `_MCF_event_get`
unfoldable pub get : Event → ℕ
get event = event.value

-- `_MCF_event_await_change_slow` is at `try_wait_loop`.
pub data Phase : Type 0 where
  wait_loop : Phase

pub data Call : Type 0 where
  await_change : (undesired : ℤ) → Call

-- `_MCF_event_set_slow` leaves `new.__reserved_bit` uninitialized: `stale` is what it holds.
pub data Signal : Type 0 where
  set : (value : ℤ) (stale : ℕ) → Signal

-- The `for(;;)` of `_MCF_event_await_change_slow`.
unfoldable pub attempt : Call → Phase → Bool → Event → Attempt Event Phase
attempt (await_change undesired) wait_loop no_wait old =
    if not (old.value == uint8 undesired)
    then done (pos old.value)
    else if no_wait
    then done (negsuc 0)
    else sleep (record { value = old.value; reserved_bit = 0; nsleep = (old.nsleep + 1) % 2 ^ 55 })

-- The wait has timed out.
unfoldable pub leave : Event → Option (Event × ℤ)
leave old =
    if old.nsleep == 0
    then none
    else some (
      record {
        value = old.value;
        reserved_bit = 0;
        nsleep = (old.nsleep + 2 ^ 64 - 1) % 2 ^ 64 % 2 ^ 55;
      },
      negsuc 0,
    )

-- `_MCF_event_await_change`: the result, or `none` to call the slow function.
unfoldable pub await_fast : ℤ → Event → Option ℤ
await_fast undesired old = if not (old.value == uint8 undesired) then some (pos old.value) else none

-- `_MCF_event_set_slow`
unfoldable pub signal : Signal → Holding → Event → Reply Event Holding
signal (set value stale) r old =
    if out_of_range value
    then refuse (negsuc 0)
    else if old.value == uint8 value
    then refuse (pos 0)
    else wake (record { value = uint8 value; reserved_bit = stale % 2; nsleep = 0 }) old.nsleep
        (pos 0) r

abbrev pub ops : Ops Event Phase Holding Call Signal
ops = record {
  word_discrete = Event-discrete;
  first = wait_loop;
  poll = λ _ _. none;
  attempt = attempt;
  leave = leave;
  restarts = true;
  role_after = λ _ _ r. r;
  signal = signal;
  exchanges = λ _. false;
}
