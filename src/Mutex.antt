-- ===== src/Mutex.antt =====
-- The mutex: mcfgthread/src/mutex.c and mcfgthread/mutex.h, with 64-bit pointers.
pub mod Laws
pub mod Exclusion
pub mod Wakeup
pub mod Fast
pub mod Spinning
use Prim.Native.Nat.{bit_and, bit_or, bit_xor}
use mcfgthread.Base.{
  ℕ, zero, suc, ◌+◌, ◌-◌, ◌*◌, ◌/◌, ◌%◌, ◌^◌, Option, none, some, Bool, ◌&&◌, not, ◌==◌, ltb,
  if◌then◌else◌, ℤ, pos, negsuc, ℕ_discrete,
}
use mcfgthread.Waitable.Machine.{Attempt, done, swap, hop, skip, sleep, Reply, wake, Ops}
use mcfgthread.Waitable.Holding.{Holding}

-- `struct __MCF_mutex`
pub record Mutex : Type 0 where
  pub locked : ℕ
  pub sp_mask : ℕ
  pub sp_nfail : ℕ
  pub nsleep : ℕ

unfoldable pub Mutex-discrete : Discrete Mutex
Mutex-discrete = hlevel ℕ_discrete

-- `_MCF_mutex_init`
abbrev pub init : Mutex
init = record { locked = 0; sp_mask = 0; sp_nfail = 0; nsleep = 0 }

abbrev pub sp_nfail_threshold : ℕ
sp_nfail_threshold = 10

-- `sizeof(__MCF_G(mutex_spin_field))`
abbrev pub table_size : ℕ
table_size = 2048

-- `__MCF_bit_scan_forward_32`, with the count of the bits that are left to scan.
unfoldable pub bit_scan_forward : ℕ → ℕ → ℕ
bit_scan_forward zero value = 0
bit_scan_forward (suc bits) value =
    let rest = bit_scan_forward bits (value / 2) in if value % 2 == 1 then 0 else rest + 1

-- The offset of the spin byte in the table, for the mutex at the address `mtx`.
unfoldable pub spin_byte_index : ℕ → ℕ → ℕ
spin_byte_index mtx sp_mask =
    let base = mtx / 8 * 0x9E3779B9 % 2 ^ 64 % 2 ^ 32 / (2 ^ 32 / table_size) in
    let index = bit_scan_forward 32 sp_mask in (base + index * (table_size / 4)) % table_size

-- `add` is +1 or -1, as a `uint32_t`.
unfoldable pub adjust_sp_nfail : ℕ → ℕ → ℕ
adjust_sp_nfail old add = let temp = (old + add) % 2 ^ 32 in (temp + 2 ^ 32 - temp / 2 ^ 4) % 2 ^ 32

abbrev pub plus_one : ℕ
plus_one = 1

abbrev pub minus_one : ℕ
minus_one = 2 ^ 32 - 1

-- `(UINT_MAX ^ mask) & (mask + 1U)`: the lowest slot that is free.
unfoldable pub free_slot : ℕ → ℕ
free_slot mask = bit_and (bit_xor (2 ^ 32 - 1) mask) ((mask + 1) % 2 ^ 32)

-- Where `_MCF_mutex_lock_slow` stands when it comes to look at the mutex.
pub data Phase : Type 0 where
  lock_loop : Phase  -- `try_lock_loop`
  spin : (sp_budget sp_mask : ℕ) → Phase  -- head of the `while` that spins
  spin_again : (sp_budget sp_mask : ℕ) → Phase  -- the spin byte was set
  give_up : (sp_mask : ℕ) → Phase  -- behind the `while` that spins

pub data Call : Type 0 where
  lock : Call

pub data Signal : Type 0 where
  unlock : Signal

-- `old`, locked. The spinning failure counter goes down.
unfoldable pub take : Mutex → Mutex
unfolding adjust_sp_nfail
take old = record old { locked = 1; sp_nfail = adjust_sp_nfail old.sp_nfail minus_one % 16 }

-- `old` with a spinning slot taken.
unfoldable pub take_slot : Mutex → Mutex
unfolding free_slot
take_slot old = record old { locked = 1; sp_mask = bit_or old.sp_mask (free_slot old.sp_mask) % 16 }

-- `old` with one more sleeping thread and one more spinning failure.
unfoldable pub take_sleep : Mutex → Mutex
unfolding adjust_sp_nfail
take_sleep old = record old {
  locked = 1;
  sp_nfail = adjust_sp_nfail old.sp_nfail plus_one % 16;
  nsleep = (old.nsleep + 1) % 2 ^ 55;
}

-- `old` without the spinning slot of the thread.
unfoldable pub return_slot : ℕ → Mutex → Mutex
return_slot mask old = record old { sp_mask = bit_and old.sp_mask (bit_xor (2 ^ 32 - 1) mask) % 16 }

-- The time quantum of a spin, and the exchange of the spin byte, which is true if it was set.
unfoldable pub poll : Bool → Phase → Option Phase
poll notified lock_loop = none
poll notified (spin zero mask) = some (give_up mask)
poll notified (spin (suc budget) mask) =
    if mask == 0
    then some (give_up mask)
    else if notified
    then some (spin_again budget mask)
    else some (spin budget mask)
poll notified (spin_again budget mask) = none
poll notified (give_up mask) = none

-- The four `for(;;)` of `_MCF_mutex_lock_slow` that look at the mutex; `zero` says that the timeout
-- is zero.
unfoldable pub attempt : Call → Phase → Bool → Mutex → Attempt Mutex Phase
unfolding take take_slot take_sleep return_slot
attempt lock lock_loop no_wait old =
    if old.locked == 0
    then swap (take old) (pos 0)
    else if no_wait
    then done (negsuc 0)
    else if not (old.sp_mask == 15) && ltb old.sp_nfail sp_nfail_threshold
    then hop (take_slot old)
        (spin ((sp_nfail_threshold - old.sp_nfail) * 16) (free_slot old.sp_mask))
    else sleep (take_sleep old)
attempt lock (spin budget mask) no_wait old = skip (spin budget mask)
attempt lock (spin_again budget mask) no_wait old =
    if old.locked == 0
    then swap (take old) (pos 0)
    else if not (old.sp_mask == 15)
    then hop (take_slot old) (spin budget (free_slot old.sp_mask))
    else skip (spin budget 0)
attempt lock (give_up mask) no_wait old =
    if old.locked == 0
    then swap (take (return_slot mask old)) (pos 0)
    else sleep (take_sleep (return_slot mask old))

-- The wait has timed out.
unfoldable pub leave : Mutex → Option (Mutex × ℤ)
leave old =
    if old.nsleep == 0
    then none
    else some (record old { nsleep = (old.nsleep + 2 ^ 64 - 1) % 2 ^ 64 % 2 ^ 55 }, negsuc 0)

unfoldable pub role_after : Call → ℤ → Holding → Holding
role_after lock (pos n) r = record r { owns = r.owns + 1 }
role_after lock (negsuc n) r = r

-- `_MCF_mutex_unlock_slow`: the new word, and whether a sleeping thread is released.
unfoldable pub unlock_word : Mutex → Mutex × ℕ
unlock_word old =
    let wake_one = if old.nsleep == 0 then 0 else 1 in
    (
      record {
        locked = 0;
        sp_mask = bit_and old.sp_mask ((old.sp_mask + 2 ^ 32 - 1) % 2 ^ 32) % 16;
        sp_nfail = old.sp_nfail;
        nsleep = (old.nsleep + 2 ^ 64 - wake_one) % 2 ^ 64 % 2 ^ 55;
      },
      wake_one,
    )

-- The spin byte that `_MCF_mutex_unlock_slow` sets.
unfoldable pub notify : ℕ → Mutex → Option ℕ
notify mtx old = if old.sp_mask == 0 then none else some (spin_byte_index mtx old.sp_mask)

unfoldable pub signal : Signal → Holding → Mutex → Reply Mutex Holding
unfolding unlock_word
signal unlock r old =
    wake (unlock_word old).0 (unlock_word old).1 (pos 0) (record r { owns = r.owns - 1 })

abbrev pub ops : Ops Mutex Phase Holding Call Signal
ops = record {
  word_discrete = Mutex-discrete;
  first = lock_loop;
  poll = poll;
  attempt = attempt;
  leave = leave;
  restarts = Bool.true;
  role_after = role_after;
  signal = signal;
  exchanges = λ _. Bool.false;
}

-- The raw integer of a word.
unfoldable pub pack : Mutex → ℕ
pack w = w.locked + 2 * w.sp_mask + 2 ^ 5 * w.sp_nfail + 2 ^ 9 * w.nsleep

-- `_MCF_mutex_lock`: the new integer, or `none` to call the slow function. `& 0x1E` keeps the bits
-- 1 to 4, and `& 0x20` the bit 5.
unfoldable pub lock_fast : ℕ → Option ℕ
lock_fast old_bits =
    if old_bits % 2 == 0
    then some (
        (old_bits
          + 1
          + 2 ^ 64
          - (old_bits % 2 ^ 32 / 2 ^ 4 / 2 % 2 ^ 4 * 2 + 0x1E) / 2 ^ 5 % 2 * 2 ^ 5)
        % 2 ^ 64)
    else none

-- `_MCF_mutex_unlock`: the new integer, or `none` to call the slow function. The mask
-- `UINTPTR_MAX - 0x1E1` has the bits 1 to 4 and the bits from 9 on.
unfoldable pub unlock_fast : ℕ → Option ℕ
unlock_fast old_bits =
    if (old_bits / 2 % 2 ^ 4 == 0) && (old_bits / 2 ^ 9 == 0) then some (old_bits - 1) else none
