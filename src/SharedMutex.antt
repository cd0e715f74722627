-- ===== src/SharedMutex.antt =====
-- The shared mutex: mcfgthread/src/shared_mutex.c and mcfgthread/shared_mutex.h, with 64-bit
-- pointers.
pub mod Laws
pub mod Exclusion
pub mod Fast
use Prim.Native.Nat.{bit_and}
use mcfgthread.Base.{
  ℕ, ◌+◌, ◌-◌, ◌*◌, ◌/◌, ◌%◌, ◌^◌, Option, none, some, Bool, true, false, not, ◌&&◌, ◌==◌, ltb, leb,
  if◌then◌else◌, ℤ, pos, negsuc, ℕ_discrete,
}
use mcfgthread.Waitable.Machine.{Attempt, done, swap, sleep, Reply, wake, Ops}
use mcfgthread.Waitable.Holding.{Holding}

-- `struct __MCF_shared_mutex`
pub record SharedMutex : Type 0 where
  pub nshare : ℕ
  pub nsleep : ℕ

unfoldable pub SharedMutex-discrete : Discrete SharedMutex
SharedMutex-discrete = hlevel ℕ_discrete

-- `_MCF_shared_mutex_init`
abbrev pub init : SharedMutex
init = record { nshare = 0; nsleep = 0 }

abbrev pub max_share : ℕ
max_share = 16382

-- `do_lock_common` is at `try_lock_loop`.
pub data Phase : Type 0 where
  lock_loop : Phase

-- `_MCF_shared_mutex_lock_shared_slow`, `_MCF_shared_mutex_lock_exclusive_slow`
pub data Call : Type 0 where
  lock_shared lock_exclusive : Call

pub data Signal : Type 0 where
  unlock : Signal

abbrev pub is_shared : Call → Bool
is_shared lock_shared = true
is_shared lock_exclusive = false

-- The `for(;;)` of `do_lock_common`.
unfoldable pub attempt : Call → Phase → Bool → SharedMutex → Attempt SharedMutex Phase
attempt c lock_loop no_wait old =
    if is_shared c && ltb old.nshare max_share && (old.nsleep == 0)
    then swap (record { nshare = (old.nshare + 1) % 2 ^ 14; nsleep = old.nsleep }) (pos 0)
    else if not (is_shared c) && (old.nshare == 0)
    then swap (record { nshare = 0x3FFF; nsleep = old.nsleep }) (pos 0)
    else if no_wait
    then done (negsuc 0)
    else sleep (record { nshare = old.nshare; nsleep = (old.nsleep + 1) % 2 ^ 50 })

-- The wait has timed out.
unfoldable pub leave : SharedMutex → Option (SharedMutex × ℤ)
leave old =
    if old.nsleep == 0
    then none
    else some (record old { nsleep = (old.nsleep + 2 ^ 64 - 1) % 2 ^ 64 % 2 ^ 50 }, negsuc 0)

unfoldable pub role_after : Call → ℤ → Holding → Holding
role_after lock_shared (pos n) r = record r { shares = r.shares + 1 }
role_after lock_exclusive (pos n) r = record r { owns = r.owns + 1 }
role_after c (negsuc n) r = r

-- `(nshare - 1U) & (((uint32_t) nshare - 0x3FFFU) >> 14)`, where `nshare` is a `uintptr_t`.
unfoldable pub drop_share : ℕ → ℕ
drop_share nshare =
    bit_and ((nshare + 2 ^ 64 - 1) % 2 ^ 64) ((nshare % 2 ^ 32 + 2 ^ 32 - 0x3FFF) % 2 ^ 32 / 2 ^ 14)

-- `_MCF_shared_mutex_unlock_slow`: the new word, and the number of threads to release.
unfoldable pub unlock_word : SharedMutex → SharedMutex × ℕ
unlock_word old =
    let new_nshare = drop_share old.nshare in
    let wake_num = bit_and old.nsleep ((new_nshare + 2 ^ 64 - 1) % 2 ^ 64 / 2 ^ 14) in
    (
      record {
        nshare = new_nshare % 2 ^ 14;
        nsleep = (old.nsleep + 2 ^ 64 - wake_num) % 2 ^ 64 % 2 ^ 50;
      },
      wake_num,
    )

-- The hold that the thread gives back: it does not say which kind it had.
abbrev pub role_unlocked : Holding → Holding
role_unlocked r =
    if ltb 0 r.owns then record r { owns = r.owns - 1 } else record r { shares = r.shares - 1 }

unfoldable pub signal : Signal → Holding → SharedMutex → Reply SharedMutex Holding
signal unlock r old = wake (unlock_word old).0 (unlock_word old).1 (pos 0) (role_unlocked r)

abbrev pub ops : Ops SharedMutex Phase Holding Call Signal
ops = record {
  word_discrete = SharedMutex-discrete;
  first = lock_loop;
  poll = λ _ _. none;
  attempt = attempt;
  leave = leave;
  restarts = true;
  role_after = role_after;
  signal = signal;
  exchanges = λ _. false;
}

-- The raw integer of a word.
unfoldable pub pack : SharedMutex → ℕ
pack w = w.nshare + 2 ^ 14 * w.nsleep

-- `_MCF_shared_mutex_lock_shared`, `_MCF_shared_mutex_lock_exclusive` and
-- `_MCF_shared_mutex_unlock`: the new integer, or `none` to call the slow function.
unfoldable pub lock_shared_fast : ℕ → Option ℕ
lock_shared_fast old_bits = if ltb old_bits max_share then some (old_bits + 1) else none

unfoldable pub lock_exclusive_fast : ℕ → Option ℕ
lock_exclusive_fast old_bits =
    if old_bits % 2 ^ 14 == 0 then some ((old_bits + 0x3FFF) % 2 ^ 64) else none

unfoldable pub unlock_fast : ℕ → Option ℕ
unlock_fast old_bits = if leb old_bits 0x3FFF then some (drop_share old_bits) else none
