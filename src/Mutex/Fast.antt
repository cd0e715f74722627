-- ===== src/Mutex/Fast.antt =====
-- The inline functions of mcfgthread/mutex.h do on the raw integer what the slow ones do, and the
-- spinning fields of mcfgthread/src/mutex.c.
use mcfgthread.Base.{
  ℕ, ◌+◌, ◌-◌, ◌%◌, ◌<◌, ◌^◌, ◌≡◌, Bool, arith, ◌==◌, ltb, if◌then◌else◌, ◌&&◌, Option, none, some,
}
use mcfgthread.Base.Bits.{zero-bit_and}
use mcfgthread.Waitable.Machine.{written}
use mcfgthread.Mutex.{
  Mutex, lock_loop, lock, attempt, adjust_sp_nfail, plus_one, minus_one, unlock_word, pack,
  lock_fast, unlock_fast,
}
use mcfgthread.Mutex.Laws.{IsWord}

-- `do_adjust_sp_nfail` is a counter that saturates at 0 and at 15.
pub adjust_sp_nfail_lem :
    (n : ℕ)
    → n < 16
    → (adjust_sp_nfail n plus_one % 16 ≡ (if ltb n 15 then n + 1 else 15))
      × (adjust_sp_nfail n minus_one % 16 ≡ n - 1)
unfolding adjust_sp_nfail
adjust_sp_nfail_lem n h = ground arith

abbrev pub packed : Option Mutex → Option ℕ
packed none = none
packed (some w) = some (pack w)

-- For any word, the inline locking function succeeds exactly when one pass of
-- `_MCF_mutex_lock_slow` locks the mutex, whatever the timeout, and it writes the same integer.
pub lock_fast-attempt :
    (w : Mutex) (no_wait : Bool)
    → IsWord w
    → lock_fast (pack w) ≡ packed (written (attempt lock lock_loop no_wait w))
unfolding lock_fast pack attempt
lock_fast-attempt w no_wait g = ground arith

abbrev pub woken : Mutex → Option (ℕ × ℕ)
woken w =
    if (w.sp_mask == 0) && (w.nsleep == 0)
    then some (pack (unlock_word w).0, (unlock_word w).1)
    else none

abbrev pub with_nobody : Option ℕ → Option (ℕ × ℕ)
with_nobody none = none
with_nobody (some bits) = some (bits, 0)

-- For a locked word, the inline unlocking function succeeds exactly when no thread spins or
-- sleeps; then it writes the integer that `_MCF_mutex_unlock_slow` writes, which releases nobody.
pub unlock_fast-unlock_word :
    (w : Mutex) → IsWord w → w.locked ≡ 1 → with_nobody (unlock_fast (pack w)) ≡ woken w
unfolding unlock_fast pack unlock_word
unlock_fast-unlock_word w g h = ground (arith, zero-bit_and ((w.sp_mask + 2 ^ 32 - 1) % 2 ^ 32))
