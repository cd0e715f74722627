-- ===== src/SharedMutex/Fast.antt =====
-- The inline functions of mcfgthread/shared_mutex.h do on the raw integer what the slow ones do.
use mcfgthread.Base.{
  ℕ, ◌+◌, ◌*◌, ◌≤◌, ◌<◌, ◌^◌, ◌≡◌, Bool, arith, ◌==◌, if◌then◌else◌, Option, none, some,
}
use mcfgthread.Waitable.Machine.{written}
use mcfgthread.SharedMutex.{
  SharedMutex, lock_loop, lock_shared, lock_exclusive, attempt, unlock_word, pack, lock_shared_fast,
  lock_exclusive_fast, unlock_fast,
}
use mcfgthread.SharedMutex.Laws.{IsWord, drop_share_lem, unlock_word_lem}

abbrev pub packed : Option SharedMutex → Option ℕ
packed none = none
packed (some w) = some (pack w)

-- For any word, the inline locking functions succeed exactly when one pass of `do_lock_common`
-- grants access, whatever the timeout, and they write the same integer.
pub shared_lock_fast-attempt :
    (w : SharedMutex) (no_wait : Bool)
    → IsWord w
    → (lock_shared_fast (pack w) ≡ packed (written (attempt lock_shared lock_loop no_wait w)))
      × (lock_exclusive_fast (pack w)
          ≡ packed (written (attempt lock_exclusive lock_loop no_wait w)))
unfolding lock_shared_fast lock_exclusive_fast pack attempt
shared_lock_fast-attempt w no_wait g = (ground arith, ground arith)

abbrev pub freed : SharedMutex → Option (ℕ × ℕ)
freed w = if w.nsleep == 0 then some (pack (unlock_word w).0, (unlock_word w).1) else none

abbrev pub with_nobody : Option ℕ → Option (ℕ × ℕ)
with_nobody none = none
with_nobody (some bits) = some (bits, 0)

-- For a locked word, the inline unlocking function succeeds exactly when no thread sleeps; then it
-- writes the integer that `_MCF_shared_mutex_unlock_slow` writes, which releases no thread.
pub shared_unlock_fast-unlock_word :
    (w : SharedMutex) → IsWord w → 0 < w.nshare → with_nobody (unlock_fast (pack w)) ≡ freed w
unfolding unlock_fast pack
shared_unlock_fast-unlock_word w g h =
    let k : w.nshare ≤ 0x3FFF = omega (arith, g.nshare_bits) in
    rw (unlock_word_lem w h k g.nsleep_bits)
      (ground (arith, drop_share_lem (w.nshare + 2 ^ 14 * w.nsleep)))
