-- ===== src/Wrappers/Locking.antt =====
-- The wrappers over the mutex: what the functions of mcfgthread/gthr.h, gthr_libobjc.h, libcxx.h and
-- cxx11.hpp do with a mutex that is free, and with one that is locked.
use mcfgthread.Base.{ℕ, ◌≡◌, true, false, if◌then◌else◌, ℤ, pos, negsuc}
use mcfgthread.Mutex.{Mutex, take, unlock_word}
use mcfgthread.Gthr.{Errno}
use mcfgthread.Cpp.Times.{clamp_duration, negated}
use mcfgthread.Wrappers.{
  waits, returns, Locks, gthr_lock, gthr_trylock, gthr_timedlock, gthr_unlock, objc_lock,
  objc_trylock, objc_unlock, libcxx_lock, libcxx_trylock, libcxx_unlock, cpp_lock, cpp_try_lock,
  cpp_try_lock_for, cpp_unlock,
}
use mcfgthread.Wrappers.Filling.{is_finite}
use mcfgthread.Wrappers.Plain.{mutex_alone, IsStill, alone_sound, alone-untimed}

-- The mutex as a lock.
abbrev pub mutex_locks : ℕ → Locks Mutex
mutex_locks now = record {
  lock = mutex_alone now;
  unlock = λ w. (unlock_word w).0;
  sound = alone_sound now;
  untimed = alone-untimed now;
}

-- Every function locks the mutex, and every unlocking function unlocks it again.
pub record IsTaken (o : Locks Mutex) (errno : Errno) (timeout rel_time : ℤ) (w : Mutex)
    : Type 0 where
  pub locks :
      (gthr_lock o w ≡ returns 0 (take w))
      × (objc_lock o w ≡ returns 0 (take w))
      × (libcxx_lock o w ≡ returns 0 (take w))
      × (cpp_lock o w ≡ returns tt (take w))
  pub tries :
      (gthr_trylock o errno w ≡ returns 0 (take w))
      × (objc_trylock o w ≡ returns (pos 0) (take w))
      × (libcxx_trylock o w ≡ returns true (take w))
      × (cpp_try_lock o w ≡ returns true (take w))
  pub times :
      (gthr_timedlock o errno timeout w ≡ returns 0 (take w))
      × (cpp_try_lock_for o rel_time w ≡ returns true (take w))
  pub unlocks :
      (w1 : Mutex) × (w1.locked ≡ 0)
      × (gthr_unlock o (take w) ≡ returns 0 w1)
      × (objc_unlock o (take w) ≡ returns 0 w1)
      × (libcxx_unlock o (take w) ≡ returns 0 w1)
      × (cpp_unlock o (take w) ≡ returns tt w1)

-- The functions without a timeout wait, those that try fail and change nothing, and those with a
-- timeout fail if it is finite.
pub record IsRefused (o : Locks Mutex) (errno : Errno) (timeout rel_time : ℤ) (w : Mutex)
    : Type 0 where
  pub locks :
      (gthr_lock o w ≡ waits)
      × (objc_lock o w ≡ waits)
      × (libcxx_lock o w ≡ waits)
      × (cpp_lock o w ≡ waits)
  pub tries :
      (gthr_trylock o errno w ≡ returns errno.ebusy w)
      × (objc_trylock o w ≡ returns (negsuc 0) w)
      × (libcxx_trylock o w ≡ returns false w)
      × (cpp_try_lock o w ≡ returns false w)
  pub times :
      (w1 : Mutex) × (gthr_timedlock o errno timeout w
        ≡ (if is_finite timeout then returns errno.etimedout w1 else waits))
      × IsStill w w1
  pub times_for :
      (w1 : Mutex) × (cpp_try_lock_for o rel_time w
        ≡ (if is_finite (negated (clamp_duration rel_time)) then returns false w1 else waits))
      × IsStill w w1
