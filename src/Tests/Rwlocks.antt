-- ===== src/Tests/Rwlocks.antt =====
-- Read-write locks and mutexes through the interfaces.
use mcfgthread.Base.{◌≡◌, true, false, pos, if◌then◌else◌, arith}
use mcfgthread.SharedMutex.{SharedMutex, lock_shared}
use mcfgthread.Mutex.{Mutex}
use mcfgthread.Gthr.{Errno}
use mcfgthread.Wrappers.{waits, returns, gthr_lock, gthr_trylock, gthr_timedlock, gthr_unlock}
use mcfgthread.Wrappers.Filling.{is_open, taken, is_finite, shared_locks, rwlock_lem}

abbrev errno : Errno
errno = record { enomem = 12; einval = 22; ebusy = 16; etimedout = 138 }

-- Three readers.
abbrev word : SharedMutex
word = record { nshare = 3; nsleep = 0 }

rwlock_lem_example :
    (is_open lock_shared word ≡ true
      → (gthr_lock (shared_locks 9 lock_shared) word ≡ returns 0 (taken lock_shared word))
        × (gthr_trylock (shared_locks 9 lock_shared) errno word
            ≡ returns 0 (taken lock_shared word))
        × (gthr_timedlock (shared_locks 9 lock_shared) errno (pos 5) word
            ≡ returns 0 (taken lock_shared word))
        × (gthr_unlock (shared_locks 9 lock_shared) (taken lock_shared word) ≡ returns 0 word))
    × (is_open lock_shared word ≡ false
        → (gthr_lock (shared_locks 9 lock_shared) word ≡ waits)
          × (gthr_trylock (shared_locks 9 lock_shared) errno word ≡ returns 16 word)
          × (gthr_timedlock (shared_locks 9 lock_shared) errno (pos 5) word
              ≡ (if is_finite (pos 5) then returns 138 word else waits)))
rwlock_lem_example =
    rwlock_lem 9 lock_shared errno (pos 5) word
      (record {
        nshare_bits = omega arith;
        nsleep_bits = omega arith;
        awake = λ e. absurd (omega arith);
      })
      (omega arith)

-- The mutex is locked, one thread spins and two sleep.
abbrev crowded : Mutex
crowded = record { locked = 1; sp_mask = 1; sp_nfail = 3; nsleep = 2 }
