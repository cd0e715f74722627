-- ===== src/RecursiveMutex/Laws.antt =====
-- The operations of the recursive mutex in mcfgthread/gthr_aux.h undo one another.
use mcfgthread.Base.{ℕ, ◌+◌, ◌<◌, ◌≡◌, ◌≢◌, refl, some, true, pos, negsuc, arith}
use mcfgthread.RecursiveMutex.{
  RcMutex, rc_mutex_init, rc_mutex_recurse, rc_mutex_wait, rc_mutex_release, set_owner, set_depth,
  drop_level, clear_owner, take_depth, restore_depth, recursive_mutex_unlock_callback,
  recursive_mutex_relock_callback,
}

-- The thread has the mutex locked, at some level.
abbrev pub IsHeld : ℕ → RcMutex → Type 0
IsHeld tid r = (tid ≢ 0) × (r.owner ≡ tid) × (0 < r.depth) × (r.locked ≡ true)

-- For the thread that holds the mutex, the callbacks of a condition variable free the mutex in between,
-- and give back the very state, with its depth.
pub callbacks_roundtrip :
    (tid : ℕ) (r : RcMutex)
    → IsHeld tid r
    → (unlocked : ℕ) × (recursive_mutex_unlock_callback r ≡ some (unlocked, rc_mutex_init))
      × (recursive_mutex_relock_callback tid unlocked rc_mutex_init ≡ some r)
unfolding recursive_mutex_unlock_callback recursive_mutex_relock_callback take_depth set_owner
    restore_depth clear_owner
callbacks_roundtrip tid r (nonzero, o, d, l) = (r.depth, ground arith, ground arith)

-- A release undoes a lock: the first one of a free mutex, and one more of the holder.
pub wait-release :
    (tid : ℕ)
    → tid ≢ 0
    → (r : RcMutex) × (rc_mutex_wait (pos 0) tid rc_mutex_init ≡ some (pos 0, r))
      × IsHeld tid r
      × (rc_mutex_release r ≡ some rc_mutex_init)
unfolding rc_mutex_wait rc_mutex_release set_owner set_depth drop_level clear_owner
wait-release tid nonzero = (
  record { owner = tid; depth = 1; locked = true },
  refl,
  (nonzero, refl, omega arith, refl),
  ground arith,
)

pub recurse-release :
    (tid : ℕ) (r : RcMutex)
    → IsHeld tid r
    → r.depth < 0x7FFFFFFF
    → (r' : RcMutex) × (rc_mutex_recurse tid r ≡ some (pos 0, r'))
      × IsHeld tid r'
      × (rc_mutex_release r' ≡ some r)
unfolding rc_mutex_recurse rc_mutex_release drop_level clear_owner
recurse-release tid r (nonzero, o, d, l) bounded =
    (record r { depth = r.depth + 1 }, ground arith, (nonzero, o, omega arith, l), ground arith)

pub recurse-other :
    (tid : ℕ) (r : RcMutex) → r.owner ≢ tid → rc_mutex_recurse tid r ≡ some (negsuc 0, r)
unfolding rc_mutex_recurse
recurse-other tid r other = ground arith
