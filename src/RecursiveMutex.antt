-- ===== src/RecursiveMutex.antt =====
-- The recursive mutex: mcfgthread/gthr_aux.h and mcfgthread/src/gthr_aux.c. `none` is a failed assertion.
-- The mutex in it is seen through its locked bit, which one thread at a time can set.
pub mod Laws
pub mod System
use mcfgthread.Base.{
  ℕ, zero, suc, ◌+◌, ◌-◌, Option, none, some, Bool, true, false, not, ◌&&◌, ◌||◌, ◌==◌, ltb,
  if◌then◌else◌, ℤ, pos, negsuc, eqb_ℤ,
}

-- `struct __MCF_gthr_rc_mutex`
pub record RcMutex : Type 0 where
  pub owner : ℕ
  pub depth : ℕ
  pub locked : Bool

-- `__MCF_gthr_rc_mutex_init`
abbrev pub rc_mutex_init : RcMutex
rc_mutex_init = record { owner = 0; depth = 0; locked = false }

-- `__MCF_gthr_rc_mutex_recurse`
unfoldable pub rc_mutex_recurse : ℕ → RcMutex → Option (ℤ × RcMutex)
rc_mutex_recurse tid r =
    if not (r.owner == tid)
    then some (negsuc 0, r)
    else if not (ltb r.depth 0x7FFFFFFF)
    then none
    else some (pos 0, record r { depth = r.depth + 1 })

-- The calling thread has locked the mutex, and writes its identifier.
unfoldable pub set_owner : ℕ → RcMutex → Option RcMutex
set_owner tid r = if r.owner == 0 then some (record r { owner = tid }) else none

-- The first level.
unfoldable pub set_depth : RcMutex → Option RcMutex
set_depth r = if r.depth == 0 then some (record r { depth = 1 }) else none

abbrev pub bind {ℓ κ} : {A : Type ℓ} {B : Type κ} → Option A → (A → Option B) → Option B
bind none f = none
bind (some a) f = f a

-- `__MCF_gthr_rc_mutex_wait`. `err` is the result of `_MCF_mutex_lock`, after which `locked` is set.
unfoldable pub rc_mutex_wait : ℤ → ℕ → RcMutex → Option (ℤ × RcMutex)
unfolding set_owner set_depth
rc_mutex_wait err tid r =
    if eqb_ℤ err (pos 0)
    then bind (set_owner tid (record r { locked = true }))
        (λ r1. bind (set_depth r1) (λ r2. some (pos 0, r2)))
    else some (err, r)

unfoldable pub drop_level : RcMutex → Option RcMutex
drop_level r =
    if (r.owner == 0) || (r.depth == 0) then none else some (record r { depth = r.depth - 1 })

-- `_MCF_atomic_store_32_rlx(__rmtx->__owner, 0)`
unfoldable pub clear_owner : RcMutex → RcMutex
clear_owner r = record r { owner = 0 }

-- `_MCF_mutex_unlock`
abbrev pub unlock : RcMutex → RcMutex
unlock r = record r { locked = false }

-- `__MCF_gthr_rc_mutex_release`
unfoldable pub rc_mutex_release : RcMutex → Option RcMutex
unfolding drop_level clear_owner
rc_mutex_release r =
    bind (drop_level r)
      (λ r1. if not (r1.depth == 0) then some r1 else some (unlock (clear_owner r1)))

-- The recursion depth is taken out of the mutex.
unfoldable pub take_depth : RcMutex → Option (ℕ × RcMutex)
take_depth r = if r.depth == 0 then none else some (r.depth, record r { depth = 0 })

-- And is put back.
unfoldable pub restore_depth : ℕ → RcMutex → Option RcMutex
restore_depth unlocked r = if unlocked == 0 then none else some (record r { depth = unlocked })

-- `__MCF_gthr_recursive_mutex_unlock_callback`
unfoldable pub recursive_mutex_unlock_callback : RcMutex → Option (ℕ × RcMutex)
unfolding take_depth clear_owner
recursive_mutex_unlock_callback r = bind (take_depth r) (λ x. some (x.0, unlock (clear_owner x.1)))

-- `__MCF_gthr_recursive_mutex_relock_callback`
unfoldable pub recursive_mutex_relock_callback : ℕ → ℕ → RcMutex → Option RcMutex
unfolding set_owner restore_depth
recursive_mutex_relock_callback tid unlocked r =
    bind (set_owner tid (record r { locked = true })) (restore_depth unlocked)
