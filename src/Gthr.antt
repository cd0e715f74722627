-- ===== src/Gthr.antt =====
-- The functions of the GCC thread model: mcfgthread/gthr.h, and the records of its threads in
-- mcfgthread/src/gthr_aux.c. `none` is a failed assertion. Where a function calls `_MCF_mutex_lock`, its
-- result is an argument.
pub mod Agreement
use mcfgthread.Base.{
  ℕ, zero, suc, ◌+◌, ◌-◌, Option, none, some, Bool, true, false, not, ◌&&◌, ◌||◌, ◌==◌, ltb,
  if◌then◌else◌, ℤ, pos, negsuc, eqb_ℤ,
}
use mcfgthread.RecursiveMutex.{RcMutex, rc_mutex_recurse, rc_mutex_wait, rc_mutex_release, bind}
use mcfgthread.Tls.{Keys, Store, key_new, get, xset}

-- The error numbers of the C library.
pub record Errno : Type 0 where
  pub enomem : ℕ
  pub einval : ℕ
  pub ebusy : ℕ
  pub etimedout : ℕ

-- `__MCF_gthr_key_create`: the result, the key and the keys.
unfoldable pub gthr_key_create : Errno → Option ℕ → ℕ → Keys → ℕ × ℕ × Keys
unfolding key_new
gthr_key_create errno memory dtor_opt keys =
    let (key, keys') = key_new memory dtor_opt keys in
    (if key == 0 then errno.enomem else 0, key, keys')

-- `__MCF_gthr_getspecific`
unfoldable pub gthr_getspecific : ℕ → Store → ℕ
unfolding get
gthr_getspecific key s = get s.keys s.table key

-- `__MCF_gthr_setspecific`
unfoldable pub gthr_setspecific : Errno → Option ℕ → ℕ → ℕ → Store → Option (ℕ × Store)
unfolding xset
gthr_setspecific errno memory key val_opt s =
    bind (xset memory key val_opt s)
      (λ o. some (if eqb_ℤ o.err (pos 0) then 0 else errno.einval, o.store))

-- What a locking function does when the mutex has been checked for recursion.
abbrev pub waited : ℕ → ℤ × RcMutex → ℕ × RcMutex
waited failure (err, rmtx) = (if eqb_ℤ err (pos 0) then 0 else failure, rmtx)

unfoldable pub after_recurse : ℕ → ℤ → ℕ → ℤ × RcMutex → Option (ℕ × RcMutex)
unfolding rc_mutex_wait
after_recurse failure lock_err tid (err, rmtx) =
    if eqb_ℤ err (pos 0)
    then some (0, rmtx)
    else bind (rc_mutex_wait lock_err tid rmtx) (λ x. some (waited failure x))

-- `__MCF_gthr_recursive_mutex_lock`; without a timeout `_MCF_mutex_lock` returns 0.
unfoldable pub gthr_recursive_mutex_lock : ℕ → RcMutex → Option (ℕ × RcMutex)
unfolding rc_mutex_recurse after_recurse
gthr_recursive_mutex_lock tid rmtx = bind (rc_mutex_recurse tid rmtx) (after_recurse 0 (pos 0) tid)

-- `__MCF_gthr_recursive_mutex_trylock`
unfoldable pub gthr_recursive_mutex_trylock : Errno → ℤ → ℕ → RcMutex → Option (ℕ × RcMutex)
unfolding rc_mutex_recurse after_recurse
gthr_recursive_mutex_trylock errno lock_err tid rmtx =
    bind (rc_mutex_recurse tid rmtx) (after_recurse errno.ebusy lock_err tid)

-- `__MCF_gthr_recursive_mutex_timedlock`
unfoldable pub gthr_recursive_mutex_timedlock : Errno → ℤ → ℕ → RcMutex → Option (ℕ × RcMutex)
unfolding rc_mutex_recurse after_recurse
gthr_recursive_mutex_timedlock errno lock_err tid rmtx =
    bind (rc_mutex_recurse tid rmtx) (after_recurse errno.etimedout lock_err tid)

-- `__MCF_gthr_recursive_mutex_unlock`
unfoldable pub gthr_recursive_mutex_unlock : RcMutex → Option (ℕ × RcMutex)
unfolding rc_mutex_release
gthr_recursive_mutex_unlock rmtx = bind (rc_mutex_release rmtx) (λ r. some (0, r))

-- `struct __MCF_gthr_thread_record`; `is_gthread` is whether the identifier in it is that of these threads.
pub record ThreadRecord : Type 0 where
  pub is_gthread : Bool
  pub arg_or_result : ℕ

-- How a thread's procedure ends: it returns a result, it calls `__MCF_gthr_thread_exit_v3` with a result,
-- or the thread ends in another way.
pub data Ending : Type 0 where
  returned : ℕ → Ending
  exited : ℕ → Ending
  terminated : Ending

-- `__MCF_gthr_thread_exit_v3`, up to the end of the thread.
unfoldable pub gthr_thread_exit : ℕ → Option ThreadRecord → Option ThreadRecord
gthr_thread_exit result none = none
gthr_thread_exit result (some rec) =
    some (if rec.is_gthread then record rec { arg_or_result = result } else rec)

-- `do_gthread_routine`, over all the life of the thread. `cancelled` is `__MCF_GTHR_CANCELLED`.
unfoldable pub gthread_routine : ℕ → (ℕ → Ending) → ThreadRecord → Option ThreadRecord
unfolding gthr_thread_exit
gthread_routine cancelled proc rec =
    let started : ThreadRecord = record rec { arg_or_result = cancelled } in
    elim (proc rec.arg_or_result) [
      | returned result ↦ some (record started { arg_or_result = result })
      | exited result ↦ gthr_thread_exit result (some started)
      | terminated ↦ some started
    ]

-- `__MCF_gthr_thread_create_v4`: the record of the new thread.
unfoldable pub gthr_thread_create : ℕ → ThreadRecord
gthr_thread_create arg = record { is_gthread = true; arg_or_result = arg }

-- The result that `__MCF_gthr_thread_join_v3` passes on, when the thread has ended.
unfoldable pub gthr_thread_join : Option ThreadRecord → ℕ
gthr_thread_join none = 0
gthr_thread_join (some rec) = if rec.is_gthread then rec.arg_or_result else 0
