-- ===== src/IsoC.antt =====
-- The functions of ISO C threads over the library: mcfgthread/c11.h. `none` is a failed assertion. Where
-- a function calls `_MCF_mutex_lock` or waits for a condition variable, the result is an argument.
pub mod Locking
use Prim.Native.Nat.{bit_and}
use mcfgthread.Base.{
  ℕ, zero, suc, ◌+◌, ◌-◌, Option, none, some, Bool, true, false, not, ◌&&◌, ◌||◌, ◌==◌, ltb,
  if◌then◌else◌, ℤ, pos, negsuc, eqb_ℤ,
}
use mcfgthread.RecursiveMutex.{
  RcMutex, rc_mutex_init, rc_mutex_recurse, rc_mutex_wait, rc_mutex_release, bind,
}
use mcfgthread.Tls.{Keys, Store, Outcome, key_new, xset}

-- `enum __MCF_thrd_error`
pub data ThrdError : Type 0 where
  thrd_success : ThrdError
  thrd_busy : ThrdError
  thrd_error : ThrdError
  thrd_nomem : ThrdError
  thrd_timedout : ThrdError

-- `enum __MCF_mtx_type`
abbrev pub mtx_recursive : ℕ
mtx_recursive = 1

abbrev pub mtx_timed : ℕ
mtx_timed = 2

-- `struct __MCF_c11_mutex`
pub record Mtx : Type 0 where
  pub type : ℕ
  pub rc_mtx : RcMutex

-- `__MCF_c11_mtx_init`
unfoldable pub mtx_init : Mtx → ℕ → ThrdError × Mtx
mtx_init mtx type =
    if (type == 0)
      || (type == mtx_timed)
      || (type == mtx_recursive)
      || (type == mtx_timed + mtx_recursive)
    then (thrd_success, record { type = type; rc_mtx = rc_mutex_init })
    else (thrd_error, mtx)

-- The end of `__MCF_c11_mtx_check_recursion`.
abbrev pub recursed : Mtx → ℤ × RcMutex → ThrdError × Mtx
recursed mtx (err, rc_mtx) =
    if not (eqb_ℤ err (pos 0))
    then (thrd_busy, record mtx { rc_mtx = rc_mtx })
    else if bit_and mtx.type mtx_recursive == 0
    then (thrd_error, record mtx { rc_mtx = record rc_mtx { depth = rc_mtx.depth - 1 } })
    else (thrd_success, record mtx { rc_mtx = rc_mtx })

-- `__MCF_c11_mtx_check_recursion`
unfoldable pub mtx_check_recursion : ℕ → Mtx → Option (ThrdError × Mtx)
unfolding rc_mutex_recurse
mtx_check_recursion tid mtx = bind (rc_mutex_recurse tid mtx.rc_mtx) (λ x. some (recursed mtx x))

-- What a locking function returns when `__MCF_gthr_rc_mutex_wait` has returned.
abbrev pub waited : ThrdError → Mtx → ℤ × RcMutex → ThrdError × Mtx
waited failure mtx (err, rc_mtx) =
    (if eqb_ℤ err (pos 0) then thrd_success else failure, record mtx { rc_mtx = rc_mtx })

unfoldable pub after_check : ThrdError → ℤ → ℕ → ThrdError × Mtx → Option (ThrdError × Mtx)
unfolding rc_mutex_wait
after_check failure lock_err tid (err, mtx) = elim err [
  | thrd_busy ↦ bind (rc_mutex_wait lock_err tid mtx.rc_mtx) (λ x. some (waited failure mtx x))
  | e ↦ some (e, mtx)
]

-- `__MCF_c11_mtx_lock`; without a timeout `_MCF_mutex_lock` returns 0.
unfoldable pub mtx_lock : ℕ → Mtx → Option (ThrdError × Mtx)
unfolding mtx_check_recursion after_check
mtx_lock tid mtx = bind (mtx_check_recursion tid mtx) (after_check thrd_success (pos 0) tid)

-- `__MCF_c11_mtx_timedlock`
unfoldable pub mtx_timedlock : ℤ → ℕ → Mtx → Option (ThrdError × Mtx)
unfolding mtx_check_recursion after_check
mtx_timedlock lock_err tid mtx =
    if bit_and mtx.type mtx_timed == 0
    then some (thrd_error, mtx)
    else bind (mtx_check_recursion tid mtx) (after_check thrd_timedout lock_err tid)

-- `__MCF_c11_mtx_trylock`
unfoldable pub mtx_trylock : ℤ → ℕ → Mtx → Option (ThrdError × Mtx)
unfolding mtx_check_recursion after_check
mtx_trylock lock_err tid mtx =
    bind (mtx_check_recursion tid mtx) (after_check thrd_busy lock_err tid)

-- `__MCF_c11_mtx_unlock`
unfoldable pub mtx_unlock : Mtx → Option (ThrdError × Mtx)
unfolding rc_mutex_release
mtx_unlock mtx =
    bind (rc_mutex_release mtx.rc_mtx)
      (λ rc_mtx. some (thrd_success, record mtx { rc_mtx = rc_mtx }))

-- `__MCF_c11_cnd_timedwait`, after the wait.
unfoldable pub cnd_timedwait : ℤ → ThrdError
cnd_timedwait err = if eqb_ℤ err (pos 0) then thrd_success else thrd_timedout

-- `__MCF_c11_tss_create`: the result, the key and the keys.
unfoldable pub tss_create : Option ℕ → ℕ → Keys → ThrdError × ℕ × Keys
unfolding key_new
tss_create memory dtor_opt keys =
    let (key, keys') = key_new memory dtor_opt keys in
    (if key == 0 then thrd_nomem else thrd_success, key, keys')

-- `__MCF_c11_tss_set`
unfoldable pub tss_set : Option ℕ → ℕ → ℕ → Store → Option (ThrdError × Store)
unfolding xset
tss_set memory key val_opt s =
    bind (xset memory key val_opt s)
      (λ o. some (if eqb_ℤ o.err (pos 0) then thrd_success else thrd_error, o.store))
