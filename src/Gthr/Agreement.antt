-- ===== src/Gthr/Agreement.antt =====
-- The two interfaces of mcfgthread/gthr.h and mcfgthread/c11.h agree, and a join gets the result.
use Prim.Native.Nat.{bit_and}
use mcfgthread.Base.{ℕ, ◌≡◌, inl, inr, refl, Option, none, some, true, ℤ, pos, eqb_ℤ, Bool-cases}
use mcfgthread.RecursiveMutex.{RcMutex, rc_mutex_recurse, rc_mutex_wait, rc_mutex_release, bind}
use mcfgthread.Gthr
use mcfgthread.IsoC
use mcfgthread.IsoC.{
  recursed, ThrdError, thrd_success, thrd_busy, thrd_error, thrd_nomem, thrd_timedout, Mtx,
  mtx_check_recursion, after_check, mtx_lock, mtx_timedlock, mtx_trylock, mtx_unlock,
}
use mcfgthread.Gthr.{
  Errno, after_recurse, gthr_recursive_mutex_lock, gthr_recursive_mutex_trylock,
  gthr_recursive_mutex_timedlock, gthr_recursive_mutex_unlock, ThreadRecord, Ending, returned,
  exited, terminated, gthread_routine, gthr_thread_exit, gthr_thread_create, gthr_thread_join,
}

-- A result of one interface for a result of the other.
abbrev pub errno_of : Errno → ThrdError → ℕ
errno_of errno err = elim err [
  | thrd_success ↦ 0
  | thrd_busy ↦ errno.ebusy
  | thrd_error ↦ errno.einval
  | thrd_nomem ↦ errno.enomem
  | thrd_timedout ↦ errno.etimedout
]

abbrev pub as_errno : Errno → Option (ThrdError × Mtx) → Option (ℕ × RcMutex)
as_errno errno none = none
as_errno errno (some (err, mtx)) = some (errno_of errno err, mtx.rc_mtx)

-- A mutex of ISO C threads that is timed and recursive.
abbrev pub full_mtx : RcMutex → Mtx
full_mtx rmtx = record { type = 3; rc_mtx = rmtx }

locks_agree :
    (errno : Errno) (failure : ThrdError) (lock_err : ℤ) (tid : ℕ) (mtx : Mtx)
    (o : Option (ℤ × RcMutex))
    → bit_and mtx.type 1 ≡ 1
    → bind o (after_recurse (errno_of errno failure) lock_err tid)
      ≡ as_errno errno
          (bind (bind o (λ x. some (recursed mtx x))) (after_check failure lock_err tid))
unfolding after_recurse after_check
locks_agree errno failure lock_err tid mtx none recursive = refl
locks_agree errno failure lock_err tid mtx (some (err, r)) recursive =
    elim (Bool-cases (eqb_ℤ err (pos 0))) [
      | inl accepted ↦ rw accepted (rw recursive refl)
      | inr refused ↦ rw refused (wait_agrees (rc_mutex_wait lock_err tid r))
    ]
  where
    wait_agrees :
        (w : Option (ℤ × RcMutex))
        → bind w (λ x. some (Gthr.waited (errno_of errno failure) x))
          ≡ as_errno errno (bind w (λ x. some (IsoC.waited failure (record mtx { rc_mtx = r }) x)))
    wait_agrees none = refl
    wait_agrees (some (e, r2)) = elim (Bool-cases (eqb_ℤ e (pos 0))) [
      | inl done ↦ rw done refl
      | inr late ↦ rw late refl
    ]

unlock_agrees :
    (errno : Errno) (rmtx : RcMutex) (o : Option RcMutex)
    → bind o (λ r. some (0, r))
      ≡ as_errno errno (bind o (λ r. some (thrd_success, record (full_mtx rmtx) { rc_mtx = r })))
unlock_agrees errno rmtx none = refl
unlock_agrees errno rmtx (some r) = refl

-- The same mutex gets the same locks: on any recursive mutex, locking, timed locking, trying to lock and
-- unlocking have the same effect and corresponding results through both interfaces, with the same
-- failures of assertions.
pub interfaces_agree :
    (errno : Errno) (lock_err : ℤ) (tid : ℕ) (rmtx : RcMutex)
    → (gthr_recursive_mutex_lock tid rmtx ≡ as_errno errno (mtx_lock tid (full_mtx rmtx)))
      × (gthr_recursive_mutex_trylock errno lock_err tid rmtx
          ≡ as_errno errno (mtx_trylock lock_err tid (full_mtx rmtx)))
      × (gthr_recursive_mutex_timedlock errno lock_err tid rmtx
          ≡ as_errno errno (mtx_timedlock lock_err tid (full_mtx rmtx)))
      × (gthr_recursive_mutex_unlock rmtx ≡ as_errno errno (mtx_unlock (full_mtx rmtx)))
unfolding gthr_recursive_mutex_lock gthr_recursive_mutex_trylock gthr_recursive_mutex_timedlock
    gthr_recursive_mutex_unlock mtx_lock mtx_trylock mtx_timedlock mtx_unlock mtx_check_recursion
interfaces_agree errno lock_err tid rmtx =
    let o = rc_mutex_recurse tid rmtx in
    (
      locks_agree errno thrd_success (pos 0) tid (full_mtx rmtx) o refl,
      locks_agree errno thrd_busy lock_err tid (full_mtx rmtx) o refl,
      locks_agree errno thrd_timedout lock_err tid (full_mtx rmtx) o refl,
      unlock_agrees errno rmtx (rc_mutex_release rmtx),
    )

-- The joining thread gets what the thread's procedure returned, or what it passed to the exit function,
-- and the mark of a cancelled thread otherwise.
pub join-routine :
    (cancelled arg : ℕ) (proc : ℕ → Ending)
    → gthr_thread_join (gthread_routine cancelled proc (gthr_thread_create arg)) ≡ elim (proc arg) [
      | returned result ↦ result
      | exited result ↦ result
      | terminated ↦ cancelled
    ]
unfolding gthr_thread_join gthread_routine gthr_thread_exit gthr_thread_create
join-routine cancelled arg proc = ends (proc arg)
  where
    ends :
        (e : Ending)
        → gthr_thread_join (elim e [
          | returned result ↦ some (record { is_gthread = true; arg_or_result = result })
          | exited result ↦
              gthr_thread_exit result
                (some (record { is_gthread = true; arg_or_result = cancelled }))
          | terminated ↦ some (record { is_gthread = true; arg_or_result = cancelled })
        ])
          ≡ elim e [ returned result ↦ result | exited result ↦ result | terminated ↦ cancelled ]
    ends (returned result) = refl
    ends (exited result) = refl
    ends terminated = refl
