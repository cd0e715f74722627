-- ===== src/Cpp/Locks.antt =====
-- The class `recursive_mutex` of mcfgthread/cxx11.hpp agrees with the functions of mcfgthread/gthr.h.
use mcfgthread.Base.{
  ℕ, ◌≡◌, ◌≢◌, refl, Option, none, some, Bool, inl, inr, ◌==◌, ℤ, pos, eqb_ℤ, Bool-cases, arith,
}
use mcfgthread.RecursiveMutex.{RcMutex, rc_mutex_recurse, rc_mutex_wait, bind}
use mcfgthread.Gthr
use mcfgthread.Gthr.{Errno, after_recurse, gthr_recursive_mutex_trylock}
use mcfgthread.Cpp.{got_lock, wait_unless_owned, try_lock}

abbrev pub as_bool : Option (ℕ × RcMutex) → Option (Bool × RcMutex)
as_bool o = bind o (λ x. some (x.0 == 0, x.1))

wait_agrees :
    (failure : ℕ)
    → failure ≢ 0
    → (w : Option (ℤ × RcMutex))
    → bind w (λ x. some (got_lock x)) ≡ as_bool (bind w (λ x. some (Gthr.waited failure x)))
wait_agrees failure busy none = refl
wait_agrees failure busy (some (err, r)) = elim (Bool-cases (eqb_ℤ err (pos 0))) [
  | inl got ↦ rw got refl
  | inr missed ↦ rw missed (ground arith)
]

recursion_agrees :
    (errno : Errno) (lock_err : ℤ) (tid : ℕ) (o : Option (ℤ × RcMutex))
    → errno.ebusy ≢ 0
    → bind o (wait_unless_owned lock_err tid)
      ≡ as_bool (bind o (after_recurse errno.ebusy lock_err tid))
unfolding wait_unless_owned after_recurse
recursion_agrees errno lock_err tid none busy = refl
recursion_agrees errno lock_err tid (some (err, r)) busy = elim (Bool-cases (eqb_ℤ err (pos 0))) [
  | inl owned ↦ rw owned refl
  | inr other ↦ rw other (wait_agrees errno.ebusy busy (rc_mutex_wait lock_err tid r))
]

-- The class's try_lock has the same effect as the function for GCC, and returns true exactly where that
-- returns 0, if the number of the error is not 0.
pub try_lock-trylock :
    (errno : Errno) (lock_err : ℤ) (tid : ℕ) (rmtx : RcMutex)
    → errno.ebusy ≢ 0
    → try_lock lock_err tid rmtx ≡ as_bool (gthr_recursive_mutex_trylock errno lock_err tid rmtx)
unfolding try_lock gthr_recursive_mutex_trylock
try_lock-trylock errno lock_err tid rmtx busy =
    recursion_agrees errno lock_err tid (rc_mutex_recurse tid rmtx) busy
