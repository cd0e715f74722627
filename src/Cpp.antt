-- ===== src/Cpp.antt =====
-- The C++ classes `recursive_mutex` and `thread_specific_ptr` of mcfgthread/cxx11.hpp. `none` is a failed
-- assertion. The result of `_MCF_mutex_lock` is an argument.
pub mod Pointers
pub mod Locks
pub mod AtExit
pub mod Times
pub mod Starting
use mcfgthread.Base.{
  ℕ, ◌+◌, Option, none, some, Bool, true, false, ◌||◌, ◌==◌, if◌then◌else◌, ltb_ℤ, ℤ, pos, eqb_ℤ,
  List, [], ◌∷◌,
}
use mcfgthread.RecursiveMutex.{RcMutex, rc_mutex_recurse, rc_mutex_wait, rc_mutex_release, bind}
use mcfgthread.Tls.{Store, Outcome, get, xset, key_get_destructor}
use mcfgthread.Tls.Pop.{Call}

abbrev pub got_lock : ℤ × RcMutex → Bool × RcMutex
got_lock (err, rmtx) = (eqb_ℤ err (pos 0), rmtx)

-- `if(__err != 0) __err = ::__MCF_gthr_rc_mutex_wait(this->_M_rmtx, ...);`
unfoldable pub wait_unless_owned : ℤ → ℕ → ℤ × RcMutex → Option (Bool × RcMutex)
unfolding rc_mutex_wait
wait_unless_owned lock_err tid (err, rmtx) =
    if eqb_ℤ err (pos 0)
    then some (true, rmtx)
    else bind (rc_mutex_wait lock_err tid rmtx) (λ x. some (got_lock x))

-- `recursive_mutex::try_lock`, and `try_lock_until` and `try_lock_for`, which differ in the timeout.
unfoldable pub try_lock : ℤ → ℕ → RcMutex → Option (Bool × RcMutex)
unfolding rc_mutex_recurse wait_unless_owned
try_lock lock_err tid rmtx = bind (rc_mutex_recurse tid rmtx) (wait_unless_owned lock_err tid)

-- `thread_specific_ptr::get`; the key of a pointer is its address.
unfoldable pub get_pointer : ℕ → Store → ℕ
unfolding get
get_pointer key s = get s.keys s.table key

-- The cleanup calls of a reset, or an exception.
pub data Reset : Type 0 where
  not_enough_memory : Store → Reset
  cleaned_up : List Call → Store → Reset

abbrev pub cleanup : ℕ → ℕ → List Call
cleanup ptr_old dtor =
    if (ptr_old == 0) || (dtor == 0) then [] else record { dtor = dtor; value = ptr_old } ∷ []

-- `thread_specific_ptr::reset`
unfoldable pub reset : Option ℕ → ℕ → ℕ → Store → Option Reset
unfolding xset key_get_destructor
reset memory key ptr s = bind (xset memory key ptr s) (λ o. some (
    if ltb_ℤ o.err (pos 0)
    then not_enough_memory o.store
    else cleaned_up (cleanup o.old_value (key_get_destructor key o.store.keys)) o.store))

-- `thread_specific_ptr::release`
unfoldable pub release : Option ℕ → ℕ → Store → Option (ℕ × Store)
unfolding xset
release memory key s = bind (xset memory key 0 s) (λ o. some (o.old_value, o.store))
