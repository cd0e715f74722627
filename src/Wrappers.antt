-- ===== src/Wrappers.antt =====
-- The functions of the interfaces that pass calls on to a lock and turn its results into their own: those
-- for mutexes and read-write locks in mcfgthread/gthr.h, gthr_libobjc.h, libcxx.h and cxx11.hpp. The
-- lock is an interface, `Locks`; Wrappers/Filling fills it with the shared mutex, and Wrappers/Plain with the mutex.
pub mod Filling
pub mod Plain
pub mod Locking
use mcfgthread.Base.{
  ℕ, zero, suc, ◌≡◌, ◌≢◌, Option, none, some, Bool, true, false, ◌==◌, if◌then◌else◌, ℤ, pos,
  negsuc, eqb_ℤ,
}
use mcfgthread.Gthr.{Errno}
use mcfgthread.Cpp.Times.{negated, clamp_duration}

-- A call waits for another thread, fails an assertion, or returns.
pub data Outcome (R W : Type 0) : Type 0 where
  waits : Outcome R W
  fails : Outcome R W
  returns : R → W → Outcome R W

-- A lock of the library, called with an optional timeout, with the laws that the wrappers rely on.
pub record Locks (W : Type 0) : Type 0 where
  pub lock : Option ℤ → W → Outcome ℤ W
  pub unlock : W → W
  pub sound : (timeout_opt : Option ℤ) (w : W) → lock timeout_opt w ≢ fails
  pub untimed : (w w1 : W) (err : ℤ) → lock none w ≡ returns err w1 → err ≡ pos 0

-- What a wrapper makes of the result; `none` is a failed assertion.
abbrev pub then_return : {Q R W : Type 0} → (Q → Option R) → Outcome Q W → Outcome R W
then_return f waits = waits
then_return f fails = fails
then_return f (returns q w) = elim (f q) [ none ↦ fails | some r ↦ returns r w ]

-- `__MCF_ASSERT(__err == 0)` and the result.
abbrev pub asserted : {R : Type 0} → R → ℤ → Option R
asserted r err = if eqb_ℤ err (pos 0) then some r else none

-- `(__err != 0) ? failure : 0`
abbrev pub or_failure : ℕ → ℤ → Option ℕ
or_failure failure err = some (if eqb_ℤ err (pos 0) then 0 else failure)

-- `__err == 0`
abbrev pub succeeded : ℤ → Option Bool
succeeded err = some (eqb_ℤ err (pos 0))

module _ {W : Type 0} (o : Locks W) where
  -- `__MCF_gthr_mutex_lock`, `__MCF_gthr_rwlock_rdlock`, `__MCF_gthr_rwlock_wrlock`
  unfoldable pub gthr_lock : W → Outcome ℕ W
  gthr_lock w = then_return (asserted 0) (o.lock none w)

  -- `__MCF_gthr_mutex_trylock`, `__MCF_gthr_rwlock_tryrdlock`, `__MCF_gthr_rwlock_trywrlock`
  unfoldable pub gthr_trylock : Errno → W → Outcome ℕ W
  gthr_trylock errno w = then_return (or_failure errno.ebusy) (o.lock (some (pos 0)) w)

  -- `__MCF_gthr_mutex_timedlock`, `__MCF_gthr_rwlock_timedrdlock`, `__MCF_gthr_rwlock_timedwrlock`,
  -- when the time has been converted to a timeout.
  unfoldable pub gthr_timedlock : Errno → ℤ → W → Outcome ℕ W
  gthr_timedlock errno timeout w =
      then_return (or_failure errno.etimedout) (o.lock (some timeout) w)

  -- `__MCF_gthr_mutex_unlock`, `__MCF_gthr_rwlock_unlock`
  unfoldable pub gthr_unlock : W → Outcome ℕ W
  gthr_unlock w = returns 0 (o.unlock w)

  -- `__MCF_gthr_objc_mutex_lock`, `__MCF_gthr_objc_mutex_trylock`, `__MCF_gthr_objc_mutex_unlock`
  unfoldable pub objc_lock : W → Outcome ℕ W
  objc_lock w = then_return (asserted 0) (o.lock none w)

  unfoldable pub objc_trylock : W → Outcome ℤ W
  objc_trylock w = then_return (λ err. some err) (o.lock (some (pos 0)) w)

  unfoldable pub objc_unlock : W → Outcome ℕ W
  objc_unlock w = returns 0 (o.unlock w)

  -- `__MCF_libcxx_mutex_lock`, `__MCF_libcxx_mutex_trylock`, `__MCF_libcxx_mutex_unlock`
  unfoldable pub libcxx_lock : W → Outcome ℕ W
  libcxx_lock w = then_return (asserted 0) (o.lock none w)

  unfoldable pub libcxx_trylock : W → Outcome Bool W
  libcxx_trylock w = then_return succeeded (o.lock (some (pos 0)) w)

  unfoldable pub libcxx_unlock : W → Outcome ℕ W
  libcxx_unlock w = returns 0 (o.unlock w)

  -- `lock`, `try_lock`, `try_lock_for` and `unlock` of `mutex` and `shared_mutex`, and `lock_shared`,
  -- `try_lock_shared` and `try_lock_shared_for` of `shared_mutex`
  unfoldable pub cpp_lock : W → Outcome Unit W
  cpp_lock w = then_return (asserted tt) (o.lock none w)

  unfoldable pub cpp_try_lock : W → Outcome Bool W
  cpp_try_lock w = then_return succeeded (o.lock (some (pos 0)) w)

  unfoldable pub cpp_try_lock_for : ℤ → W → Outcome Bool W
  cpp_try_lock_for rel_time w =
      then_return succeeded (o.lock (some (negated (clamp_duration rel_time))) w)

  unfoldable pub cpp_unlock : W → Outcome Unit W
  cpp_unlock w = returns tt (o.unlock w)
