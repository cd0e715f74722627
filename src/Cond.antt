-- ===== src/Cond.antt =====
-- The condition variable: mcfgthread/src/cond.c and mcfgthread/cond.h, with 64-bit pointers.
pub mod Laws
use mcfgthread.Base.{
  ℕ, ◌+◌, ◌-◌, ◌%◌, ◌^◌, Option, none, some, Bool, true, false, ◌==◌, ltb, if◌then◌else◌, ℤ, pos,
  negsuc, ℕ_discrete,
}
use mcfgthread.Waitable.Machine.{Attempt, sleep, Reply, refuse, wake, Ops}
use mcfgthread.Waitable.Holding.{Holding}

-- `struct __MCF_cond`
pub record Cond : Type 0 where
  pub reserved_bits : ℕ
  pub nsleep : ℕ

unfoldable pub Cond-discrete : Discrete Cond
Cond-discrete = hlevel ℕ_discrete

-- `_MCF_cond_init`
abbrev pub init : Cond
init = record { reserved_bits = 0; nsleep = 0 }

pub data Phase : Type 0 where
  allocate : Phase

pub data Call : Type 0 where
  unlock_and_wait : Call

pub data Signal : Type 0 where
  signal_some : (limit : ℕ) → Signal

-- The first `for(;;)` of `do_unlock_and_wait`.
unfoldable pub attempt : Call → Phase → Bool → Cond → Attempt Cond Phase
attempt unlock_and_wait allocate no_wait old =
    sleep (record { reserved_bits = 0; nsleep = (old.nsleep + 1) % 2 ^ 55 })

-- The wait has timed out.
unfoldable pub leave : Cond → Option (Cond × ℤ)
leave old =
    if old.nsleep == 0
    then none
    else some (
      record { reserved_bits = 0; nsleep = (old.nsleep + 2 ^ 64 - 1) % 2 ^ 64 % 2 ^ 55 },
      negsuc 0,
    )

-- `_MCF_minz`
abbrev pub minz : ℕ → ℕ → ℕ
minz x y = if ltb y x then y else x

-- `_MCF_cond_signal_some_slow`; the result is the number of threads that are released.
unfoldable pub signal : Signal → Holding → Cond → Reply Cond Holding
signal (signal_some limit) r old =
    if limit == 0
    then refuse (pos 0)
    else if old.nsleep == 0
    then refuse (pos 0)
    else let wake_num = minz old.nsleep limit in
      wake
        (record { reserved_bits = 0; nsleep = (old.nsleep + 2 ^ 64 - wake_num) % 2 ^ 64 % 2 ^ 55 })
        wake_num (pos wake_num) r

-- `_MCF_cond_signal_some`: the result, or `none` to call the slow function; `_MCF_cond_signal` and
-- `_MCF_cond_signal_all` call it with 1 and with `SIZE_MAX`.
unfoldable pub signal_fast : Cond → Option ℤ
signal_fast old = if old.nsleep == 0 then some (pos 0) else none

abbrev pub signal_one : Signal
signal_one = signal_some 1

abbrev pub signal_all : Signal
signal_all = signal_some (2 ^ 64 - 1)

abbrev pub ops : Ops Cond Phase Holding Call Signal
ops = record {
  word_discrete = Cond-discrete;
  first = allocate;
  poll = λ _ _. none;
  attempt = attempt;
  leave = leave;
  restarts = false;
  role_after = λ _ _ r. r;
  signal = signal;
  exchanges = λ _. false;
}

-- `_MCF_cond_wait` and the order of `do_unlock_and_wait`. `U` is the state of the condition variable,
-- of the caller and of its lock; `allocate_count` is what happens up to the compare-exchange that
-- counts the thread, `unlock_opt` and `relock_opt` are the callbacks, and `wait_for` is what happens
-- from the end of the unlocking callback to the end of the wait, with the result of the wait.
unfoldable pub cond_wait :
    {U : Type 0} → (U → U) → Option (U → U × ℤ) → Option (ℤ → U → U) → (U → U × ℤ) → U → U × ℤ
cond_wait allocate_count none relock_opt wait_for u = wait_for (allocate_count u)
cond_wait allocate_count (some unlock) none wait_for u = wait_for (unlock (allocate_count u)).0
cond_wait allocate_count (some unlock) (some relock) wait_for u =
    let (u1, unlocked) = unlock (allocate_count u) in
    let (u2, err) = wait_for u1 in (relock unlocked u2, err)
