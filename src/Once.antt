-- ===== src/Once.antt =====
-- The once-initialization flag: mcfgthread/src/once.c and mcfgthread/once.h, with 64-bit pointers;
-- also the guards of mcfgthread/src/cxa.c, whose storage is such a flag.
pub mod Laws
pub mod Single
pub mod Fast
use mcfgthread.Base.{
  ℕ, zero, suc, ◌+◌, ◌-◌, ◌*◌, ◌/◌, ◌%◌, ◌^◌, Option, none, some, Bool, not, ◌==◌, if◌then◌else◌, ℤ,
  pos, negsuc, ℕ_discrete,
}
use mcfgthread.Waitable.Machine.{Attempt, done, swap, sleep, Reply, wake, Ops}
use mcfgthread.Waitable.Holding.{Holding}

-- `struct __MCF_once`
pub record Once : Type 0 where
  pub ready : ℕ
  pub locked : ℕ
  pub nsleep : ℕ

unfoldable pub Once-discrete : Discrete Once
Once-discrete = hlevel ℕ_discrete

-- `_MCF_once_init`
abbrev pub init : Once
init = record { ready = 0; locked = 0; nsleep = 0 }

-- `_MCF_once_wait_slow` is at `try_lock_loop`.
pub data Phase : Type 0 where
  lock_loop : Phase

pub data Call : Type 0 where
  wait : Call

pub data Signal : Type 0 where
  abort release : Signal

-- The `for(;;)` of `_MCF_once_wait_slow`.
unfoldable pub attempt : Call → Phase → Bool → Once → Attempt Once Phase
attempt wait lock_loop no_wait old =
    if not (old.ready == 0)
    then done (pos 0)
    else if old.locked == 0
    then swap (record { ready = 0; locked = 1; nsleep = old.nsleep }) (pos 1)
    else if no_wait
    then done (negsuc 0)
    else sleep (record { ready = 0; locked = 1; nsleep = (old.nsleep + 1) % 2 ^ 55 })

-- `(int) old.__ready - 1`, for an eight-bit `__ready`.
abbrev pub ready_result : ℕ → ℤ
ready_result zero = negsuc 0
ready_result (suc r) = pos r

-- The wait has timed out.
unfoldable pub leave : Once → Option (Once × ℤ)
leave old =
    if old.nsleep == 0
    then none
    else some (
      record old { nsleep = (old.nsleep + 2 ^ 64 - 1) % 2 ^ 64 % 2 ^ 55 },
      ready_result old.ready,
    )

-- The thread that gets 1 is to do the initialization.
unfoldable pub role_after : Call → ℤ → Holding → Holding
role_after wait (pos (suc zero)) r = record r { owns = r.owns + 1 }
role_after wait _ r = r

-- `_MCF_once_abort`: the new word, and the number of threads to release.
unfoldable pub abort_word : Once → Once × ℕ
abort_word old =
    let wake_one = if old.nsleep == 0 then 0 else 1 in
    (
      record {
        ready = old.ready;
        locked = 0;
        nsleep = (old.nsleep + 2 ^ 64 - wake_one) % 2 ^ 64 % 2 ^ 55;
      },
      wake_one,
    )

-- `_MCF_once_release`: the new word, and the number of threads to release.
unfoldable pub release_word : Once → Once × ℕ
release_word old = (record { ready = 1; locked = 0; nsleep = 0 }, old.nsleep)

unfoldable pub signal : Signal → Holding → Once → Reply Once Holding
unfolding abort_word release_word
signal abort r old =
    wake (abort_word old).0 (abort_word old).1 (pos 0) (record r { owns = r.owns - 1 })
signal release r old =
    wake (release_word old).0 (release_word old).1 (pos 0) (record r { owns = r.owns - 1 })

-- `_MCF_once_release` exchanges the word, and `_MCF_once_abort` compares first.
abbrev pub exchanges : Signal → Bool
exchanges abort = Bool.false
exchanges release = Bool.true

abbrev pub ops : Ops Once Phase Holding Call Signal
ops = record {
  word_discrete = Once-discrete;
  first = lock_loop;
  poll = λ _ _. none;
  attempt = attempt;
  leave = leave;
  restarts = Bool.true;
  role_after = role_after;
  signal = signal;
  exchanges = exchanges;
}

-- `_MCF_once_wait`, `_MCF_once_consume_wait`: whether the flag is seen to be ready in the raw
-- integer, without a call of `_MCF_once_wait_slow`. `__ready` has the lowest eight bits.
unfoldable pub pack : Once → ℕ
pack w = w.ready + 2 ^ 8 * (w.locked + 2 * w.nsleep)

unfoldable pub wait_fast : ℕ → Bool
wait_fast old_bits = not (old_bits % 2 == 0)
