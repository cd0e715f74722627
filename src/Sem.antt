-- ===== src/Sem.antt =====
-- The semaphore: mcfgthread/src/sem.c and mcfgthread/sem.h, with 64-bit pointers.
pub mod Laws
use mcfgthread.Base.{
  ℕ, ◌+◌, ◌-◌, ◌^◌, Option, none, some, Bool, true, false, not, ◌||◌, if◌then◌else◌, ltb, ℤ, pos,
  negsuc, neg_part, sub_ℕ, ◌+ℤ◌, ltb_ℤ, eqb_ℤ, ℕ_discrete,
}
use mcfgthread.Waitable.Machine.{Attempt, done, swap, sleep, Reply, refuse, wake, Ops}
use mcfgthread.Waitable.Holding.{Holding}

-- `struct __MCF_sem`: an `intptr_t`; a negative value counts sleeping threads.
pub record Sem : Type 0 where
  pub value : ℤ

ℤ-discrete : Discrete ℤ
ℤ-discrete = hlevel ℕ_discrete

unfoldable pub Sem-discrete : Discrete Sem
unfolding ℤ-discrete
Sem-discrete = hlevel ℤ-discrete

abbrev pub value_max : ℤ
value_max = pos (2 ^ 63 - 1)

-- `_MCF_sem_init`: the result, and the word where it is written.
unfoldable pub init : ℤ → ℤ × Option Sem
init value_init =
    if ltb_ℤ value_init (pos 0) || ltb_ℤ value_max value_init
    then (negsuc 0, none)
    else (pos 0, some (record { value = value_init }))

-- `_MCF_sem_get`
unfoldable pub get : Sem → ℤ
get sem = sem.value

pub data Phase : Type 0 where
  wait_loop : Phase

pub data Call : Type 0 where
  wait : Call

-- `_MCF_sem_signal` is `signal_some` of 1.
pub data Signal : Type 0 where
  signal_some : (value_add : ℤ) → Signal

-- The `for(;;)` of `_MCF_sem_wait`.
unfoldable pub attempt : Call → Phase → Bool → Sem → Attempt Sem Phase
attempt wait wait_loop no_wait old =
    if ltb_ℤ (pos 0) old.value
    then swap (record { value = old.value +ℤ negsuc 0 }) (pos 0)
    else if no_wait
    then done (negsuc 0)
    else sleep (record { value = old.value +ℤ negsuc 0 })

-- The wait has timed out.
unfoldable pub leave : Sem → Option (Sem × ℤ)
leave old =
    if not (ltb_ℤ old.value (pos 0))
    then none
    else some (record { value = old.value +ℤ pos 1 }, negsuc 0)

-- `_MCF_minz`
abbrev pub minz : ℕ → ℕ → ℕ
minz x y = if ltb y x then y else x

-- `_MCF_dim(0, x)`
abbrev pub dim_0 : ℤ → ℕ
dim_0 x = if ltb_ℤ x (pos 0) then neg_part x else 0

abbrev pub magnitude : ℤ → ℕ
magnitude (pos n) = n
magnitude (negsuc n) = 0

abbrev pub opposite : ℤ → ℤ
opposite (pos n) = sub_ℕ 0 n
opposite (negsuc n) = pos (n + 1)

-- `_MCF_sem_signal_some`
unfoldable pub signal : Signal → Holding → Sem → Reply Sem Holding
signal (signal_some value_add) r old =
    if ltb_ℤ value_add (pos 0) || ltb_ℤ value_max value_add
    then refuse (negsuc 0)
    else if eqb_ℤ value_add (pos 0)
    then refuse (pos 0)
    else if ltb_ℤ (value_max +ℤ opposite value_add) old.value
    then refuse (negsuc 1)
    else wake (record { value = old.value +ℤ value_add })
        (minz (dim_0 old.value) (magnitude value_add)) (pos 0) r

abbrev pub ops : Ops Sem Phase Holding Call Signal
ops = record {
  word_discrete = Sem-discrete;
  first = wait_loop;
  poll = λ _ _. none;
  attempt = attempt;
  leave = leave;
  restarts = false;
  role_after = λ _ _ r. r;
  signal = signal;
  exchanges = λ _. false;
}
