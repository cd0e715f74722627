-- ===== src/RecursiveMutex/System.antt =====
-- Threads that use a recursive mutex of mcfgthread/gthr_aux.h together, one shared access at a time.
pub mod View
pub mod Acting
pub mod Invariant
pub mod Owning
use mcfgthread.Base.{
  ℕ, zero, suc, ◌+◌, ◌-◌, Option, none, some, Bool, true, false, not, ◌&&◌, ◌||◌, ◌==◌,
  if◌then◌else◌, ℤ, pos, negsuc, eqb_ℤ, ◌≡◌,
}
use mcfgthread.Base.Family.{assign}
use mcfgthread.RecursiveMutex.{
  RcMutex, rc_mutex_init, rc_mutex_recurse, set_owner, set_depth, drop_level, clear_owner, unlock,
  take_depth, restore_depth,
}

-- What a thread does next. `locked` to `holding` is the end of `__MCF_gthr_rc_mutex_wait`, `dropping` and
-- `cleared` the end of `__MCF_gthr_rc_mutex_release`, `saving` and `parting` the end of the callback that
-- unlocks for a condition variable, and `waiting` to `restoring` the callback that locks again.
pub data Pc : Type 0 where
  outside : Pc
  checked : Pc
  locked : Pc
  owning : Pc
  holding : Pc
  dropping : Pc
  cleared : Pc
  saving : Pc
  parting : Pc
  waiting : Pc
  relocked : Pc
  restoring : Pc

-- `levels` counts the locks that the thread has made and not undone; `unlocked` is the result of the
-- callback that unlocks. No function reads `levels`.
pub record Thread : Type 0 where
  pub pc : Pc
  pub levels : ℕ
  pub unlocked : ℕ

pub record System : Type 0 where
  pub rmtx : RcMutex
  pub thread : ℕ → Thread

-- The identifier of the thread with a number.
abbrev pub tid_of : ℕ → ℕ
tid_of i = suc i

pub data Action : Type 0 where
  enter : Action
  go : Action
  give_up : Action
  leave : Action
  wait_cond : Action

-- `failed` is a failed assertion; `blocked` is a step that cannot be made.
pub data Result : Type 0 where
  blocked : Result
  failed : Result
  next : Thread → RcMutex → Result

abbrev pub moving : Thread → Pc → Option RcMutex → Result
moving t pc none = failed
moving t pc (some r) = next (record t { pc = pc }) r

abbrev pub entering : Thread → Option (ℤ × RcMutex) → Result
entering t none = failed
entering t (some (err, r)) =
    if eqb_ℤ err (pos 0)
    then next (record t { pc = holding; levels = t.levels + 1 }) r
    else next (record t { pc = checked }) r

abbrev pub leaving : Thread → Option RcMutex → Result
leaving t none = failed
leaving t (some r) =
    if r.depth == 0
    then next (record t { pc = dropping; levels = t.levels - 1 }) r
    else next (record t { pc = holding; levels = t.levels - 1 }) r

abbrev pub saving_depth : Thread → Option (ℕ × RcMutex) → Result
saving_depth t none = failed
saving_depth t (some (unlocked, r)) = next (record t { pc = saving; unlocked = unlocked }) r

-- `_MCF_mutex_lock` succeeds if the mutex is not locked.
abbrev pub locking : Thread → Pc → RcMutex → Result
locking t pc r =
    if r.locked then blocked else next (record t { pc = pc }) (record r { locked = true })

unfoldable pub go_on : ℕ → Thread → RcMutex → Result
unfolding set_owner set_depth clear_owner restore_depth
go_on tid t r = elim t.pc [
  | checked ↦ locking t locked r
  | locked ↦ moving t owning (set_owner tid r)
  | owning ↦ moving (record t { levels = 1 }) holding (set_depth r)
  | dropping ↦ next (record t { pc = cleared }) (clear_owner r)
  | cleared ↦ next (record t { pc = outside }) (unlock r)
  | saving ↦ next (record t { pc = parting }) (clear_owner r)
  | parting ↦ next (record t { pc = waiting }) (unlock r)
  | waiting ↦ locking t relocked r
  | relocked ↦ moving t restoring (set_owner tid r)
  | restoring ↦ moving t holding (restore_depth t.unlocked r)
  | outside ↦ blocked
  | holding ↦ blocked
]

-- One step of a thread.
unfoldable pub act : Action → ℕ → Thread → RcMutex → Result
unfolding go_on rc_mutex_recurse drop_level take_depth
act go tid t r = go_on tid t r
act enter tid t r = elim t.pc [
  | outside ↦ entering t (rc_mutex_recurse tid r)
  | holding ↦ entering t (rc_mutex_recurse tid r)
  | _ ↦ blocked
]
act give_up tid t r = elim t.pc [ checked ↦ next (record t { pc = outside }) r | _ ↦ blocked ]
act leave tid t r = elim t.pc [ holding ↦ leaving t (drop_level r) | _ ↦ blocked ]
act wait_cond tid t r = elim t.pc [ holding ↦ saving_depth t (take_depth r) | _ ↦ blocked ]

abbrev pub start : System
start = record {
  rmtx = rc_mutex_init;
  thread = λ _. record { pc = outside; levels = 0; unlocked = 0 };
}

-- A state that threads can bring about.
pub data Reachable : System → Type 0 where
  starts : Reachable start
  steps :
      (s : System) (action : Action) (i : ℕ) (t : Thread) (r : RcMutex)
      → Reachable s
      → act action (tid_of i) (s.thread i) s.rmtx ≡ next t r
      → Reachable (record { rmtx = r; thread = assign i t s.thread })
