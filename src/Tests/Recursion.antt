-- ===== src/Tests/Recursion.antt =====
-- A thread that locks a recursive mutex twice, and the interface of ISO C to it.
use mcfgthread.Base.{ℕ, ◌+◌, ◌<◌, ◌≡◌, ◌≢◌, inl, refl, true, some, pos, negsuc, arith, ℕ_discrete}
use mcfgthread.Base.Family.{assign}
use mcfgthread.RecursiveMutex.{RcMutex, rc_mutex_init, rc_mutex_recurse, set_owner, set_depth}
use mcfgthread.RecursiveMutex.System.{
  Pc, outside, checked, locked, owning, holding, Thread, System, tid_of, enter, go, failed, act,
  go_on, start, Reachable, starts, steps,
}
use mcfgthread.RecursiveMutex.System.Owning.{one_inside, recurse_exact, assertions_hold}
use mcfgthread.IsoC.{thrd_success, Mtx, mtx_lock, mtx_unlock}
use mcfgthread.IsoC.Locking.{taken_by, locks_of_others, mtx_lock-unlock}

-- The mutex at depth 2, held by the thread 7.
abbrev twice : RcMutex
twice = record { owner = 7; depth = 2; locked = true }

abbrev recursive : Mtx
recursive = record { type = 3; rc_mtx = twice }

abbrev plain : Mtx
plain = record { type = 0; rc_mtx = rc_mutex_init }

plain_locked : mtx_lock 7 plain ≡ some (thrd_success, taken_by 7 plain)
plain_locked = ((locks_of_others 7 plain (omega arith)).0 refl).0

mtx_lock-unlock_example : mtx_unlock (taken_by 7 plain) ≡ some (thrd_success, plain)
mtx_lock-unlock_example =
    mtx_lock-unlock 7 plain (taken_by 7 plain) (omega arith) (inl refl) (omega arith) plain_locked

-- The first thread, from the beginning to its first level.
abbrev at : Pc → ℕ → Thread
at pc levels = record { pc = pc; levels = levels; unlocked = 0 }

abbrev after : System → Thread → RcMutex → System
after s t r = record { rmtx = r; thread = assign 0 t s.thread }

abbrev s1 : System
s1 = after start (at checked 0) rc_mutex_init

abbrev s2 : System
s2 = after s1 (at locked 0) (record { owner = 0; depth = 0; locked = true })

abbrev s3 : System
s3 = after s2 (at owning 0) (record { owner = 1; depth = 0; locked = true })

abbrev s4 : System
s4 = after s3 (at holding 1) (record { owner = 1; depth = 1; locked = true })

s4-Reachable : Reachable s4
unfolding act go_on rc_mutex_recurse set_owner set_depth ℕ_discrete
s4-Reachable =
    steps s3 go 0 (at holding 1) (record { owner = 1; depth = 1; locked = true })
      (steps s2 go 0 (at owning 0) (record { owner = 1; depth = 0; locked = true })
        (steps s1 go 0 (at locked 0) (record { owner = 0; depth = 0; locked = true })
          (steps start enter 0 (at checked 0) rc_mutex_init starts refl) refl)
        refl)
      refl

one_inside_example : ◌≡◌ {A = ℕ} 0 0
unfolding ℕ_discrete
one_inside_example = one_inside s4 0 0 s4-Reachable refl refl

recurse_exact_example :
    ((s4.thread 0).pc ≡ holding
      → (s4.thread 0).levels < 0x7FFFFFFF
      → rc_mutex_recurse (tid_of 0) s4.rmtx
        ≡ some (pos 0, record s4.rmtx { depth = (s4.thread 0).levels + 1 }))
    × ((s4.thread 0).pc ≡ outside → rc_mutex_recurse (tid_of 0) s4.rmtx ≡ some (negsuc 0, s4.rmtx))
recurse_exact_example = recurse_exact s4 0 s4-Reachable

assertions_hold_example : act enter (tid_of 0) (s4.thread 0) s4.rmtx ≢ failed
unfolding ℕ_discrete
assertions_hold_example = assertions_hold s4 enter 0 s4-Reachable (omega arith)
