-- ===== src/RecursiveMutex/System/Owning.antt =====
-- Who owns a recursive mutex of mcfgthread/gthr_aux.h that threads use together, and how deep.
use mcfgthread.Base.{
  ℕ, ◌+◌, ◌-◌, ◌≤◌, ◌<◌, ◌≡◌, ◌≢◌, refl, Option, some, true, not, ◌||◌, ◌==◌, ltb, ℤ, pos, negsuc,
  arith, if_ind,
}
use mathlib.Core.Path.{subst}
use mcfgthread.RecursiveMutex.{
  RcMutex, rc_mutex_recurse, set_owner, set_depth, drop_level, clear_owner, take_depth,
  restore_depth,
}
use mcfgthread.RecursiveMutex.System.{
  Pc, outside, checked, locked, owning, holding, dropping, cleared, saving, parting, waiting,
  relocked, restoring, Thread, System, tid_of, Action, enter, go, give_up, leave, wait_cond, Result,
  blocked, failed, next, moving, entering, leaving, saving_depth, go_on, act, Reachable,
}
use mcfgthread.RecursiveMutex.System.View.{is_inside, Agrees, at_pc}
use mcfgthread.RecursiveMutex.System.Invariant.{Reachable-Inv}

-- In every state that threads can bring about, at most one of them is between the locking of the mutex
-- and its unlocking, a wait for a condition variable left out.
pub one_inside :
    (s : System) (i j : ℕ)
    → Reachable s
    → is_inside (s.thread i).pc ≡ true
    → is_inside (s.thread j).pc ≡ true
    → i ≡ j
one_inside s i j reached = (Reachable-Inv s reached).single i j

-- In every state that threads can bring about, the check for recursion, which reads the owner without
-- the lock, succeeds for a thread that holds the mutex, at a depth that is the number of its locks, up
-- to 0x7FFFFFFF; and it fails for a thread outside, whatever the other threads are at.
pub recurse_exact :
    (s : System) (i : ℕ)
    → Reachable s
    → ((s.thread i).pc ≡ holding
        → (s.thread i).levels < 0x7FFFFFFF
        → rc_mutex_recurse (tid_of i) s.rmtx
          ≡ some (pos 0, record s.rmtx { depth = (s.thread i).levels + 1 }))
      × ((s.thread i).pc ≡ outside → rc_mutex_recurse (tid_of i) s.rmtx ≡ some (negsuc 0, s.rmtx))
unfolding rc_mutex_recurse
recurse_exact s i reached =
    let a = (Reachable-Inv s reached).agrees i in
    (λ h bounded. ground (arith, a.inside, h), λ h. ground (arith, a.owned, h))

abbrev Overflows : Action → Thread → Type 0
Overflows action t = (action ≡ enter) × (t.pc ≡ holding) × (0x7FFFFFFF ≤ t.levels)

-- A result is not a failed assertion, or the depth has its bound.
abbrev Safe : Action → Thread → Result → Type 0
Safe action t blocked = Unit
Safe action t failed = Overflows action t
Safe action t (next t' r') = Unit

go-Safe :
    (i : ℕ) (pc : Pc) (levels unlocked : ℕ) (r : RcMutex)
    → Agrees i (at_pc pc levels unlocked) r
    → Safe go (at_pc pc levels unlocked) (go_on (tid_of i) (at_pc pc levels unlocked) r)
unfolding go_on set_owner set_depth clear_owner restore_depth
go-Safe i outside levels unlocked r a = tt
go-Safe i holding levels unlocked r a = tt
go-Safe i checked levels unlocked r a =
    if_ind (Safe go (at_pc checked levels unlocked)) r.locked (λ _. tt) (λ _. tt)
go-Safe i waiting levels unlocked r a =
    if_ind (Safe go (at_pc waiting levels unlocked)) r.locked (λ _. tt) (λ _. tt)
go-Safe i locked levels unlocked r a =
    if_ind
      (λ x. Safe go (at_pc locked levels unlocked) (moving (at_pc locked levels unlocked) owning x))
      (r.owner == 0) (λ _. tt) (λ z. absurd (let (l, o, d) = a.inside refl in ground arith))
go-Safe i owning levels unlocked r a =
    if_ind
      (λ x. Safe go (at_pc owning levels unlocked) (moving (at_pc owning 1 unlocked) holding x))
      (r.depth == 0) (λ _. tt) (λ z. absurd (let (l, o, d) = a.inside refl in ground arith))
go-Safe i dropping levels unlocked r a = tt
go-Safe i cleared levels unlocked r a = tt
go-Safe i saving levels unlocked r a = tt
go-Safe i parting levels unlocked r a = tt
go-Safe i relocked levels unlocked r a =
    if_ind
      (λ x.
        Safe go (at_pc relocked levels unlocked)
          (moving (at_pc relocked levels unlocked) restoring x))
      (r.owner == 0) (λ _. tt) (λ z. absurd (let (l, o, d) = a.inside refl in ground arith))
go-Safe i restoring levels unlocked r a =
    if_ind
      (λ x.
        Safe go (at_pc restoring levels unlocked)
          (moving (at_pc restoring levels unlocked) holding x))
      (unlocked == 0) (λ z. absurd (let (c, u) = a.consistent in ground arith)) (λ _. tt)

enter_out-Safe :
    (i levels unlocked : ℕ) (r : RcMutex)
    → Agrees i (at_pc outside levels unlocked) r
    → Safe enter
        (at_pc outside levels unlocked)
        (entering (at_pc outside levels unlocked) (rc_mutex_recurse (tid_of i) r))
unfolding rc_mutex_recurse
enter_out-Safe i levels unlocked r a =
    if_ind
      (λ x. Safe enter (at_pc outside levels unlocked) (entering (at_pc outside levels unlocked) x))
      (not (r.owner == tid_of i)) (λ _. tt) (λ own. absurd (ground (arith, a.owned)))

enter_in-Safe :
    (i levels unlocked : ℕ) (r : RcMutex)
    → Agrees i (at_pc holding levels unlocked) r
    → Safe enter
        (at_pc holding levels unlocked)
        (entering (at_pc holding levels unlocked) (rc_mutex_recurse (tid_of i) r))
unfolding rc_mutex_recurse
enter_in-Safe i levels unlocked r a =
    let (l, o, d) = a.inside refl in
    let safe = λ (x : Option (ℤ × RcMutex)).
      Safe enter (at_pc holding levels unlocked) (entering (at_pc holding levels unlocked) x) in
    if_ind safe (not (r.owner == tid_of i)) (λ _. tt)
      (λ own.
        if_ind safe (not (ltb r.depth 0x7FFFFFFF)) (λ full. (refl, refl, ground arith)) (λ _. tt))

leave-Safe :
    (i levels unlocked : ℕ) (r : RcMutex)
    → Agrees i (at_pc holding levels unlocked) r
    → Safe leave
        (at_pc holding levels unlocked)
        (leaving (at_pc holding levels unlocked) (drop_level r))
unfolding drop_level
leave-Safe i levels unlocked r a =
    let (l, o, d) = a.inside refl in
    if_ind
      (λ x. Safe leave (at_pc holding levels unlocked) (leaving (at_pc holding levels unlocked) x))
      ((r.owner == 0) || (r.depth == 0)) (λ z. absurd (let c = a.consistent in ground arith))
      (λ _.
        if_ind (Safe leave (at_pc holding levels unlocked)) (r.depth - 1 == 0) (λ _. tt) (λ _. tt))

save-Safe :
    (i levels unlocked : ℕ) (r : RcMutex)
    → Agrees i (at_pc holding levels unlocked) r
    → Safe wait_cond
        (at_pc holding levels unlocked)
        (saving_depth (at_pc holding levels unlocked) (take_depth r))
unfolding take_depth
save-Safe i levels unlocked r a =
    let (l, o, d) = a.inside refl in
    if_ind
      (λ x.
        Safe wait_cond (at_pc holding levels unlocked)
          (saving_depth (at_pc holding levels unlocked) x))
      (r.depth == 0) (λ z. absurd (let c = a.consistent in ground arith)) (λ _. tt)

act-Safe :
    (action : Action) (i : ℕ) (pc : Pc) (levels unlocked : ℕ) (r : RcMutex)
    → Agrees i (at_pc pc levels unlocked) r
    → Safe action (at_pc pc levels unlocked) (act action (tid_of i) (at_pc pc levels unlocked) r)
unfolding act
act-Safe go i pc levels unlocked r a = go-Safe i pc levels unlocked r a
act-Safe enter i outside levels unlocked r a = enter_out-Safe i levels unlocked r a
act-Safe enter i holding levels unlocked r a = enter_in-Safe i levels unlocked r a
act-Safe give_up i checked levels unlocked r a = tt
act-Safe leave i holding levels unlocked r a = leave-Safe i levels unlocked r a
act-Safe wait_cond i holding levels unlocked r a = save-Safe i levels unlocked r a
act-Safe enter i checked levels unlocked r a = tt
act-Safe enter i locked levels unlocked r a = tt
act-Safe enter i owning levels unlocked r a = tt
act-Safe enter i dropping levels unlocked r a = tt
act-Safe enter i cleared levels unlocked r a = tt
act-Safe enter i saving levels unlocked r a = tt
act-Safe enter i parting levels unlocked r a = tt
act-Safe enter i waiting levels unlocked r a = tt
act-Safe enter i relocked levels unlocked r a = tt
act-Safe enter i restoring levels unlocked r a = tt
act-Safe give_up i outside levels unlocked r a = tt
act-Safe give_up i locked levels unlocked r a = tt
act-Safe give_up i owning levels unlocked r a = tt
act-Safe give_up i holding levels unlocked r a = tt
act-Safe give_up i dropping levels unlocked r a = tt
act-Safe give_up i cleared levels unlocked r a = tt
act-Safe give_up i saving levels unlocked r a = tt
act-Safe give_up i parting levels unlocked r a = tt
act-Safe give_up i waiting levels unlocked r a = tt
act-Safe give_up i relocked levels unlocked r a = tt
act-Safe give_up i restoring levels unlocked r a = tt
act-Safe leave i outside levels unlocked r a = tt
act-Safe leave i checked levels unlocked r a = tt
act-Safe leave i locked levels unlocked r a = tt
act-Safe leave i owning levels unlocked r a = tt
act-Safe leave i dropping levels unlocked r a = tt
act-Safe leave i cleared levels unlocked r a = tt
act-Safe leave i saving levels unlocked r a = tt
act-Safe leave i parting levels unlocked r a = tt
act-Safe leave i waiting levels unlocked r a = tt
act-Safe leave i relocked levels unlocked r a = tt
act-Safe leave i restoring levels unlocked r a = tt
act-Safe wait_cond i outside levels unlocked r a = tt
act-Safe wait_cond i checked levels unlocked r a = tt
act-Safe wait_cond i locked levels unlocked r a = tt
act-Safe wait_cond i owning levels unlocked r a = tt
act-Safe wait_cond i dropping levels unlocked r a = tt
act-Safe wait_cond i cleared levels unlocked r a = tt
act-Safe wait_cond i saving levels unlocked r a = tt
act-Safe wait_cond i parting levels unlocked r a = tt
act-Safe wait_cond i waiting levels unlocked r a = tt
act-Safe wait_cond i relocked levels unlocked r a = tt
act-Safe wait_cond i restoring levels unlocked r a = tt

-- In a state that threads can bring about, no assertion of these functions fails in a step of a thread
-- whose locks are fewer than 0x7FFFFFFF.
pub assertions_hold :
    (s : System) (action : Action) (i : ℕ)
    → Reachable s
    → (s.thread i).levels < 0x7FFFFFFF
    → act action (tid_of i) (s.thread i) s.rmtx ≢ failed
assertions_hold s action i reached bounded e =
    let full : Overflows action (s.thread i) = subst (Safe action (s.thread i)) e (
      act-Safe action i (s.thread i).pc (s.thread i).levels (s.thread i).unlocked s.rmtx
        ((Reachable-Inv s reached).agrees i)) in
    omega (arith, full.2)
