-- ===== src/RecursiveMutex/System/Acting.antt =====
-- Each step of a thread keeps what the others see of the recursive mutex of mcfgthread/gthr_aux.h.
use mcfgthread.Base.{
  ℕ, ◌+◌, ◌-◌, ◌≡◌, inl, inr, refl, sym, ◌∙◌, true, false, not, ◌||◌, ◌==◌, ltb, arith, if_ind,
}
use mcfgthread.RecursiveMutex.{
  RcMutex, rc_mutex_recurse, set_owner, set_depth, drop_level, clear_owner, take_depth,
  restore_depth,
}
use mcfgthread.RecursiveMutex.System.{
  Pc, outside, checked, locked, owning, holding, dropping, cleared, saving, parting, waiting,
  relocked, restoring, Thread, tid_of, Action, enter, go, give_up, leave, wait_cond, moving,
  entering, leaving, saving_depth, locking, go_on, act,
}
use mcfgthread.RecursiveMutex.System.View.{
  is_inside, owner_of, depth_of, IsConsistent, Agrees, Good, inside-IsStep, outside-IsStep,
  still-IsStep, at_pc,
}

lock-Good :
    (i : ℕ) (t : Thread) (pc : Pc) (r : RcMutex)
    → (r.locked ≡ false → (r.owner ≡ 0) × (r.depth ≡ 0))
    → IsConsistent (record t { pc = pc })
    → is_inside pc ≡ true
    → owner_of i pc ≡ 0
    → depth_of (record t { pc = pc }) ≡ 0
    → Good i t r (locking t pc r)
lock-Good i t pc r f c inside no_owner no_depth =
    if_ind (λ x. Good i t r x) r.locked (λ _. tt)
      (λ l.
        inside-IsStep i t (record t { pc = pc }) r (record r { locked = true }) c inside (inr l)
          refl ((f l).0 ∙ sym no_owner) ((f l).1 ∙ sym no_depth))

go-Good :
    (i : ℕ) (pc : Pc) (levels unlocked : ℕ) (r : RcMutex)
    → Agrees i (at_pc pc levels unlocked) r
    → (r.locked ≡ false → (r.owner ≡ 0) × (r.depth ≡ 0))
    → Good i (at_pc pc levels unlocked) r (go_on (tid_of i) (at_pc pc levels unlocked) r)
unfolding go_on set_owner set_depth clear_owner restore_depth
go-Good i outside levels unlocked r a f = tt
go-Good i holding levels unlocked r a f = tt
go-Good i checked levels unlocked r a f =
    lock-Good i (at_pc checked levels unlocked) locked r f a.consistent refl refl refl
go-Good i waiting levels unlocked r a f =
    lock-Good i (at_pc waiting levels unlocked) relocked r f a.consistent refl refl refl
go-Good i locked levels unlocked r a f =
    let (l, o, d) = a.inside refl in
    if_ind
      (λ x.
        Good i (at_pc locked levels unlocked) r (moving (at_pc locked levels unlocked) owning x))
      (r.owner == 0)
      (λ _.
        inside-IsStep i (at_pc locked levels unlocked) (at_pc owning levels unlocked) r
          (record r { owner = tid_of i }) a.consistent refl (inl refl) l refl d)
      (λ _. tt)
go-Good i owning levels unlocked r a f =
    let (l, o, d) = a.inside refl in
    if_ind
      (λ x. Good i (at_pc owning levels unlocked) r (moving (at_pc owning 1 unlocked) holding x))
      (r.depth == 0)
      (λ _.
        inside-IsStep i (at_pc owning levels unlocked) (at_pc holding 1 unlocked) r
          (record r { depth = 1 }) (omega arith) refl (inl refl) l o refl)
      (λ _. tt)
go-Good i dropping levels unlocked r a f =
    let (l, o, d) = a.inside refl in
    inside-IsStep i (at_pc dropping levels unlocked) (at_pc cleared levels unlocked) r
      (record r { owner = 0 }) a.consistent refl (inl refl) l refl d
go-Good i cleared levels unlocked r a f =
    let (l, o, d) = a.inside refl in
    outside-IsStep i (at_pc cleared levels unlocked) (at_pc outside levels unlocked) r
      (record r { locked = false }) a.consistent refl refl o d
go-Good i saving levels unlocked r a f =
    let (l, o, d) = a.inside refl in
    inside-IsStep i (at_pc saving levels unlocked) (at_pc parting levels unlocked) r
      (record r { owner = 0 }) a.consistent refl (inl refl) l refl d
go-Good i parting levels unlocked r a f =
    let (l, o, d) = a.inside refl in
    outside-IsStep i (at_pc parting levels unlocked) (at_pc waiting levels unlocked) r
      (record r { locked = false }) a.consistent refl refl o d
go-Good i relocked levels unlocked r a f =
    let (l, o, d) = a.inside refl in
    if_ind
      (λ x.
        Good i (at_pc relocked levels unlocked) r
          (moving (at_pc relocked levels unlocked) restoring x))
      (r.owner == 0)
      (λ _.
        inside-IsStep i (at_pc relocked levels unlocked) (at_pc restoring levels unlocked) r
          (record r { owner = tid_of i }) a.consistent refl (inl refl) l refl d)
      (λ _. tt)
go-Good i restoring levels unlocked r a f =
    let (l, o, d) = a.inside refl in
    if_ind
      (λ x.
        Good i (at_pc restoring levels unlocked) r
          (moving (at_pc restoring levels unlocked) holding x))
      (unlocked == 0) (λ _. tt)
      (λ _.
        inside-IsStep i (at_pc restoring levels unlocked) (at_pc holding levels unlocked) r
          (record r { depth = unlocked }) a.consistent.0 refl (inl refl) l o a.consistent.1)

enter_out-Good :
    (i levels unlocked : ℕ) (r : RcMutex)
    → Agrees i (at_pc outside levels unlocked) r
    → (r.locked ≡ false → (r.owner ≡ 0) × (r.depth ≡ 0))
    → Good i
        (at_pc outside levels unlocked)
        r
        (entering (at_pc outside levels unlocked) (rc_mutex_recurse (tid_of i) r))
unfolding rc_mutex_recurse
enter_out-Good i levels unlocked r a f =
    if_ind
      (λ x. Good i (at_pc outside levels unlocked) r (entering (at_pc outside levels unlocked) x))
      (not (r.owner == tid_of i))
      (λ _.
        still-IsStep i (at_pc outside levels unlocked) (at_pc checked levels unlocked) r a f
          a.consistent refl refl)
      (λ own. absurd (ground (arith, a.owned)))

enter_in-Good :
    (i levels unlocked : ℕ) (r : RcMutex)
    → Agrees i (at_pc holding levels unlocked) r
    → Good i
        (at_pc holding levels unlocked)
        r
        (entering (at_pc holding levels unlocked) (rc_mutex_recurse (tid_of i) r))
unfolding rc_mutex_recurse
enter_in-Good i levels unlocked r a =
    let (l, o, d) = a.inside refl in
    if_ind
      (λ x. Good i (at_pc holding levels unlocked) r (entering (at_pc holding levels unlocked) x))
      (not (r.owner == tid_of i)) (λ other. absurd (ground arith))
      (λ own.
        if_ind
          (λ x.
            Good i (at_pc holding levels unlocked) r (entering (at_pc holding levels unlocked) x))
          (not (ltb r.depth 0x7FFFFFFF)) (λ _. tt)
          (λ _.
            inside-IsStep i (at_pc holding levels unlocked) (at_pc holding (levels + 1) unlocked) r
              (record r { depth = r.depth + 1 }) (omega arith) refl (inl refl) l o (omega arith)))

leave-Good :
    (i levels unlocked : ℕ) (r : RcMutex)
    → Agrees i (at_pc holding levels unlocked) r
    → Good i
        (at_pc holding levels unlocked)
        r
        (leaving (at_pc holding levels unlocked) (drop_level r))
unfolding drop_level
leave-Good i levels unlocked r a =
    let (l, o, d) = a.inside refl in
    if_ind
      (λ x. Good i (at_pc holding levels unlocked) r (leaving (at_pc holding levels unlocked) x))
      ((r.owner == 0) || (r.depth == 0)) (λ _. tt)
      (λ _.
        if_ind (λ x. Good i (at_pc holding levels unlocked) r x) (r.depth - 1 == 0)
          (λ last.
            inside-IsStep i (at_pc holding levels unlocked) (at_pc dropping (levels - 1) unlocked) r
              (record r { depth = r.depth - 1 }) (ground arith) refl (inl refl) l o (ground arith))
          (λ more.
            inside-IsStep i (at_pc holding levels unlocked) (at_pc holding (levels - 1) unlocked) r
              (record r { depth = r.depth - 1 }) (ground arith) refl (inl refl) l o (omega arith)))

save-Good :
    (i levels unlocked : ℕ) (r : RcMutex)
    → Agrees i (at_pc holding levels unlocked) r
    → Good i
        (at_pc holding levels unlocked)
        r
        (saving_depth (at_pc holding levels unlocked) (take_depth r))
unfolding take_depth
save-Good i levels unlocked r a =
    let (l, o, d) = a.inside refl in
    if_ind
      (λ x.
        Good i (at_pc holding levels unlocked) r (saving_depth (at_pc holding levels unlocked) x))
      (r.depth == 0) (λ _. tt)
      (λ _.
        inside-IsStep i (at_pc holding levels unlocked) (at_pc saving levels r.depth) r
          (record r { depth = 0 }) (a.consistent, d) refl (inl refl) l o refl)

pub act-Good :
    (action : Action) (i : ℕ) (pc : Pc) (levels unlocked : ℕ) (r : RcMutex)
    → Agrees i (at_pc pc levels unlocked) r
    → (r.locked ≡ false → (r.owner ≡ 0) × (r.depth ≡ 0))
    → Good i (at_pc pc levels unlocked) r (act action (tid_of i) (at_pc pc levels unlocked) r)
unfolding act
act-Good go i pc levels unlocked r a f = go-Good i pc levels unlocked r a f
act-Good enter i outside levels unlocked r a f = enter_out-Good i levels unlocked r a f
act-Good enter i holding levels unlocked r a f = enter_in-Good i levels unlocked r a
act-Good give_up i checked levels unlocked r a f =
    still-IsStep i (at_pc checked levels unlocked) (at_pc outside levels unlocked) r a f
      a.consistent refl refl
act-Good leave i holding levels unlocked r a f = leave-Good i levels unlocked r a
act-Good wait_cond i holding levels unlocked r a f = save-Good i levels unlocked r a
act-Good enter i checked levels unlocked r a f = tt
act-Good enter i locked levels unlocked r a f = tt
act-Good enter i owning levels unlocked r a f = tt
act-Good enter i dropping levels unlocked r a f = tt
act-Good enter i cleared levels unlocked r a f = tt
act-Good enter i saving levels unlocked r a f = tt
act-Good enter i parting levels unlocked r a f = tt
act-Good enter i waiting levels unlocked r a f = tt
act-Good enter i relocked levels unlocked r a f = tt
act-Good enter i restoring levels unlocked r a f = tt
act-Good give_up i outside levels unlocked r a f = tt
act-Good give_up i locked levels unlocked r a f = tt
act-Good give_up i owning levels unlocked r a f = tt
act-Good give_up i holding levels unlocked r a f = tt
act-Good give_up i dropping levels unlocked r a f = tt
act-Good give_up i cleared levels unlocked r a f = tt
act-Good give_up i saving levels unlocked r a f = tt
act-Good give_up i parting levels unlocked r a f = tt
act-Good give_up i waiting levels unlocked r a f = tt
act-Good give_up i relocked levels unlocked r a f = tt
act-Good give_up i restoring levels unlocked r a f = tt
act-Good leave i outside levels unlocked r a f = tt
act-Good leave i checked levels unlocked r a f = tt
act-Good leave i locked levels unlocked r a f = tt
act-Good leave i owning levels unlocked r a f = tt
act-Good leave i dropping levels unlocked r a f = tt
act-Good leave i cleared levels unlocked r a f = tt
act-Good leave i saving levels unlocked r a f = tt
act-Good leave i parting levels unlocked r a f = tt
act-Good leave i waiting levels unlocked r a f = tt
act-Good leave i relocked levels unlocked r a f = tt
act-Good leave i restoring levels unlocked r a f = tt
act-Good wait_cond i outside levels unlocked r a f = tt
act-Good wait_cond i checked levels unlocked r a f = tt
act-Good wait_cond i locked levels unlocked r a f = tt
act-Good wait_cond i owning levels unlocked r a f = tt
act-Good wait_cond i dropping levels unlocked r a f = tt
act-Good wait_cond i cleared levels unlocked r a f = tt
act-Good wait_cond i saving levels unlocked r a f = tt
act-Good wait_cond i parting levels unlocked r a f = tt
act-Good wait_cond i waiting levels unlocked r a f = tt
act-Good wait_cond i relocked levels unlocked r a f = tt
act-Good wait_cond i restoring levels unlocked r a f = tt
