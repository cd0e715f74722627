-- ===== src/IsoC/Locking.antt =====
-- What the locking functions of mcfgthread/c11.h return, and what they leave.
use Prim.Native.Nat.{bit_and}
use mcfgthread.Base.{
  ℕ, ◌+◌, ◌≤◌, ◌<◌, ◌≡◌, ◌≢◌, ◌⊎◌, inl, inr, refl, sym, ap, ◌∙◌, some, Bool, true, not, ◌&&◌, ◌==◌,
  if◌then◌else◌, ℤ, pos, negsuc, Bool-cases, arith,
}
use mcfgthread.RecursiveMutex.{
  rc_mutex_init, rc_mutex_recurse, rc_mutex_wait, rc_mutex_release, set_owner, set_depth,
  drop_level, clear_owner, bind,
}
use mcfgthread.RecursiveMutex.Laws.{IsHeld}
use mcfgthread.IsoC.{
  ThrdError, thrd_success, thrd_busy, thrd_error, thrd_timedout, Mtx, mtx_init, mtx_recursive,
  mtx_timed, mtx_check_recursion, after_check, mtx_lock, mtx_timedlock, mtx_trylock, mtx_unlock,
}

abbrev pub is_recursive : Mtx → Bool
is_recursive mtx = not (bit_and mtx.type mtx_recursive == 0)

abbrev pub is_timed : Mtx → Bool
is_timed mtx = not (bit_and mtx.type mtx_timed == 0)

abbrev pub deeper : Mtx → Mtx
deeper mtx = record mtx { rc_mtx = record mtx.rc_mtx { depth = mtx.rc_mtx.depth + 1 } }

abbrev pub taken_by : ℕ → Mtx → Mtx
taken_by tid mtx = record mtx { rc_mtx = record { owner = tid; depth = 1; locked = true } }

-- Called by its holder, a check for recursion accepts it if the type is recursive, and otherwise fails
-- and leaves the mutex as it was.
check-holder :
    (tid : ℕ) (mtx : Mtx)
    → IsHeld tid mtx.rc_mtx
    → mtx.rc_mtx.depth < 0x7FFFFFFF
    → mtx_check_recursion tid mtx
      ≡ some (if is_recursive mtx then (thrd_success, deeper mtx) else (thrd_error, mtx))
unfolding mtx_check_recursion rc_mutex_recurse
check-holder tid mtx (nonzero, o, d, l) bounded =
    elim (Bool-cases (bit_and mtx.type mtx_recursive == 0)) [
      | inl plain ↦ ground arith
      | inr recursive ↦ ground arith
    ]

check-other :
    (tid : ℕ) (mtx : Mtx)
    → mtx.rc_mtx.owner ≢ tid
    → mtx_check_recursion tid mtx ≡ some (thrd_busy, mtx)
unfolding mtx_check_recursion rc_mutex_recurse
check-other tid mtx other = ground arith

-- A mutex that nobody has locked, or that the thread has locked itself.
abbrev pub IsFreeOrHeld : ℕ → Mtx → Type 0
IsFreeOrHeld tid mtx = (mtx.rc_mtx ≡ rc_mutex_init) ⊎ IsHeld tid mtx.rc_mtx

after_check_free :
    (failure : ThrdError) (tid : ℕ) (mtx : Mtx)
    → mtx.rc_mtx ≡ rc_mutex_init
    → after_check failure (pos 0) tid (thrd_busy, mtx) ≡ some (thrd_success, taken_by tid mtx)
unfolding after_check rc_mutex_wait set_owner set_depth
after_check_free failure tid mtx free = rw free refl

after_check_failed :
    (failure : ThrdError) (tid : ℕ) (mtx : Mtx)
    → after_check failure (negsuc 0) tid (thrd_busy, mtx) ≡ some (failure, mtx)
unfolding after_check rc_mutex_wait
after_check_failed failure tid mtx = refl

after_check_held :
    (failure : ThrdError) (lock_err : ℤ) (tid : ℕ) (mtx : Mtx)
    → bind
        (some (if is_recursive mtx then (thrd_success, deeper mtx) else (thrd_error, mtx)))
        (after_check failure lock_err tid)
      ≡ some (if is_recursive mtx then (thrd_success, deeper mtx) else (thrd_error, mtx))
unfolding after_check
after_check_held failure lock_err tid mtx = elim (Bool-cases (is_recursive mtx)) [
  | inl recursive ↦ rw recursive refl
  | inr plain ↦ rw plain refl
]

-- For the holder below depth 0x7FFFFFFF, each of the three functions adds a level if the type is recursive
-- and otherwise returns thrd_error without a change; the timed function returns thrd_error also if the
-- type is not timed.
pub locks_of_holder :
    (tid : ℕ) (mtx : Mtx) (lock_err : ℤ)
    → IsHeld tid mtx.rc_mtx
    → mtx.rc_mtx.depth < 0x7FFFFFFF
    → (mtx_lock tid mtx
        ≡ some (if is_recursive mtx then (thrd_success, deeper mtx) else (thrd_error, mtx)))
      × (mtx_trylock lock_err tid mtx
          ≡ some (if is_recursive mtx then (thrd_success, deeper mtx) else (thrd_error, mtx)))
      × (mtx_timedlock lock_err tid mtx
          ≡ some (
              if is_timed mtx && is_recursive mtx
              then (thrd_success, deeper mtx)
              else (thrd_error, mtx)))
unfolding mtx_lock mtx_trylock mtx_timedlock
locks_of_holder tid mtx lock_err held bounded =
    let check = check-holder tid mtx held bounded in
    (
      ap (λ x. bind x (after_check thrd_success (pos 0) tid)) check
          ∙ after_check_held thrd_success (pos 0) tid mtx,
      ap (λ x. bind x (after_check thrd_busy lock_err tid)) check
          ∙ after_check_held thrd_busy lock_err tid mtx,
      elim (Bool-cases (bit_and mtx.type mtx_timed == 0)) [
        | inl untimed ↦ rw untimed refl
        | inr timed ↦ rw timed (
            ap (λ x. bind x (after_check thrd_timedout lock_err tid)) check
            ∙ after_check_held thrd_timedout lock_err tid mtx)
      ],
    )

-- For any other thread, a free mutex is taken with one level; where the lock is not got, the result is
-- thrd_busy or thrd_timedout, without a change.
pub locks_of_others :
    (tid : ℕ) (mtx : Mtx)
    → mtx.rc_mtx.owner ≢ tid
    → (mtx.rc_mtx ≡ rc_mutex_init
        → (mtx_lock tid mtx ≡ some (thrd_success, taken_by tid mtx))
          × (mtx_trylock (pos 0) tid mtx ≡ some (thrd_success, taken_by tid mtx))
          × (mtx_timedlock (pos 0) tid mtx
              ≡ some
                  (if is_timed mtx then (thrd_success, taken_by tid mtx) else (thrd_error, mtx))))
      × (mtx_trylock (negsuc 0) tid mtx ≡ some (thrd_busy, mtx))
      × (mtx_timedlock (negsuc 0) tid mtx
          ≡ some (if is_timed mtx then (thrd_timedout, mtx) else (thrd_error, mtx)))
unfolding mtx_lock mtx_trylock mtx_timedlock
locks_of_others tid mtx other =
    let check = check-other tid mtx other in
    (
      λ free. (
        ap (λ x. bind x (after_check thrd_success (pos 0) tid)) check
            ∙ after_check_free thrd_success tid mtx free,
        ap (λ x. bind x (after_check thrd_busy (pos 0) tid)) check
            ∙ after_check_free thrd_busy tid mtx free,
        elim (Bool-cases (bit_and mtx.type mtx_timed == 0)) [
          | inl untimed ↦ rw untimed refl
          | inr timed ↦ rw timed (
              ap (λ x. bind x (after_check thrd_timedout (pos 0) tid)) check
              ∙ after_check_free thrd_timedout tid mtx free)
        ],
      ),
      ap (λ x. bind x (after_check thrd_busy (negsuc 0) tid)) check
          ∙ after_check_failed thrd_busy tid mtx,
      elim (Bool-cases (bit_and mtx.type mtx_timed == 0)) [
        | inl untimed ↦ rw untimed refl
        | inr timed ↦ rw timed (
            ap (λ x. bind x (after_check thrd_timedout (negsuc 0) tid)) check
            ∙ after_check_failed thrd_timedout tid mtx)
      ],
    )

unlock_taken :
    (tid : ℕ) (mtx : Mtx)
    → tid ≢ 0
    → mtx.rc_mtx ≡ rc_mutex_init
    → mtx_unlock (taken_by tid mtx) ≡ some (thrd_success, mtx)
unfolding mtx_unlock rc_mutex_release drop_level clear_owner
unlock_taken tid mtx nonzero free = ground (arith, free)

unlock_deeper :
    (tid : ℕ) (mtx : Mtx)
    → IsHeld tid mtx.rc_mtx
    → mtx_unlock (deeper mtx) ≡ some (thrd_success, mtx)
unfolding mtx_unlock rc_mutex_release drop_level clear_owner
unlock_deeper tid mtx (nonzero, o, d, l) = ground arith

-- If the locking of a mutex, which is free or held by the thread itself below depth 0x7FFFFFFF, succeeds
-- for a thread whose identifier is not 0, then the unlocking succeeds and gives back the mutex as it was.
pub mtx_lock-unlock :
    (tid : ℕ) (mtx mtx' : Mtx)
    → tid ≢ 0
    → IsFreeOrHeld tid mtx
    → mtx.rc_mtx.depth < 0x7FFFFFFF
    → mtx_lock tid mtx ≡ some (thrd_success, mtx')
    → mtx_unlock mtx' ≡ some (thrd_success, mtx)
mtx_lock-unlock tid mtx mtx' nonzero (inl free) bounded e =
    let others = locks_of_others tid mtx (λ z. nonzero (sym z ∙ ap (λ r. r.owner) free)) in
    let same : taken_by tid mtx ≡ mtx' = ground (arith, (others.0 free).0) in
    ap mtx_unlock (sym same) ∙ unlock_taken tid mtx nonzero free
mtx_lock-unlock tid mtx mtx' nonzero (inr held) bounded e = elim (Bool-cases (is_recursive mtx)) [
  | inl recursive ↦
      let same : deeper mtx ≡ mtx' =
        ground (arith, (locks_of_holder tid mtx (pos 0) held bounded).0) in
      ap mtx_unlock (sym same) ∙ unlock_deeper tid mtx held
  | inr plain ↦ absurd (ground (arith, (locks_of_holder tid mtx (pos 0) held bounded).0))
]

-- Of the types from 0 on, exactly four are accepted: plain or timed, each of them
-- recursive or not. An accepted mutex is free and has its type; a rejected one stays as it was.
pub mtx_init_lem :
    (mtx : Mtx) (type : ℕ)
    → ((type < 4)
        → mtx_init mtx type ≡ (thrd_success, record { type = type; rc_mtx = rc_mutex_init }))
      × (4 ≤ type → mtx_init mtx type ≡ (thrd_error, mtx))
unfolding mtx_init
mtx_init_lem mtx type = (λ low. ground arith, λ high. ground arith)
