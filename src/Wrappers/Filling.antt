-- ===== src/Wrappers/Filling.antt =====
-- The shared mutex of mcfgthread/src/shared_mutex.c as a lock for the wrappers, for calls that come one
-- after another: a thread that has to wait times out if its timeout is finite, and waits for ever
-- otherwise, which is also what becomes of a timeout that is out of range.
use mcfgthread.Base.{
  ℕ, ◌+◌, ◌*◌, ◌^◌, ◌<◌, ◌∙◌, if_ind, ◌||◌, not, ◌≡◌, ◌≢◌, inl, inr, ap, Bool-cases, Option, none,
  some, Bool, true, false, ◌&&◌, ◌==◌, ltb, if◌then◌else◌, ℤ, pos, negsuc, eqb_ℤ, arith,
}
use mcfgthread.Timeout.{WinntTimeout, int64_max, initialize_winnt_timeout, start_timeout, is_zero}
use mcfgthread.Waitable.Machine.{Attempt, done, swap, hop, skip, sleep}
use mcfgthread.SharedMutex.{
  SharedMutex, Phase, lock_loop, Call, lock_shared, lock_exclusive, attempt, leave, unlock_word,
  max_share,
}
use mcfgthread.SharedMutex.Laws.{IsWord, unlock_word_lem}
use mcfgthread.Gthr.{Errno}
use mcfgthread.Wrappers.{
  Outcome, waits, fails, returns, Locks, then_return, asserted, or_failure, gthr_lock, gthr_trylock,
  gthr_timedlock, gthr_unlock,
}

-- After a wait has timed out; `none` cannot be, since the thread is counted.
abbrev pub left : Option (SharedMutex × ℤ) → Outcome ℤ SharedMutex
left none = waits
left (some (w, err)) = returns err w

-- A pass of `do_lock_common` without another thread.
abbrev pub passed : WinntTimeout → SharedMutex → Attempt SharedMutex Phase → Outcome ℤ SharedMutex
passed to w (done err) = returns err w
passed to w (swap new err) = returns err new
passed to w (hop new phase) = waits
passed to w (skip phase) = waits
passed to w (sleep new) = if eqb_ℤ to.quad int64_max then waits else left (leave new)

-- `do_lock_common` with the timeout in milliseconds, at the time `now`. INT64_MAX is for no limit.
unfoldable pub lock_alone : ℕ → Call → Option ℤ → SharedMutex → Outcome ℤ SharedMutex
unfolding attempt leave start_timeout is_zero
lock_alone now call timeout_opt w =
    let to = start_timeout timeout_opt now in passed to w (attempt call lock_loop (is_zero to) w)

-- A timeout that an `int64_t` can represent in units of 100 nanoseconds: since 1601 if it is a time
-- since 1970, and as it is if it is a delay.
abbrev pub is_finite : ℤ → Bool
is_finite (pos n) = ltb ((11644473600000 + n) * 10000) (2 ^ 63)
is_finite (negsuc n) = not (ltb (2 ^ 63) ((n + 1) * 10000))

-- Whether the timeout is that of no limit, and whether it is zero.
pub start_timeout-finite :
    (t : ℤ) (now : ℕ) → eqb_ℤ (start_timeout (some t) now).quad int64_max ≡ not (is_finite t)
unfolding start_timeout initialize_winnt_timeout
start_timeout-finite (pos n) now = ground arith
start_timeout-finite (negsuc n) now = ground arith

pub start_timeout-is_zero :
    (t : ℤ) (now : ℕ) → is_zero (start_timeout (some t) now) ≡ eqb_ℤ t (pos 0)
unfolding start_timeout initialize_winnt_timeout is_zero
start_timeout-is_zero (pos n) now = ground arith
start_timeout-is_zero (negsuc n) now = ground arith

-- Whether a thread gets the lock at once, and what it makes of the word.
abbrev pub is_open : Call → SharedMutex → Bool
is_open lock_shared w = ltb w.nshare max_share && (w.nsleep == 0)
is_open lock_exclusive w = w.nshare == 0

abbrev pub taken : Call → SharedMutex → SharedMutex
taken lock_shared w = record { nshare = w.nshare + 1; nsleep = w.nsleep }
taken lock_exclusive w = record { nshare = 0x3FFF; nsleep = w.nsleep }

lock_open :
    (now : ℕ) (call : Call) (timeout_opt : Option ℤ) (w : SharedMutex)
    → is_open call w ≡ true
    → lock_alone now call timeout_opt w ≡ returns (pos 0) (taken call w)
unfolding lock_alone attempt
lock_open now lock_shared timeout_opt w h = ground arith
lock_open now lock_exclusive timeout_opt w h = ground arith

lock_closed :
    (now : ℕ) (call : Call) (w : SharedMutex)
    → is_open call w ≡ false
    → lock_alone now call none w ≡ waits
unfolding lock_alone attempt start_timeout initialize_winnt_timeout is_zero
lock_closed now lock_shared w h = ground arith
lock_closed now lock_exclusive w h = ground arith

closed_pass :
    (to : WinntTimeout) (call : Call) (w : SharedMutex)
    → w.nsleep + 1 < 2 ^ 50
    → is_open call w ≡ false
    → passed to w (attempt call lock_loop (is_zero to) w)
      ≡ (if is_zero to || not (eqb_ℤ to.quad int64_max) then returns (negsuc 0) w else waits)
unfolding attempt leave
closed_pass to lock_shared w few h = ground arith
closed_pass to lock_exclusive w few h = ground arith

lock_expired :
    (now : ℕ) (call : Call) (t : ℤ) (w : SharedMutex)
    → w.nsleep + 1 < 2 ^ 50
    → is_open call w ≡ false
    → lock_alone now call (some t) w ≡ (if is_finite t then returns (negsuc 0) w else waits)
unfolding lock_alone
lock_expired now call t w few h =
    closed_pass (start_timeout (some t) now) call w few h
    ∙ rw (start_timeout-is_zero t now, start_timeout-finite t now) (zero_finite t)
  where
    zero_finite :
        (t : ℤ)
        → ◌≡◌ {A = Outcome ℤ SharedMutex}
            (if eqb_ℤ t (pos 0) || not (not (is_finite t)) then returns (negsuc 0) w else waits)
            (if is_finite t then returns (negsuc 0) w else waits)
    zero_finite (pos n) = ground arith
    zero_finite (negsuc n) = ground arith

left_sound : (o : Option (SharedMutex × ℤ)) → left o ≢ fails
left_sound none = λ e. ground arith
left_sound (some (w, err)) = λ e. ground arith

passed_sound :
    (to : WinntTimeout) (w : SharedMutex) (a : Attempt SharedMutex Phase) → passed to w a ≢ fails
passed_sound to w (done err) = λ e. ground arith
passed_sound to w (swap new err) = λ e. ground arith
passed_sound to w (hop new phase) = λ e. ground arith
passed_sound to w (skip phase) = λ e. ground arith
passed_sound to w (sleep new) =
    if_ind (λ o. o ≢ fails) (eqb_ℤ to.quad int64_max) (λ _ e. ground arith)
      (λ _. left_sound (leave new))

pub lock_alone_sound :
    (now : ℕ) (call : Call) (timeout_opt : Option ℤ) (w : SharedMutex)
    → lock_alone now call timeout_opt w ≢ fails
unfolding lock_alone
lock_alone_sound now call timeout_opt w =
    let to = start_timeout timeout_opt now in
    passed_sound to w (attempt call lock_loop (is_zero to) w)

pub lock_alone-untimed :
    (now : ℕ) (call : Call) (w w1 : SharedMutex) (err : ℤ)
    → lock_alone now call none w ≡ returns err w1
    → err ≡ pos 0
lock_alone-untimed now call w w1 err e = elim (Bool-cases (is_open call w)) [
  | inl free ↦ ground (arith, lock_open now call none w free)
  | inr closed ↦ ground (arith, lock_closed now call w closed)
]

-- The shared mutex, for shared or exclusive locks.
abbrev pub shared_locks : ℕ → Call → Locks SharedMutex
shared_locks now call = record {
  lock = lock_alone now call;
  unlock = λ w. (unlock_word w).0;
  sound = lock_alone_sound now call;
  untimed = lock_alone-untimed now call;
}

unlock_taken :
    (call : Call) (w : SharedMutex)
    → IsWord w
    → is_open call w ≡ true
    → (unlock_word (taken call w)).0 ≡ w
unlock_taken lock_shared w g h =
    let unlocked =
      unlock_word_lem (taken lock_shared w) (omega arith) (ground arith)
        (omega (arith, g.nsleep_bits)) in
    ground (arith, unlocked)
unlock_taken lock_exclusive w g h =
    let unlocked =
      unlock_word_lem (taken lock_exclusive w) (omega arith) (omega arith)
        (omega (arith, g.nsleep_bits)) in
    let awake : w.nsleep ≡ 0 = g.awake (ground arith) in ground (arith, unlocked, awake)

-- Read-write locks, without another thread. Where the lock can be taken (for reading: nobody writes,
-- there are fewer than 16382 readers and nobody waits; for writing: nobody holds it), the plain, the
-- trying and the timed function take it, and unlocking gives the lock that was there before. Where it
-- cannot, the plain function waits, the trying one returns EBUSY and leaves the lock as it was, and the
-- timed one returns ETIMEDOUT and leaves the lock as it was if its timeout is a number of units of 100
-- nanoseconds that an `int64_t` can represent, and otherwise waits without a limit.
pub rwlock_lem :
    (now : ℕ) (call : Call) (errno : Errno) (timeout : ℤ) (w : SharedMutex)
    → IsWord w
    → w.nsleep + 1 < 2 ^ 50
    → let o = shared_locks now call in
      (is_open call w ≡ true
        → (gthr_lock o w ≡ returns 0 (taken call w))
          × (gthr_trylock o errno w ≡ returns 0 (taken call w))
          × (gthr_timedlock o errno timeout w ≡ returns 0 (taken call w))
          × (gthr_unlock o (taken call w) ≡ returns 0 w))
      × (is_open call w ≡ false
          → (gthr_lock o w ≡ waits)
            × (gthr_trylock o errno w ≡ returns errno.ebusy w)
            × (gthr_timedlock o errno timeout w
                ≡ (if is_finite timeout then returns errno.etimedout w else waits)))
unfolding gthr_lock gthr_trylock gthr_timedlock gthr_unlock
rwlock_lem now call errno timeout w g few = (
  λ free. (
    ap (then_return (asserted 0)) (lock_open now call none w free),
    ap (then_return (or_failure errno.ebusy)) (lock_open now call (some (pos 0)) w free),
    ap (then_return (or_failure errno.etimedout)) (lock_open now call (some timeout) w free),
    ap (returns 0) (unlock_taken call w g free),
  ),
  λ closed. (
    ap (then_return (asserted 0)) (lock_closed now call w closed),
    ap (then_return (or_failure errno.ebusy)) (lock_expired now call (pos 0) w few closed),
    ap (then_return (or_failure errno.etimedout)) (lock_expired now call timeout w few closed)
        ∙ ground arith,
  ),
)
