-- ===== src/Wrappers/Plain.antt =====
-- The mutex of mcfgthread/src/mutex.c as a lock for the wrappers, for calls that come one after another:
-- nobody unlocks the mutex while a thread spins or waits, and no spin byte is set.
use mcfgthread.Base.{
  ℕ, zero, suc, ◌+◌, ◌-◌, ◌*◌, ◌%◌, ◌^◌, ◌<◌, ◌≡◌, ◌≢◌, ◌∙◌, refl, inl, inr, ap, if_ind, Bool-cases,
  Option, none, some, Bool, true, false, not, ◌&&◌, ◌==◌, ltb, if◌then◌else◌, ℤ, pos, negsuc, eqb_ℤ,
  arith,
}
use mcfgthread.Timeout.{WinntTimeout, int64_max, initialize_winnt_timeout, start_timeout, is_zero}
use mcfgthread.Waitable.Machine.{Attempt, done, swap, hop, skip, sleep}
use mcfgthread.Mutex.{
  Mutex, Phase, lock_loop, spin, spin_again, give_up, lock, poll, attempt, leave, take, take_slot,
  take_sleep, return_slot, free_slot, sp_nfail_threshold,
}
use mcfgthread.Wrappers.{Outcome, waits, fails, returns}
use mcfgthread.Wrappers.Filling.{is_finite, start_timeout-finite, start_timeout-is_zero}

-- After a wait has timed out.
abbrev pub left : Option (Mutex × ℤ) → Outcome ℤ Mutex
left none = waits
left (some (w, err)) = returns err w

-- Where at most so many polls end, none of which finds the spin byte set.
unfoldable pub polled : ℕ → Phase → Phase
unfolding poll
polled zero phase = phase
polled (suc n) phase = elim (poll false phase) [ none ↦ phase | some next ↦ polled n next ]

-- There are 160 polls at most, and one that finds that there are no more.
abbrev pub polls : ℕ
polls = 161

-- A pass of `_MCF_mutex_lock_slow` that comes after the spinning, and one that comes before.
abbrev pub last_pass : WinntTimeout → Mutex → Attempt Mutex Phase → Outcome ℤ Mutex
last_pass to w (done err) = returns err w
last_pass to w (swap new err) = returns err new
last_pass to w (hop new phase) = waits
last_pass to w (skip phase) = waits
last_pass to w (sleep new) = if eqb_ℤ to.quad int64_max then waits else left (leave new)

abbrev pub first_pass : WinntTimeout → Mutex → Attempt Mutex Phase → Outcome ℤ Mutex
first_pass to w (done err) = returns err w
first_pass to w (swap new err) = returns err new
first_pass to w (hop new phase) =
    last_pass to new (attempt lock (polled polls phase) (is_zero to) new)
first_pass to w (skip phase) = waits
first_pass to w (sleep new) = last_pass to w (sleep new)

-- `_MCF_mutex_lock_slow` with the timeout in milliseconds, at the time `now`.
unfoldable pub mutex_alone : ℕ → Option ℤ → Mutex → Outcome ℤ Mutex
unfolding attempt leave polled start_timeout is_zero
mutex_alone now timeout_opt w =
    let to = start_timeout timeout_opt now in
    first_pass to w (attempt lock lock_loop (is_zero to) w)

polled-give_up : (n mask : ℕ) → polled n (give_up mask) ≡ give_up mask
unfolding polled poll
polled-give_up zero mask = refl
polled-give_up (suc n) mask = refl

polled_out : (n budget mask : ℕ) → budget < n → polled n (spin budget mask) ≡ give_up mask
unfolding polled poll
polled_out zero budget mask h = absurd (omega arith)
polled_out (suc n) zero mask h = polled-give_up n mask
polled_out (suc n) (suc budget) mask h =
    ground (arith, polled-give_up n mask, polled_out n budget mask (omega arith))

-- The word of a thread that has slept and has timed out.
abbrev slept : Mutex → Mutex
slept w = record (take_sleep w) { nsleep = ((take_sleep w).nsleep + 2 ^ 64 - 1) % 2 ^ 64 % 2 ^ 55 }

-- The mutex stays locked, with as many sleepers.
abbrev pub IsStill : Mutex → Mutex → Type 0
IsStill w w1 = (w1.locked ≡ 1) × (w1.nsleep ≡ w.nsleep)

slept-IsStill : (w w1 : Mutex) → w.nsleep + 1 < 2 ^ 55 → w1.nsleep ≡ w.nsleep → IsStill w (slept w1)
unfolding take_sleep
slept-IsStill w w1 few same = (refl, omega arith)

sleep_pass :
    (to : WinntTimeout) (w w1 : Mutex)
    → w1.nsleep + 1 < 2 ^ 55
    → last_pass to w (sleep (take_sleep w1))
      ≡ (if eqb_ℤ to.quad int64_max then waits else returns (negsuc 0) (slept w1))
unfolding take_sleep leave
sleep_pass to w w1 few = ground arith

given_up :
    (to : WinntTimeout) (w : Mutex) (slot : ℕ)
    → w.nsleep + 1 < 2 ^ 55
    → last_pass to (take_slot w) (attempt lock (give_up slot) (is_zero to) (take_slot w)) ≡ (
        if eqb_ℤ to.quad int64_max
        then waits
        else returns (negsuc 0) (slept (return_slot slot (take_slot w))))
unfolding attempt take_slot return_slot
given_up to w slot few = sleep_pass to (take_slot w) (return_slot slot (take_slot w)) few

slot-same : (w : Mutex) (slot : ℕ) → (return_slot slot (take_slot w)).nsleep ≡ w.nsleep
unfolding take_slot return_slot
slot-same w slot = refl

-- A thread that waits for a locked mutex: it spins if it gets a slot, and then sleeps.
closed_pass :
    (to : WinntTimeout) (w : Mutex)
    → w.locked ≡ 1
    → w.nsleep + 1 < 2 ^ 55
    → is_zero to ≡ false
    → (w1 : Mutex) × (first_pass to w (attempt lock lock_loop (is_zero to) w)
        ≡ (if eqb_ℤ to.quad int64_max then waits else returns (negsuc 0) w1))
      × IsStill w w1
unfolding attempt
closed_pass to w closed few nonzero =
    elim (Bool-cases (not (w.sp_mask == 15) && ltb w.sp_nfail sp_nfail_threshold)) [
      | inl spins ↦
          let slot = free_slot w.sp_mask in
          let budget = (sp_nfail_threshold - w.sp_nfail) * 16 in
          let hops : attempt lock lock_loop (is_zero to) w ≡ hop (take_slot w) (spin budget slot) =
            rw (closed, nonzero, spins) refl in
          (
            slept (return_slot slot (take_slot w)),
            ap (first_pass to w) hops
                ∙ ap (λ ph. last_pass to (take_slot w) (attempt lock ph (is_zero to) (take_slot w)))
                    (polled_out polls budget slot (omega arith))
                ∙ given_up to w slot few,
            slept-IsStill w (return_slot slot (take_slot w)) few (slot-same w slot),
          )
      | inr crowded ↦ (
        slept w,
        rw (closed, nonzero, crowded) (sleep_pass to w w few),
        slept-IsStill w w few refl,
      )
    ]

pub alone_open :
    (now : ℕ) (timeout_opt : Option ℤ) (w : Mutex)
    → w.locked ≡ 0
    → mutex_alone now timeout_opt w ≡ returns (pos 0) (take w)
unfolding mutex_alone attempt
alone_open now timeout_opt w h = rw h refl

pub alone_closed :
    (now : ℕ) (w : Mutex) → w.locked ≡ 1 → w.nsleep + 1 < 2 ^ 55 → mutex_alone now none w ≡ waits
unfolding mutex_alone start_timeout initialize_winnt_timeout is_zero
alone_closed now w h few = (closed_pass (start_timeout none now) w h few refl).1

pub alone_tried :
    (now : ℕ) (w : Mutex) → w.locked ≡ 1 → mutex_alone now (some (pos 0)) w ≡ returns (negsuc 0) w
unfolding mutex_alone attempt start_timeout is_zero
alone_tried now w h = rw h refl

pub alone_expired :
    (now : ℕ) (t : ℤ) (w : Mutex)
    → w.locked ≡ 1
    → w.nsleep + 1 < 2 ^ 55
    → (w1 : Mutex) × (mutex_alone now (some t) w
        ≡ (if is_finite t then returns (negsuc 0) w1 else waits))
      × IsStill w w1
unfolding mutex_alone
alone_expired now t w h few = elim (Bool-cases (eqb_ℤ t (pos 0))) [
  | inl at_once ↦
      let e : t ≡ pos 0 = zero_timeout t at_once in (w, rw e (alone_tried now w h), (h, refl))
  | inr nonzero ↦
      let to = start_timeout (some t) now in
      let (w1, passed, still) = closed_pass to w h few (start_timeout-is_zero t now ∙ nonzero) in
      (w1, passed ∙ rw (start_timeout-finite t now) (swapped (is_finite t) w1), still)
]
  where
    zero_timeout : (t : ℤ) → eqb_ℤ t (pos 0) ≡ true → t ≡ pos 0
    zero_timeout t at_once = ground arith

    swapped :
        (finite : Bool) (w1 : Mutex)
        → ◌≡◌ {A = Outcome ℤ Mutex}
            (if not finite then waits else returns (negsuc 0) w1)
            (if finite then returns (negsuc 0) w1 else waits)
    swapped true w1 = refl
    swapped false w1 = refl

last_sound : (to : WinntTimeout) (w : Mutex) (a : Attempt Mutex Phase) → last_pass to w a ≢ fails
last_sound to w (done err) = λ e. ground arith
last_sound to w (swap new err) = λ e. ground arith
last_sound to w (hop new phase) = λ e. ground arith
last_sound to w (skip phase) = λ e. ground arith
last_sound to w (sleep new) =
    if_ind (λ o. o ≢ fails) (eqb_ℤ to.quad int64_max) (λ _ e. ground arith)
      (λ _. left_sound (leave new))
  where
    left_sound : (o : Option (Mutex × ℤ)) → left o ≢ fails
    left_sound none = λ e. ground arith
    left_sound (some (w, err)) = λ e. ground arith

first_sound : (to : WinntTimeout) (w : Mutex) (a : Attempt Mutex Phase) → first_pass to w a ≢ fails
first_sound to w (done err) = λ e. ground arith
first_sound to w (swap new err) = λ e. ground arith
first_sound to w (hop new phase) =
    last_sound to new (attempt lock (polled polls phase) (is_zero to) new)
first_sound to w (skip phase) = λ e. ground arith
first_sound to w (sleep new) = last_sound to w (sleep new)

-- A pass that does not give up returns 0, if it returns.
abbrev IsPatient : Attempt Mutex Phase → Type 0
IsPatient (done err) = ⊥
IsPatient (swap new err) = err ≡ pos 0
IsPatient _ = Unit

attempt-IsPatient : (phase : Phase) (w : Mutex) → IsPatient (attempt lock phase false w)
unfolding attempt
attempt-IsPatient lock_loop w = ground arith
attempt-IsPatient (spin budget mask) w = tt
attempt-IsPatient (spin_again budget mask) w = ground arith
attempt-IsPatient (give_up mask) w = ground arith

last_zero :
    (w w1 : Mutex) (err : ℤ) (a : Attempt Mutex Phase)
    → IsPatient a
    → last_pass (record { quad = int64_max; since = 0 }) w a ≡ returns err w1
    → err ≡ pos 0
last_zero w w1 err (done r) is e = absurd is
last_zero w w1 err (swap new r) is e = ground (arith, is)
last_zero w w1 err (hop new phase) is e = ground arith
last_zero w w1 err (skip phase) is e = ground arith
last_zero w w1 err (sleep new) is e = ground arith

first_zero :
    (w w1 : Mutex) (err : ℤ) (a : Attempt Mutex Phase)
    → IsPatient a
    → first_pass (record { quad = int64_max; since = 0 }) w a ≡ returns err w1
    → err ≡ pos 0
unfolding is_zero
first_zero w w1 err (done r) is e = absurd is
first_zero w w1 err (swap new r) is e = ground (arith, is)
first_zero w w1 err (hop new phase) is e =
    last_zero new w1 err (attempt lock (polled polls phase) false new)
      (attempt-IsPatient (polled polls phase) new) e
first_zero w w1 err (skip phase) is e = ground arith
first_zero w w1 err (sleep new) is e = ground arith

pub alone_sound : (now : ℕ) (t : Option ℤ) (w : Mutex) → mutex_alone now t w ≢ fails
unfolding mutex_alone
alone_sound now t w =
    let to = start_timeout t now in first_sound to w (attempt lock lock_loop (is_zero to) w)

pub alone-untimed :
    (now : ℕ) (w w1 : Mutex) (err : ℤ) → mutex_alone now none w ≡ returns err w1 → err ≡ pos 0
unfolding mutex_alone start_timeout initialize_winnt_timeout is_zero
alone-untimed now w w1 err e =
    first_zero w w1 err (attempt lock lock_loop false w) (attempt-IsPatient lock_loop w) e
