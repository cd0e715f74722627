-- ===== src/Timeout/Bounds.antt =====
-- Ranges and meaning of the timeouts that mcfgthread/src/xglobals.c computes.
use mcfgthread.Base.{
  ℕ, ◌+◌, ◌-◌, ◌*◌, ◌^◌, ◌≤◌, ◌<◌, ◌≡◌, some, true, false, ℤ, pos, negsuc, arith, ◌<ℤ◌, pos_part,
  neg_part, ◌↔◌, refl, if◌then◌else◌, ltb, sub_ℕ,
}
use mcfgthread.Timeout.{
  WinntTimeout, int64_max, initialize_winnt_timeout, adjust_winnt_timeout, check_wait_safety,
}

-- The milliseconds from 1601-01-01 to 1970-01-01.
abbrev unix_epoch : ℕ
unix_epoch = 11644473600000

-- The instant or the delay in units of 100 nanoseconds, where an `int64_t` can represent it, and
-- otherwise no limit.
abbrev pub exact_timeout : ℤ → ℤ
exact_timeout (pos n) =
    if ltb 0 n
    then if ltb ((unix_epoch + n) * 10000) (2 ^ 63)
      then pos ((unix_epoch + n) * 10000)
      else int64_max
    else pos 0
exact_timeout (negsuc n) =
    if ltb (2 ^ 63) ((n + 1) * 10000) then int64_max else sub_ℕ 0 ((n + 1) * 10000)

-- For every timeout in milliseconds, `__MCF_initialize_winnt_timeout_v3` computes the exact number
-- of 100-nanosecond units, and no limit when an `int64_t` cannot represent that number.
pub initialize_exact :
    (ms : ℤ) (now : ℕ) → (initialize_winnt_timeout (some ms) now).quad ≡ exact_timeout ms
unfolding initialize_winnt_timeout
initialize_exact (pos n) now = ground arith
initialize_exact (negsuc n) now = ground arith

-- A relative timeout that is adjusted after a wait shrinks by exactly the time that has passed, and
-- stops at zero; it never turns into an absolute one.
pub adjust_elapsed :
    (to : WinntTimeout) (now : ℕ)
    → to.since ≤ now
    → now < 2 ^ 63
    → to.quad <ℤ pos 0
    → (pos_part (adjust_winnt_timeout to now).quad ≡ 0)
      × (neg_part (adjust_winnt_timeout to now).quad ≡ neg_part to.quad - (now - to.since))
      × ((adjust_winnt_timeout to now).since ≡ now)
unfolding adjust_winnt_timeout
adjust_elapsed to now h k neg = (ground arith, ground arith, ground arith)

-- How long a wait may last, where `utc` is the current time.
abbrev pub wait_length : ℤ → ℕ → ℕ
wait_length (pos n) utc = n - utc
wait_length (negsuc n) utc = n + 1

-- While the process is shutting down, exactly the waits of at most three seconds are allowed,
-- relative or absolute; before that, every wait is.
pub check_wait_safety_lem :
    (quad : ℤ) (since utc : ℕ)
    → utc + 30000000 < 2 ^ 63
    → ((check_wait_safety (record { quad = quad; since = since }) true utc ≡ true)
        ↔ (wait_length quad utc ≤ 30000000))
      × (check_wait_safety (record { quad = quad; since = since }) false utc ≡ true)
unfolding check_wait_safety
check_wait_safety_lem (pos n) since utc h = ((λ e. ground arith, λ e. ground arith), refl)
check_wait_safety_lem (negsuc n) since utc h = ((λ e. ground arith, λ e. ground arith), refl)

pub check_wait_safety-running :
    (to : WinntTimeout) (utc : ℕ) → check_wait_safety to false utc ≡ true
unfolding check_wait_safety
check_wait_safety-running to utc = refl
