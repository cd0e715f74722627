-- ===== src/Clock/Division.antt =====
-- The division by multiplication of mcfgthread/src/clock.c.
use mcfgthread.Base.{
  ℕ, ◌+◌, ◌-◌, ◌*◌, ◌/◌, ◌%◌, ◌^◌, ◌≤◌, ◌<◌, ◌≡◌, ◌⊎◌, inl, inr, ap, sym, ◌∙◌, ℕ_discrete, pos,
  ◌<ℤ◌, arith,
}
use mcfgthread.Timeout.{signed64}
use mcfgthread.Clock.{divide_by_10000, divide_by_10000_in_halves, utc_now}

-- For every 64-bit value, the two ways of dividing give the same result.
pub divide_by_10000_agrees :
    (value : ℕ) → value < 2 ^ 64 → divide_by_10000_in_halves value ≡ divide_by_10000 value
unfolding divide_by_10000 divide_by_10000_in_halves
divide_by_10000_agrees value h = omega arith

-- For every 64-bit value, the quotient is never too small and at most one too large.
pub divide_by_10000_error :
    (value : ℕ)
    → value < 2 ^ 64
    → (value / 10000 ≤ divide_by_10000 value) × (divide_by_10000 value ≤ value / 10000 + 1)
unfolding divide_by_10000
divide_by_10000_error value h = (omega arith, omega arith)

-- Below 2200231879029999 hundreds of nanoseconds, which is almost seven years, the quotient is exact.
pub divide_by_10000_exact :
    (value : ℕ) → value < 2200231879029999 → divide_by_10000 value ≡ value / 10000
unfolding divide_by_10000
divide_by_10000_exact value h = omega arith

abbrev quotient : ℕ → ℕ
quotient value = value * 0x68DB8BAC710CC / 2 ^ 64

cast_quotient :
    (value : ℕ) → value < 2 ^ 64 → signed64 (divide_by_10000 value) ≡ pos (quotient value)
unfolding divide_by_10000
cast_quotient value h = ground arith

utc_from_epoch :
    (v : ℕ) → 116444736000000000 + v < 2 ^ 64 → utc_now (116444736000000000 + v) ≡ pos (quotient v)
unfolding utc_now
utc_from_epoch v h =
    let e : (116444736000000000 + v + 2 ^ 64 - 116444736000000000) % 2 ^ 64 ≡ v = omega arith in
    rw e (cast_quotient v (omega arith))

utc_before_epoch :
    (v : ℕ)
    → 0 < v
    → v ≤ 116444736000000000
    → utc_now (116444736000000000 - v) ≡ pos (quotient (2 ^ 64 - v))
unfolding utc_now
utc_before_epoch v some_time h =
    let e : (116444736000000000 - v + 2 ^ 64 - 116444736000000000) % 2 ^ 64 ≡ 2 ^ 64 - v =
      omega arith in
    rw e (cast_quotient (2 ^ 64 - v) (omega arith))

quotient_or_next :
    (v : ℕ)
    → v < 2 ^ 64
    → (pos (quotient v) ≡ pos (v / 10000)) ⊎ (pos (quotient v) ≡ pos (v / 10000 + 1))
quotient_or_next v h = elim (ℕ_discrete (quotient v) (v / 10000)) [
  | yes e ↦ inl (ap pos e)
  | no d ↦ inr (ap pos (omega arith))
]

-- `_MCF_utc_now`, for every count of the system clock. From the Unix epoch on, it returns exactly the
-- number of milliseconds since then at every whole millisecond, and that number or the next one within
-- the millisecond. Before the epoch, by up to 116444736000000000 hundreds of nanoseconds, it does not
-- return the negative number of milliseconds, but the milliseconds by which 2 ^ 64 hundreds of
-- nanoseconds are longer than the time to the epoch, or one more: a positive number, which is greater
-- than the result for every count from the epoch on that is below 2 ^ 63.
pub utc_now_lem :
    (ms part before later : ℕ)
    → part < 10000
    → 116444736000000000 + (10000 * ms + part) < 2 ^ 64
    → 0 < before
    → before ≤ 116444736000000000
    → 116444736000000000 ≤ later
    → later < 2 ^ 63
    → (utc_now (116444736000000000 + 10000 * ms) ≡ pos ms)
      × ((utc_now (116444736000000000 + (10000 * ms + part)) ≡ pos ms)
          ⊎ (utc_now (116444736000000000 + (10000 * ms + part)) ≡ pos (ms + 1)))
      × ((utc_now (116444736000000000 - before) ≡ pos ((2 ^ 64 - before) / 10000))
          ⊎ (utc_now (116444736000000000 - before) ≡ pos ((2 ^ 64 - before) / 10000 + 1)))
      × (utc_now later <ℤ utc_now (116444736000000000 - before))
utc_now_lem ms part before later h k some_time le from lt =
    let whole : quotient (10000 * ms) ≡ ms = omega arith in
    let within : (10000 * ms + part) / 10000 ≡ ms = omega arith in
    let earlier = utc_before_epoch before some_time le in
    let split : 116444736000000000 + (later - 116444736000000000) ≡ later = omega arith in
    let until : utc_now later ≡ pos (quotient (later - 116444736000000000)) =
      ap utc_now (sym split) ∙ utc_from_epoch (later - 116444736000000000) (omega arith) in
    (
      utc_from_epoch (10000 * ms) (omega arith) ∙ ap pos whole,
      rw (utc_from_epoch (10000 * ms + part) k)
          (rw within at (quotient_or_next (10000 * ms + part) (omega arith))),
      rw earlier (quotient_or_next (2 ^ 64 - before) (omega arith)),
      rw (earlier, until) (omega arith),
    )
