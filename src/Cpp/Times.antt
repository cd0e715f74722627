-- ===== src/Cpp/Times.antt =====
-- Timed waits of mcfgthread/cxx11.hpp, whose times are whole milliseconds: `__clamp_duration`,
-- `__wait_for`, `__wait_until` and the waits of `condition_variable` with a predicate. The function that
-- waits is a parameter; clocks and predicates give a value for each time that they are asked.
pub mod Deadlines
use mcfgthread.Base.{
  ℕ, zero, suc, ◌+◌, ◌^◌, Bool, true, false, ◌&&◌, not, ◌==◌, ltb, ltb_ℤ, if◌then◌else◌, Option,
  none, some, ℤ, pos, negsuc, pos_part, neg_part, sub_ℕ,
}

-- `_Max_ms`
abbrev pub max_ms : ℕ
max_ms = 0x7FFFFFFFFFFFFC00

-- `__clamp_duration`
unfoldable pub clamp_duration : ℤ → ℕ
clamp_duration (negsuc n) = 0
clamp_duration (pos n) = if ltb max_ms n then max_ms else n

-- `__timeout *= -1`
abbrev pub negated : ℕ → ℤ
negated n = sub_ℕ 0 n

-- `__abs_time - _Clock::now()`
infixl 65 ◌-ℤ◌
abbrev pub ◌-ℤ◌ : ℤ → ℤ → ℤ
a -ℤ b = sub_ℕ (pos_part a + neg_part b) (neg_part a + pos_part b)

-- Whether a difference is none of an `int64_t`, so that the subtraction is undefined.
abbrev pub overflows : ℤ → Bool
overflows (pos n) = not (ltb n (2 ^ 63))
overflows (negsuc n) = not (ltb n (2 ^ 63))

-- `__wait_for`
unfoldable pub wait_for : ℤ → (ℤ → ℤ) → ℤ
unfolding clamp_duration
wait_for rel_time cnd = cnd (negated (clamp_duration rel_time))

-- `__wait_until` with the system clock.
unfoldable pub wait_until_system : ℤ → (ℤ → ℤ) → ℤ
unfolding clamp_duration
wait_until_system abs_time cnd = cnd (pos (clamp_duration abs_time))

-- `__wait_until` with another clock: the result, and the number of the last round. `none` means that
-- the fuel has run out, or that a difference overflows.
unfoldable pub wait_until : ℤ → (ℕ → ℤ) → (ℕ → ℤ → ℤ) → ℕ → ℕ → Option (ℤ × ℕ)
unfolding clamp_duration
wait_until abs_time now cnd round zero = none
wait_until abs_time now cnd round (suc fuel) =
    let timeout = clamp_duration (abs_time -ℤ now round) in
    let err = cnd round (negated timeout) in
    let next = wait_until abs_time now cnd (round + 1) fuel in
    if overflows (abs_time -ℤ now round)
    then none
    else if ltb_ℤ err (pos 0) && not (timeout == 0)
    then next
    else some (err, round)

-- `condition_variable::wait_until` and `wait_for` with a predicate. `pred` is its value for each time
-- that it is evaluated, and `timed_out` is whether the wait after it has timed out.
unfoldable pub wait_until_pred : (ℕ → Bool) → (ℕ → Bool) → ℕ → ℕ → Option (Bool × ℕ)
wait_until_pred pred timed_out k zero = none
wait_until_pred pred timed_out k (suc fuel) =
    let next = wait_until_pred pred timed_out (k + 1) fuel in
    if pred k then some (true, k) else if timed_out k then some (pred (k + 1), k + 1) else next
