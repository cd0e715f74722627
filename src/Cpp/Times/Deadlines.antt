-- ===== src/Cpp/Times/Deadlines.antt =====
-- Timed waits do not time out early, and end: mcfgthread/cxx11.hpp.
use mcfgthread.Base.{
  ℕ, zero, suc, ◌+◌, ◌≤◌, ◌<◌, ◌≡◌, ◌⊎◌, inl, inr, refl, ap, Bool, true, false, ◌&&◌, not, ◌==◌,
  ltb_ℤ, ◌≤ℤ◌, ◌<ℤ◌, some, ℤ, pos, negsuc, neg_part, Bool-cases, arith, ℕ_discrete,
}
use mcfgthread.Cpp.Times.{max_ms, clamp_duration, negated, ◌-ℤ◌, wait_until_pred}

-- What is passed on is not positive, and its negation has not overflowed.
pub negated_bounds :
    (d : ℤ)
    → (negated (clamp_duration d) ≤ℤ pos 0) × (neg_part (negated (clamp_duration d)) ≤ max_ms)
unfolding clamp_duration
negated_bounds (pos n) = (ground arith, ground arith)
negated_bounds (negsuc n) = (ground arith, ground arith)

-- A round that ends the wait: the function does not fail, or the time has come.
abbrev pub Ends : ℤ → (ℕ → ℤ) → (ℕ → ℤ → ℤ) → ℕ → Type 0
Ends abs_time now cnd k =
    (pos 0 ≤ℤ cnd k (negated (clamp_duration (abs_time -ℤ now k)))) ⊎ (abs_time ≤ℤ now k)

-- What a wait returns.
abbrev pub Waited : ℤ → (ℕ → ℤ) → (ℕ → ℤ → ℤ) → ℕ → ℤ × ℕ → Type 0
Waited abs_time now cnd k (err, last) =
    (last ≤ k)
    × (err ≡ cnd last (negated (clamp_duration (abs_time -ℤ now last))))
    × (err <ℤ pos 0 → abs_time ≤ℤ now last)

-- Whether a round fails before the time has come.
abbrev fails_early : ℤ → (ℕ → ℤ) → (ℕ → ℤ → ℤ) → ℕ → Bool
fails_early abs_time now cnd k =
    ltb_ℤ (cnd k (negated (clamp_duration (abs_time -ℤ now k)))) (pos 0)
    && not (clamp_duration (abs_time -ℤ now k) == 0)

-- Where the predicate holds or the wait times out at some time within the fuel: the wait ends, with
-- the last value of the predicate, and it gives up only after it has timed out.
pub wait_until_pred_lem :
    (pred timed_out : ℕ → Bool) (k fuel m : ℕ)
    → k ≤ m
    → m < k + fuel
    → (pred m ≡ true) ⊎ (timed_out m ≡ true)
    → (last : ℕ) × (wait_until_pred pred timed_out k fuel ≡ some (pred last, last))
      × (last ≤ m + 1)
      × (pred last ≡ false → (before : ℕ) × (last ≡ before + 1) × (timed_out before ≡ true))
unfolding wait_until_pred
wait_until_pred_lem pred timed_out k zero m le lt ends = absurd (omega arith)
wait_until_pred_lem pred timed_out k (suc fuel) m le lt ends = elim (Bool-cases (pred k)) [
  | inl holds ↦ (k, ground arith, omega arith, λ fails. absurd (ground arith))
  | inr fails ↦ elim (Bool-cases (timed_out k)) [
    | inl late ↦ (k + 1, ground arith, omega arith, λ z. (k, refl, late))
    | inr again ↦
        let later : k + 1 ≤ m = not_yet k m le ends fails again in
        let (last, ran, bound, why) =
          wait_until_pred_lem pred timed_out (k + 1) fuel m later (omega arith) ends in
        (last, ground (arith, ran), bound, why)
  ]
]
  where
    not_yet :
        (k m : ℕ)
        → k ≤ m
        → (pred m ≡ true) ⊎ (timed_out m ≡ true)
        → pred k ≡ false
        → timed_out k ≡ false
        → k + 1 ≤ m
    not_yet k m le ends fails again = elim (ℕ_discrete k m) [
      | yes e ↦ absurd (ground (arith, ap pred e, ap timed_out e))
      | no d ↦ omega arith
    ]
