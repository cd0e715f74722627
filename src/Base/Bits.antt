-- ===== src/Base/Bits.antt =====
-- A mask with all ones, and a mask with no ones, under the native `bit_and`.
use Prim.Native.Nat.{
  ℕ, zero, suc, ◌+◌, ◌-◌, ◌*◌, ◌/◌, ◌%◌, ◌^◌, ◌≤◌, ◌<◌, min, max, bit_and, bit_or, digits,
  bit_and-bitwise, bit_or-bitwise,
}
use mathlib.Core.Logic.{◌⊎◌, inl, inr}
use mathlib.Core.Path.{◌≡◌, ◌∙◌, refl}
use mathlib.Core.Bool.{Bool, true, ◌&&◌}
use native.Mathlib.Decide.{ℕ_discrete}
use native.Mathlib.Omega.{arith}

-- 2 ^ k - 1 and 2 ^ k, by recursion.
abbrev pub ones : ℕ → ℕ
ones zero = 0
ones (suc k) = ones k * 2 + 1

abbrev pub power : ℕ → ℕ
power zero = 1
power (suc k) = power k * 2

half_mod : (x p : ℕ) → 0 < p → x / 2 % p * 2 + x % 2 ≡ x % (p * 2)
half_mod x p h = grind arith

pub power_pos : (k : ℕ) → 0 < power k
power_pos zero = omega arith
power_pos (suc k) = omega (arith, power_pos k)

-- The digits of `a` under a mask of `k` ones.
mask_digits : (k n a : ℕ) → a ≤ n → digits (λ b. zero) min n a (ones k) ≡ a % power k
mask_digits k zero zero h = omega (arith, power_pos k)
mask_digits k zero (suc a) h = absurd (omega arith)
mask_digits k (suc n) zero h = omega (arith, power_pos k)
mask_digits zero (suc n) (suc a) h = omega (arith, mask_digits zero n (suc a / 2) (omega arith))
mask_digits (suc k) (suc n) (suc a) h =
    let half : (ones k * 2 + 1) / 2 ≡ ones k = omega arith in
    rw half (
      omega (
        arith,
        mask_digits k n (suc a / 2) (omega arith),
        half_mod (suc a) (power k) (power_pos k),
      ))

and_mask : (k a : ℕ) → bit_and a (ones k) ≡ a % power k
and_mask k a = bit_and-bitwise a (ones k) ∙ mask_digits k a a (omega arith)

pub bit_and-zero : (a : ℕ) → bit_and a 0 ≡ 0
bit_and-zero a = omega (arith, and_mask 0 a)

-- The masks of mcfgthread/src/shared_mutex.c: a 32-bit and a 64-bit word of ones, shifted by 14.
pub bit_and-ones18 : (a : ℕ) → bit_and a 0x3FFFF ≡ a % 2 ^ 18
bit_and-ones18 a = and_mask 18 a

pub bit_and-ones50 : (a : ℕ) → bit_and a 0x3FFFFFFFFFFFF ≡ a % 2 ^ 50
bit_and-ones50 a = and_mask 50 a

pub zero-bit_and : (b : ℕ) → bit_and 0 b ≡ 0
zero-bit_and b = bit_and-bitwise 0 b

-- A test that every number below a bound passes.
unfoldable pub passes_below : ℕ → (ℕ → Bool) → Bool
passes_below zero test = true
passes_below (suc n) test = test n && passes_below n test

pub passes :
    (n : ℕ) (test : ℕ → Bool) → passes_below n test ≡ true → (x : ℕ) → x < n → test x ≡ true
unfolding passes_below
passes zero test h x lt = elim lt [ ]
passes (suc n) test h x lt = elim (ℕ_discrete x n) [
  | yes e ↦ rw e (ground arith)
  | no e ↦ passes n test (ground arith) x (omega arith)
]

-- The digits of `a` over a mask of `k` ones.
over_digits : (k n a : ℕ) → a ≤ n → digits (λ b. b) max n a (ones k) + a % power k ≡ a + ones k
over_digits k zero zero h = omega (arith, power_pos k)
over_digits k zero (suc a) h = absurd (omega arith)
over_digits k (suc n) zero h = omega (arith, power_pos k)
over_digits zero (suc n) (suc a) h = omega (arith, over_digits zero n (suc a / 2) (omega arith))
over_digits (suc k) (suc n) (suc a) h =
    let half : (ones k * 2 + 1) / 2 ≡ ones k = omega arith in
    rw half (
      omega (
        arith,
        over_digits k n (suc a / 2) (omega arith),
        half_mod (suc a) (power k) (power_pos k),
      ))

pub bit_or-ones : (k a : ℕ) → bit_or a (ones k) + a % power k ≡ a + ones k
bit_or-ones k a = rw (bit_or-bitwise a (ones k)) (over_digits k a a (omega arith))

pub ones-power : (k : ℕ) → ones k + 1 ≡ power k
ones-power zero = refl
ones-power (suc k) = omega (arith, ones-power k)

same_digits : (n a : ℕ) → a ≤ n → digits (λ b. zero) min n a a ≡ a
same_digits zero zero h = refl
same_digits zero (suc a) h = absurd (omega arith)
same_digits (suc n) zero h = refl
same_digits (suc n) (suc a) h = omega (arith, same_digits n (suc a / 2) (omega arith))

pub bit_and-same : (a : ℕ) → bit_and a a ≡ a
bit_and-same a = bit_and-bitwise a a ∙ same_digits a a (omega arith)

abbrev pub IsPowerOrZero : ℕ → Type 0
IsPowerOrZero a = (a ≡ 0) ⊎ ((k : ℕ) × (a ≡ power k))

doubled : (a h : ℕ) → a ≡ h * 2 → 0 < h → IsPowerOrZero h → IsPowerOrZero a
doubled a h e p (inl z) = absurd (omega arith)
doubled a h e p (inr (k, x)) = inr (suc k, omega arith)

pred_digits : (n a : ℕ) → a ≤ n → digits (λ b. zero) min n a (a - 1) ≡ 0 → IsPowerOrZero a
pred_digits n zero h e = inl refl
pred_digits zero (suc a) h e = absurd (omega arith)
pred_digits (suc n) (suc a) h e = elim (ℕ_discrete (suc a % 2) 1) [
  | yes odd ↦
      let same : (suc a - 1) / 2 ≡ suc a / 2 = omega arith in
      let e' = rw same at e in inr (0, omega (arith, same_digits n (suc a / 2) (omega arith), e'))
  | no even ↦
      let pred : (suc a - 1) / 2 ≡ suc a / 2 - 1 = omega arith in
      let e' = rw pred at e in
      doubled (suc a) (suc a / 2) (omega arith) (omega arith)
        (pred_digits n (suc a / 2) (omega arith) (omega (arith, e')))
]

-- Only a power of 2, and 0, has no bit in common with the number before it.
pub bit_and-pred : (a : ℕ) → bit_and a (a - 1) ≡ 0 → IsPowerOrZero a
bit_and-pred a e = pred_digits a a (omega arith) (omega (arith, e, bit_and-bitwise a (a - 1)))
