-- ===== src/Base/Digits.antt =====
-- The bits of a number, and what `&` and `|` do to each of them.
use Prim.Native.Nat.{
  ℕ, zero, suc, ◌+◌, ◌-◌, ◌*◌, ◌/◌, ◌%◌, ◌^◌, ◌≤◌, ◌<◌, min, max, bit_and, bit_or, digits,
  bit_and-bitwise, bit_or-bitwise,
}
use mathlib.Core.Path.{◌≡◌, ◌∙◌, refl, ap}
use native.Mathlib.Nat.{pow-suc}
use native.Mathlib.Omega.{arith}
use mcfgthread.Base.Tests.{◌==◌, if◌then◌else◌}
use mcfgthread.Base.Bits.{power, bit_and-zero, bit_and-same}

-- The i-th bit.
unfoldable pub bit : ℕ → ℕ → ℕ
bit zero a = a % 2
bit (suc i) a = bit i (a / 2)

pub power-pow : (k : ℕ) → 2 ^ k ≡ power k
power-pow zero = refl
power-pow (suc k) = omega (arith, pow-suc 2 k, power-pow k)

-- More fuel than the number itself makes no difference.
module _ (last : ℕ → ℕ) (f : ℕ → ℕ → ℕ) where
  enough_fuel : (a b k n : ℕ) → a ≤ k → a ≤ n → digits last f k a b ≡ digits last f n a b
  enough_fuel zero b zero zero p q = refl
  enough_fuel zero b zero (suc n) p q = refl
  enough_fuel zero b (suc k) zero p q = refl
  enough_fuel zero b (suc k) (suc n) p q = refl
  enough_fuel (suc a) b zero n p q = absurd (omega arith)
  enough_fuel (suc a) b (suc k) zero p q = absurd (omega arith)
  enough_fuel (suc a) b (suc k) (suc n) p q =
      ap (λ d. d * 2 + f (suc a % 2) (b % 2))
        (enough_fuel (suc a / 2) (b / 2) k n (omega arith) (omega arith))

  half_fuel :
      (a b : ℕ)
      → digits last f (suc a) (suc a) b
        ≡ digits last f (suc a / 2) (suc a / 2) (b / 2) * 2 + f (suc a % 2) (b % 2)
  half_fuel a b =
      ap (λ d. d * 2 + f (suc a % 2) (b % 2))
        (enough_fuel (suc a / 2) (b / 2) a (suc a / 2) (omega arith) (omega arith))

bit_and-step : (a b : ℕ) → bit_and a b ≡ bit_and (a / 2) (b / 2) * 2 + min (a % 2) (b % 2)
bit_and-step zero b = omega (arith, bit_and-bitwise 0 b, bit_and-bitwise 0 (b / 2))
bit_and-step (suc a) b = omega (
  arith,
  bit_and-bitwise (suc a) b,
  bit_and-bitwise (suc a / 2) (b / 2),
  half_fuel (λ d. 0) min a b,
)

bit_or-step : (a b : ℕ) → bit_or a b ≡ bit_or (a / 2) (b / 2) * 2 + max (a % 2) (b % 2)
bit_or-step zero b = omega (arith, bit_or-bitwise 0 b, bit_or-bitwise 0 (b / 2))
bit_or-step (suc a) b = omega (
  arith,
  bit_or-bitwise (suc a) b,
  bit_or-bitwise (suc a / 2) (b / 2),
  half_fuel (λ d. d) max a b,
)

min_bit : (a b : ℕ) → min (a % 2) (b % 2) < 2
min_bit a b = omega arith

max_bit : (a b : ℕ) → max (a % 2) (b % 2) < 2
max_bit a b = omega arith

pub bit-bit_and : (i a b : ℕ) → bit i (bit_and a b) ≡ min (bit i a) (bit i b)
unfolding bit
bit-bit_and zero a b = omega (arith, bit_and-step a b)
bit-bit_and (suc i) a b =
    let half : bit_and a b / 2 ≡ bit_and (a / 2) (b / 2) = omega (arith, bit_and-step a b) in
    ap (bit i) half ∙ bit-bit_and i (a / 2) (b / 2)

pub bit-bit_or : (i a b : ℕ) → bit i (bit_or a b) ≡ max (bit i a) (bit i b)
unfolding bit
bit-bit_or zero a b = omega (arith, bit_or-step a b)
bit-bit_or (suc i) a b =
    let half : bit_or a b / 2 ≡ bit_or (a / 2) (b / 2) = omega (arith, bit_or-step a b) in
    ap (bit i) half ∙ bit-bit_or i (a / 2) (b / 2)

pub bit-lt : (i a : ℕ) → bit i a < 2
unfolding bit
bit-lt zero a = omega arith
bit-lt (suc i) a = bit-lt i (a / 2)

pub bit-zero : (i : ℕ) → bit i 0 ≡ 0
unfolding bit
bit-zero zero = refl
bit-zero (suc i) = bit-zero i

-- A power of 2 has one bit.
pub bit-power : (i k : ℕ) → bit i (power k) ≡ (if i == k then 1 else 0)
unfolding bit
bit-power zero zero = refl
bit-power zero (suc k) = ground arith
bit-power (suc i) zero = bit-zero i ∙ ground arith
bit-power (suc i) (suc k) =
    let half : power k * 2 / 2 ≡ power k = omega arith in
    ap (bit i) half ∙ bit-power i k ∙ ground arith

-- `mask & (1 << k)`
pub bit_and-power : (k a : ℕ) → bit_and a (power k) ≡ bit k a * power k
unfolding bit
bit_and-power zero a = omega (arith, bit_and-step a 1, bit_and-zero (a / 2))
bit_and-power (suc k) a =
    let half : power k * 2 / 2 ≡ power k = omega arith in
    bit_and-step a (power k * 2)
    ∙ ap (λ p. bit_and (a / 2) p * 2 + min (a % 2) (power k * 2 % 2)) half
    ∙ grind (arith, bit_and-power k (a / 2))

-- `a & (a - 1)` of an even number that is not 0, and of an odd number.
pub bit_and-pred_even :
    (a : ℕ) → a % 2 ≡ 0 → 0 < a → bit_and a (a - 1) ≡ bit_and (a / 2) (a / 2 - 1) * 2
bit_and-pred_even a even h =
    let half : (a - 1) / 2 ≡ a / 2 - 1 = omega arith in
    bit_and-step a (a - 1)
    ∙ ap (λ p. bit_and (a / 2) p * 2 + min (a % 2) ((a - 1) % 2)) half
    ∙ omega (arith, even)

pub bit_and-pred_odd : (a : ℕ) → a % 2 ≡ 1 → bit_and a (a - 1) ≡ a / 2 * 2
bit_and-pred_odd a odd =
    let half : (a - 1) / 2 ≡ a / 2 = omega arith in
    bit_and-step a (a - 1)
    ∙ ap (λ p. bit_and (a / 2) p * 2 + min (a % 2) ((a - 1) % 2)) half
    ∙ omega (arith, odd, bit_and-same (a / 2))
