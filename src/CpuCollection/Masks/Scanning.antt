-- ===== src/CpuCollection/Masks/Scanning.antt =====
-- The processors of a new collection are the bits of the mask: `_MCF_cpu_collection_new` of
-- mcfgthread/src/cpu_collection.c.
use Prim.Native.Nat.{bit_and}
use mcfgthread.Base.{
  ℕ, zero, suc, ◌-◌, ◌*◌, ◌/◌, ◌%◌, ◌<◌, ◌≡◌, ap, ◌∙◌, ◌==◌, if◌then◌else◌, arith, ℕ_discrete,
}
use mcfgthread.Base.Bits.{power}
use mcfgthread.Base.Digits.{bit, bit_and-pred_even, bit_and-pred_odd}
use mcfgthread.Mutex.{bit_scan_forward}

scan-odd : (w a : ℕ) → a % 2 ≡ 1 → bit_scan_forward (suc w) a ≡ 0
unfolding bit_scan_forward
scan-odd w a odd = ground arith

scan-even : (w a : ℕ) → a % 2 ≡ 0 → bit_scan_forward (suc w) a ≡ suc (bit_scan_forward w (a / 2))
unfolding bit_scan_forward
scan-even w a even = ground arith

cleared : (a i : ℕ) → bit i (a / 2 * 2) ≡ (if i == 0 then 0 else bit i a)
unfolding bit
cleared a zero = omega arith
cleared a (suc i) = let half : a / 2 * 2 / 2 ≡ a / 2 = omega arith in ap (bit i) half ∙ ground arith

doubled :
    (a i rest k : ℕ)
    → a % 2 ≡ 0
    → ((j : ℕ) → bit j rest ≡ (if j == k then 0 else bit j (a / 2)))
    → bit i (rest * 2) ≡ (if i == suc k then 0 else bit i a)
unfolding bit
doubled a zero rest k even h = ground arith
doubled a (suc i) rest k even h =
    let half : rest * 2 / 2 ≡ rest = omega arith in ap (bit i) half ∙ h i ∙ ground arith

-- The lowest bit of a number that is not 0.
abbrev pub IsLowest : ℕ → ℕ → ℕ → Type 0
IsLowest w a k = (k < w) × (bit k a ≡ 1) × ((i : ℕ) → i < k → bit i a ≡ 0)

IsLowest-even : (w a k : ℕ) → a % 2 ≡ 0 → IsLowest w (a / 2) k → IsLowest (suc w) a (suc k)
unfolding bit
IsLowest-even w a k even (below, set, clear) = (omega arith, set, lower)
  where
    lower : (i : ℕ) → i < suc k → bit i a ≡ 0
    lower zero lt = even
    lower (suc i) lt = clear i (omega arith)

pub scan-IsLowest : (w a : ℕ) → 0 < a → a < power w → IsLowest w a (bit_scan_forward w a)
scan-IsLowest zero a pos small = absurd (omega arith)
scan-IsLowest (suc w) a pos small = elim (ℕ_discrete (a % 2) 1) [
  | yes odd ↦ rw (scan-odd w a odd) (omega arith, unfold bit in odd, λ i lt. absurd (omega arith))
  | no other ↦
      let even : a % 2 ≡ 0 = omega arith in
      rw (scan-even w a even) (
        IsLowest-even w a (bit_scan_forward w (a / 2)) even
          (scan-IsLowest w (a / 2) (omega arith) (omega arith)))
]

-- What `mask_reg & (mask_reg - 1)` leaves.
pub clear_lowest :
    (w a i : ℕ)
    → 0 < a
    → a < power w
    → bit i (bit_and a (a - 1)) ≡ (if i == bit_scan_forward w a then 0 else bit i a)
clear_lowest zero a i pos small = absurd (omega arith)
clear_lowest (suc w) a i pos small = elim (ℕ_discrete (a % 2) 1) [
  | yes odd ↦ rw (scan-odd w a odd, bit_and-pred_odd a odd) (cleared a i)
  | no other ↦
      let even : a % 2 ≡ 0 = omega arith in
      rw (scan-even w a even, bit_and-pred_even a even pos)
        (doubled a i (bit_and (a / 2) (a / 2 - 1)) (bit_scan_forward w (a / 2)) even
          λ j. clear_lowest w (a / 2) j (omega arith) (omega arith))
]

pub cleared-lt : (w a : ℕ) → 0 < a → a < power w → bit_and a (a - 1) < a
cleared-lt zero a pos small = absurd (omega arith)
cleared-lt (suc w) a pos small = elim (ℕ_discrete (a % 2) 1) [
  | yes odd ↦ rw (bit_and-pred_odd a odd) (omega arith)
  | no other ↦
      let even : a % 2 ≡ 0 = omega arith in
      rw (bit_and-pred_even a even pos)
        (omega (arith, cleared-lt w (a / 2) (omega arith) (omega arith)))
]
