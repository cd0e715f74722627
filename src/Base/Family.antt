-- ===== src/Base/Family.antt =====
-- One value for each thread, as a function of the thread's number: a change for one thread, and
-- the weight of the first `n` threads together.
use Prim.Native.Nat.{ℕ, zero, suc, ◌+◌, ◌≤◌, ◌<◌}
use mathlib.Core.Path.{◌≡◌, refl, sym}
use mathlib.Core.Logic.{◌≢◌, ite, if_neg}
use native.Mathlib.Decide.{dec_lt, ℕ_discrete}
use native.Mathlib.Omega.{arith}

abbrev pub assign {ℓ} : {A : Type ℓ} → ℕ → A → (ℕ → A) → ℕ → A
assign i a threads j = ite (ℕ_discrete j i) a (threads j)

pub assign-here {ℓ} :
    {A : Type ℓ} (i : ℕ) (a : A) (threads : ℕ → A) (j : ℕ) → j ≡ i → assign i a threads j ≡ a
assign-here i a threads j e = ground arith

pub assign-elsewhere {ℓ} :
    {A : Type ℓ} (i : ℕ) (a : A) (threads : ℕ → A) (j : ℕ)
    → j ≢ i
    → assign i a threads j ≡ threads j
assign-elsewhere i a threads j e = ground arith

unfoldable pub weigh {ℓ} : {A : Type ℓ} → (A → ℕ) → ℕ → (ℕ → A) → ℕ
weigh w zero threads = 0
weigh w (suc n) threads = w (threads n) + weigh w n threads

module _ {ℓ} {A : Type ℓ} (w : A → ℕ) (threads : ℕ → A) where
  weigh-assign_outside :
      (n i : ℕ) (a : A) → n ≤ i → weigh w n (assign i a threads) ≡ weigh w n threads
  unfolding weigh
  weigh-assign_outside zero i a out = refl
  weigh-assign_outside (suc n) i a out = ground (arith, weigh-assign_outside n i a)

  -- A change for one thread changes the sum by the difference of the two weights.
  pub weigh-assign :
      (n i : ℕ) (a : A)
      → i < n
      → w (threads i) + weigh w n (assign i a threads) ≡ w a + weigh w n threads
  unfolding weigh
  weigh-assign zero i a inside = elim inside [ ]
  weigh-assign (suc n) i a inside = elim (ℕ_discrete n i) [
    | yes here ↦ ground (arith, weigh-assign_outside n i a)
    | no below ↦ ground (arith, weigh-assign n i a)
  ]

  pub weigh-ge : (n i : ℕ) → i < n → w (threads i) ≤ weigh w n threads
  unfolding weigh
  weigh-ge zero i inside = elim inside [ ]
  weigh-ge (suc n) i inside = elim (ℕ_discrete n i) [
    | yes here ↦ ground arith
    | no below ↦ omega (arith, weigh-ge n i (omega arith))
  ]

  -- Two threads together weigh no more than all.
  pub weigh-ge_two :
      (n i j : ℕ) → i < n → j < n → i ≢ j → w (threads i) + w (threads j) ≤ weigh w n threads
  unfolding weigh
  weigh-ge_two zero i j i_in j_in apart = elim i_in [ ]
  weigh-ge_two (suc n) i j i_in j_in apart = elim (ℕ_discrete n i) [
    | yes i_here ↦ ground (arith, weigh-ge n j (omega arith))
    | no i_below ↦ elim (ℕ_discrete n j) [
      | yes j_here ↦ ground (arith, weigh-ge n i (omega arith))
      | no j_below ↦ omega (arith, weigh-ge_two n i j (omega arith) (omega arith) apart)
    ]
  ]

  pub weigh-le : ((a : A) → w a ≤ 1) → (n : ℕ) → weigh w n threads ≤ n
  unfolding weigh
  weigh-le light zero = omega arith
  weigh-le light (suc n) = omega (arith, light (threads n), weigh-le light n)

  -- If nobody weighs more than 1, a thread that weighs nothing leaves the sum below the count.
  pub weigh-lt : ((a : A) → w a ≤ 1) → (n i : ℕ) → i < n → w (threads i) ≡ 0 → weigh w n threads < n
  unfolding weigh
  weigh-lt light zero i inside e = elim inside [ ]
  weigh-lt light (suc n) i inside e = elim (ℕ_discrete n i) [
    | yes here ↦ ground (arith, weigh-le light n)
    | no below ↦ omega (arith, light (threads n), weigh-lt light n i (omega arith) e)
  ]

  pub weigh-eq_zero : (n : ℕ) → ((i : ℕ) → w (threads i) ≡ 0) → weigh w n threads ≡ 0
  unfolding weigh
  weigh-eq_zero zero none = refl
  weigh-eq_zero (suc n) none = omega (arith, none n, weigh-eq_zero n none)

  -- A positive sum has a thread with a positive weight.
  pub weigh_pos : (n : ℕ) → 0 < weigh w n threads → (i : ℕ) × (i < n) × (0 < w (threads i))
  unfolding weigh
  weigh_pos zero h = absurd (omega arith)
  weigh_pos (suc n) h = elim (dec_lt 0 (w (threads n))) [
    | yes here ↦ (n, omega arith, here)
    | no not_here ↦ let (i, inside, p) = weigh_pos n (omega arith) in (i, omega arith, p)
  ]

-- Two threads change at once.
pub weigh-assign_two {ℓ} :
    {A : Type ℓ} (w : A → ℕ) (threads : ℕ → A) (n i j : ℕ) (a b : A)
    → i < n
    → j < n
    → i ≢ j
    → w (threads i) + w (threads j) + weigh w n (assign j b (assign i a threads))
      ≡ w a + w b + weigh w n threads
weigh-assign_two w threads n i j a b i_in j_in apart =
    omega (
      arith,
      weigh-assign w threads n i a i_in,
      weigh-assign w (assign i a threads) n j b j_in,
      kept,
    )
  where
    kept : w (assign i a threads j) ≡ w (threads j)
    kept = rw (if_neg (ℕ_discrete j i) (λ e. apart (sym e)))
