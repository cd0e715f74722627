-- ===== src/Tests/Blocks.antt =====
-- Copies and comparisons of short blocks.
use mcfgthread.Base.{
  ℕ, ◌+◌, ◌%◌, ◌≡◌, ◌⊎◌, refl, ltb, if◌then◌else◌, some, pos, negsuc, arith, ℕ_discrete, true,
  false,
}
use mathlib.Core.Option
use mcfgthread.Memory.{memmove, mcopy_backward, memcmp, std_compare, mequal}
use mcfgthread.Memory.Copying.{Copied, memmove_lem}
use mcfgthread.Memory.Comparing.{Agree, FirstDifference, sign, memcmp_lem}

-- Five bytes are moved up by two, over themselves.
memmove_lem_example :
    (after : ℕ → ℕ) × (memmove 12 10 5 (λ j. j) ≡ some after) × Copied 12 10 5 (λ j. j) after
memmove_lem_example = memmove_lem 12 10 5 (λ j. j) (omega arith) (omega arith) (omega arith)

moved_last : Option.map (λ m. m 16) (memmove 12 10 5 (λ j. j)) ≡ some 14
unfolding memmove mcopy_backward ℕ_discrete
moved_last = refl

memcmp_lem_example :
    (Agree 10 20 (λ j. j % 7) 3
      × (memcmp 10 20 3 (λ j. j % 7) ≡ pos 0)
      × (std_compare 10 20 3 (λ j. j % 7) ≡ pos 0)
      × (mequal 10 20 3 (λ j. j % 7) ≡ true))
    ⊎ ((d : FirstDifference 10 20 3 (λ j. j % 7)) × (memcmp 10 20 3 (λ j. j % 7)
          ≡ (if ltb ((10 + d.at) % 7) ((20 + d.at) % 7) then negsuc 0 else pos 1))
        × (sign (std_compare 10 20 3 (λ j. j % 7)) ≡ memcmp 10 20 3 (λ j. j % 7))
        × (mequal 10 20 3 (λ j. j % 7) ≡ false))
memcmp_lem_example = memcmp_lem 10 20 3 (λ j. j % 7)
