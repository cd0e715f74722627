-- ===== src/SectionName/Decoding.antt =====
-- What `do_hex_encode` of mcfgthread/src/xglobals.c writes can be read back.
use native.Mathlib.Nat.{
  pow-suc, one-le-pow, mod-lt, mod-eq_of_lt, add-mul-mod_self_right, mod-add-div',
}
use mcfgthread.Base.{
  ℕ, zero, suc, ◌+◌, ◌-◌, ◌*◌, ◌/◌, ◌%◌, ◌^◌, ◌≤◌, ◌<◌, ◌≡◌, ◌≢◌, ◌⊎◌, inl, inr, refl, sym, ap, ◌∙◌,
  arith, ℕ_discrete,
}
use mcfgthread.Base.Family.{assign-here, assign-elsewhere}
use mcfgthread.SectionName.{hex_loop, hex_encode, section_name}

-- The number that `left` digits from `pos` on stand for, the most significant one first.
pub decode : (ℕ → ℕ) → (ℕ → ℕ) → ℕ → ℕ → ℕ
decode digit_of buffer pos zero = 0
decode digit_of buffer pos (suc left) =
    let rest = decode digit_of buffer (pos + 1) left in
    digit_of (buffer pos) * 2 ^ (left * 4) + rest

next_digit : (v p : ℕ) → 0 < p → v / p % 16 * p + v % p ≡ v % (p * 16)
next_digit v p h =
    let low : v / p % 16 * p + v % p < p * 16 =
      below (v / p % 16) (v % p) (mod-lt (v / p) (omega arith)) (mod-lt v h) in
    sym (mod-eq_of_lt low)
    ∙ sym (add-mul-mod_self_right (v / p % 16 * p + v % p) (v / p / 16) (p * 16))
    ∙ ap (λ x. x % (p * 16)) whole
  where
    below : (b r : ℕ) → b < 16 → r < p → b * p + r < p * 16
    below b r b_lt r_lt = grind arith

    regroup : (a b r : ℕ) → b * p + r + a * (p * 16) ≡ r + (b + 16 * a) * p
    regroup a b r = grind arith

    digits_of : (q : ℕ) → q % 16 + 16 * (q / 16) ≡ q
    digits_of q = omega arith

    whole : v / p % 16 * p + v % p + v / p / 16 * (p * 16) ≡ v
    whole =
        regroup (v / p / 16) (v / p % 16) (v % p)
        ∙ ap (λ q. v % p + q * p) (digits_of (v / p))
        ∙ mod-add-div' v p

power_pos_4 : (n : ℕ) → 0 < 2 ^ (n * 4)
power_pos_4 n = one-le-pow (n * 4) 2 (omega arith)

power_16 : (n : ℕ) → 2 ^ (suc n * 4) ≡ 2 ^ (n * 4) * 16
power_16 n =
    let four : suc n * 4 ≡ suc (suc (suc (suc (n * 4)))) = omega arith in
    rw four (
      omega (
        arith,
        pow-suc 2 (suc (suc (suc (n * 4)))),
        pow-suc 2 (suc (suc (n * 4))),
        pow-suc 2 (suc (n * 4)),
        pow-suc 2 (n * 4),
      ))

-- Each digit stands where it is written, and nothing is written outside.
hex_loop-outside :
    (ptr width value : ℕ) (digits : ℕ → ℕ) (left : ℕ) (buffer : ℕ → ℕ) (j : ℕ)
    → left ≤ width
    → (j < ptr + (width - left)) ⊎ (ptr + width ≤ j)
    → hex_loop ptr width value digits left buffer j ≡ buffer j
unfolding hex_loop
hex_loop-outside ptr width value digits zero buffer j h out = refl
hex_loop-outside ptr width value digits (suc left) buffer j h out =
    let k = width - suc left in
    let apart : j ≢ ptr + k = λ e. elim out [ inl low ↦ omega arith | inr high ↦ omega arith ] in
    hex_loop-outside ptr width value digits left _ j (omega arith)
      (elim out [ inl low ↦ inl (omega arith) | inr high ↦ inr high ])
    ∙ assign-elsewhere (ptr + k) (digits (value / 2 ^ ((width - 1 - k) * 4) % 16)) buffer j apart

hex_loop-digit :
    (ptr width value : ℕ) (digits : ℕ → ℕ) (left : ℕ) (buffer : ℕ → ℕ) (n : ℕ)
    → left ≤ width
    → n < left
    → hex_loop ptr width value digits left buffer (ptr + (width - suc n))
      ≡ digits (value / 2 ^ (n * 4) % 16)
unfolding hex_loop
hex_loop-digit ptr width value digits zero buffer n h lt = absurd (omega arith)
hex_loop-digit ptr width value digits (suc left) buffer n h lt = elim (ℕ_discrete n left) [
  | yes e ↦
      let k = width - suc left in
      let place : ptr + (width - suc n) ≡ ptr + k = omega arith in
      let weight : width - 1 - k ≡ n = omega arith in
      hex_loop-outside ptr width value digits left _ (ptr + (width - suc n)) (omega arith)
        (inl (omega arith))
      ∙ assign-here (ptr + k) (digits (value / 2 ^ ((width - 1 - k) * 4) % 16)) buffer
          (ptr + (width - suc n)) place
      ∙ ap (λ x. digits (value / 2 ^ (x * 4) % 16)) weight
  | no e ↦ hex_loop-digit ptr width value digits left _ n (omega arith) (omega arith)
]

decode-encode :
    (ptr width value : ℕ) (digits digit_of buffer : ℕ → ℕ)
    → ((d : ℕ) → d < 16 → digit_of (digits d) ≡ d)
    → (left : ℕ) → left ≤ width
    → decode digit_of (hex_encode ptr width value digits buffer) (ptr + (width - left)) left
      ≡ value % 2 ^ (left * 4)
unfolding decode hex_encode
decode-encode ptr width value digits digit_of buffer inverse zero h = omega arith
decode-encode ptr width value digits digit_of buffer inverse (suc n) h =
    let next : ptr + (width - suc n) + 1 ≡ ptr + (width - n) = omega arith in
    let digit =
      ap digit_of (hex_loop-digit ptr width value digits width buffer n (omega arith) (omega arith))
      ∙ inverse (value / 2 ^ (n * 4) % 16) (mod-lt (value / 2 ^ (n * 4)) (omega arith)) in
    let rest = decode-encode ptr width value digits digit_of buffer inverse n (omega arith) in
    ap
      (λ x.
        x * 2 ^ (n * 4)
        + decode digit_of (hex_encode ptr width value digits buffer) (ptr + (width - suc n) + 1) n)
      digit
    ∙ ap
        (λ x.
          value / 2 ^ (n * 4) % 16 * 2 ^ (n * 4)
          + decode digit_of (hex_encode ptr width value digits buffer) x n)
        next
    ∙ ap (λ x. value / 2 ^ (n * 4) % 16 * 2 ^ (n * 4) + x) rest
    ∙ next_digit value (2 ^ (n * 4)) (power_pos_4 n)
    ∙ ap (λ x. value % x) (sym (power_16 n))

hex_encode-outside :
    (ptr width value : ℕ) (digits buffer : ℕ → ℕ) (j : ℕ)
    → (j < ptr) ⊎ (ptr + width ≤ j)
    → hex_encode ptr width value digits buffer j ≡ buffer j
unfolding hex_encode
hex_encode-outside ptr width value digits buffer j out =
    hex_loop-outside ptr width value digits width buffer j (omega arith)
      (elim out [ inl low ↦ inl (omega arith) | inr high ↦ inr high ])

decode_same :
    (digit_of b b' : ℕ → ℕ) (pos left : ℕ)
    → ((j : ℕ) → pos ≤ j → j < pos + left → b j ≡ b' j)
    → decode digit_of b pos left ≡ decode digit_of b' pos left
unfolding decode
decode_same digit_of b b' pos zero h = refl
decode_same digit_of b b' pos (suc left) h =
    ap (λ x. digit_of x * 2 ^ (left * 4) + decode digit_of b (pos + 1) left)
      (h pos (omega arith) (omega arith))
    ∙ ap (λ x. digit_of (b' pos) * 2 ^ (left * 4) + x)
        (decode_same digit_of b b' (pos + 1) left (λ j low high. h j (omega arith) (omega arith)))

-- Where different digits have different characters, the characters that are written stand for the value,
-- as far as it fits into the width, and no other character of the buffer changes.
pub hex_encode_lem :
    (ptr width value : ℕ) (digits digit_of buffer : ℕ → ℕ)
    → ((d : ℕ) → d < 16 → digit_of (digits d) ≡ d)
    → (decode digit_of (hex_encode ptr width value digits buffer) ptr width
        ≡ value % 2 ^ (width * 4))
      × ((j : ℕ)
          → (j < ptr) ⊎ (ptr + width ≤ j)
          → hex_encode ptr width value digits buffer j ≡ buffer j)
hex_encode_lem ptr width value digits digit_of buffer inverse = (
  ap (λ x. decode digit_of (hex_encode ptr width value digits buffer) x width) (omega arith)
      ∙ decode-encode ptr width value digits digit_of buffer inverse width (omega arith),
  hex_encode-outside ptr width value digits buffer,
)

-- Where different digits have different characters, processes with different identifiers below 2 ^ 32 have
-- sections with different names, whatever their cookies are: the eight digits of the identifier can be
-- read back from the name. Both numbers are written between the fixed parts of the name, which stay: up
-- to the index 25, the index 33, and from the index 50 on.
pub section_name_lem :
    (pid cookie : ℕ) (pid_digits cookie_digits digit_of gname : ℕ → ℕ)
    → pid < 2 ^ 32
    → ((d : ℕ) → d < 16 → digit_of (pid_digits d) ≡ d)
    → (decode digit_of (section_name pid cookie pid_digits cookie_digits gname) 25 8 ≡ pid)
      × ((j : ℕ)
          → (j < 25) ⊎ ((j ≡ 33) ⊎ (50 ≤ j))
          → section_name pid cookie pid_digits cookie_digits gname j ≡ gname j)
unfolding section_name
section_name_lem pid cookie pid_digits cookie_digits digit_of gname small inverse =
    let first = hex_encode_lem 25 8 (pid % 2 ^ 32) pid_digits digit_of gname inverse in
    let after =
      hex_encode-outside 34 16 cookie cookie_digits
        (hex_encode 25 8 (pid % 2 ^ 32) pid_digits gname) in
    (
      decode_same digit_of _ (hex_encode 25 8 (pid % 2 ^ 32) pid_digits gname) 25 8
            (λ j low high. after j (inl (omega arith)))
          ∙ first.0
          ∙ omega arith,
      λ j out.
          after j (elim out [
            | inl low ↦ inl (omega arith)
            | inr (inl mid) ↦ inl (omega arith)
            | inr (inr high) ↦ inr (omega arith)
          ])
          ∙ first.1 j (elim out [
            | inl low ↦ inl low
            | inr (inl mid) ↦ inr (omega arith)
            | inr (inr high) ↦ inr (omega arith)
          ]),
    )
