-- ===== src/Memory/Comparing.antt =====
-- Comparisons of blocks: `__MCF_mcompare`, `__MCF_mequal` and `__MCF_do_std_compare` of
-- mcfgthread/src/xglobals.h.
use mcfgthread.Base.{
  ℕ, zero, suc, ◌+◌, ◌<◌, ◌≡◌, ◌≢◌, ◌⊎◌, inl, inr, refl, sym, ◌∙◌, ap, true, false, ltb, ◌==◌,
  if◌then◌else◌, arith, ℕ_discrete, ℤ, pos, negsuc, sub_ℕ,
}
use mcfgthread.Memory.{
  repz_cmpsb, mcompare, mequal, memcmp, std_compare, std_compare_loop, equal_flags, Flags, cmpsb,
  difference,
}

-- Two blocks agree in their first `n` bytes.
abbrev pub Agree : ℕ → ℕ → (ℕ → ℕ) → ℕ → Type 0
Agree src cmp memory n = (i : ℕ) → i < n → memory (src + i) ≡ memory (cmp + i)

-- The first byte in which two blocks differ.
pub record FirstDifference (src cmp size : ℕ) (memory : ℕ → ℕ) : Type 0 where
  pub at : ℕ
  pub inside : at < size
  pub before : Agree src cmp memory at
  pub differs : memory (src + at) ≢ memory (cmp + at)

Agree-suc :
    (src cmp : ℕ) (memory : ℕ → ℕ) (n : ℕ)
    → memory src ≡ memory cmp
    → Agree (src + 1) (cmp + 1) memory n
    → Agree src cmp memory (suc n)
Agree-suc src cmp memory n e a zero lt =
    let s : src + 0 ≡ src = omega arith in let c : cmp + 0 ≡ cmp = omega arith in rw (s, c) e
Agree-suc src cmp memory n e a (suc i) lt =
    let s : src + suc i ≡ src + 1 + i = omega arith in
    let c : cmp + suc i ≡ cmp + 1 + i = omega arith in rw (s, c) (a i (omega arith))

-- Two blocks agree, or there is a first difference.
pub compare_blocks :
    (src cmp size : ℕ) (memory : ℕ → ℕ)
    → Agree src cmp memory size ⊎ FirstDifference src cmp size memory
compare_blocks src cmp zero memory = inl (λ i lt. absurd (omega arith))
compare_blocks src cmp (suc n) memory = elim (ℕ_discrete (memory src) (memory cmp)) [
  | no differ ↦
      let s : src + 0 ≡ src = omega arith in
      let c : cmp + 0 ≡ cmp = omega arith in
      inr (record {
        at = 0;
        inside = omega arith;
        before = λ i lt. absurd (omega arith);
        differs = rw (s, c) differ;
      })
  | yes same ↦ further n same (compare_blocks (src + 1) (cmp + 1) n memory)
]
  where
    further :
        (n : ℕ)
        → memory src ≡ memory cmp
        → Agree (src + 1) (cmp + 1) memory n ⊎ FirstDifference (src + 1) (cmp + 1) n memory
        → Agree src cmp memory (suc n) ⊎ FirstDifference src cmp (suc n) memory
    further n e (inl a) = inl (Agree-suc src cmp memory n e a)
    further n e (inr d) =
        let s : src + suc d.at ≡ src + 1 + d.at = omega arith in
        let c : cmp + suc d.at ≡ cmp + 1 + d.at = omega arith in
        inr (record {
          at = suc d.at;
          inside = omega arith;
          before = Agree-suc src cmp memory d.at e d.before;
          differs = rw (s, c) d.differs;
        })

first : (memory : ℕ → ℕ) (src cmp n : ℕ) → Agree src cmp memory (suc n) → memory src ≡ memory cmp
first memory src cmp n a =
    let s : src + 0 ≡ src = omega arith in
    let c : cmp + 0 ≡ cmp = omega arith in rw (s, c) at (a 0 (omega arith))

rest :
    (memory : ℕ → ℕ) (src cmp n : ℕ)
    → Agree src cmp memory (suc n)
    → Agree (src + 1) (cmp + 1) memory n
rest memory src cmp n a i lt =
    let s : src + suc i ≡ src + 1 + i = omega arith in
    let c : cmp + suc i ≡ cmp + 1 + i = omega arith in rw (s, c) at (a (suc i) (omega arith))

cmpsb-same : (a b : ℕ) → a ≡ b → cmpsb a b ≡ equal_flags
cmpsb-same a b e = ground arith

==-differ : (a b : ℕ) → a ≢ b → (a == b) ≡ false
==-differ a b d = ground arith

sub_ℕ-same : (a b : ℕ) → a ≡ b → sub_ℕ a b ≡ pos 0
sub_ℕ-same a b e = ground arith

std_compare_loop-stop :
    (left sptr cptr : ℕ) (memory : ℕ → ℕ) (a b : ℕ)
    → a ≢ b
    → std_compare_loop left sptr cptr memory (sub_ℕ a b) ≡ sub_ℕ a b
unfolding std_compare_loop
std_compare_loop-stop zero sptr cptr memory a b d = refl
std_compare_loop-stop (suc left) sptr cptr memory a b d = ground arith

-- Both loops over blocks that agree, and over blocks whose first `n` bytes agree and the next not.
module _ (memory : ℕ → ℕ) where
  repz_cmpsb-agree :
      (src cmp size : ℕ)
      → Agree src cmp memory size
      → repz_cmpsb src cmp size memory equal_flags ≡ equal_flags
  unfolding repz_cmpsb
  repz_cmpsb-agree src cmp zero a = refl
  repz_cmpsb-agree src cmp (suc n) a =
      let same = cmpsb-same (memory src) (memory cmp) (first memory src cmp n a) in
      rw (ap (λ (f : Flags). f.zf) same, ap (λ (f : Flags). f.cf) same)
        (repz_cmpsb-agree (src + 1) (cmp + 1) n (rest memory src cmp n a))

  std_compare_loop-agree :
      (src cmp size : ℕ)
      → Agree src cmp memory size
      → std_compare_loop size src cmp memory (pos 0) ≡ pos 0
  unfolding std_compare_loop
  std_compare_loop-agree src cmp zero a = refl
  std_compare_loop-agree src cmp (suc n) a =
      let same = first memory src cmp n a in
      rw (sub_ℕ-same (memory src) (memory cmp) same)
        (std_compare_loop-agree (src + 1) (cmp + 1) n (rest memory src cmp n a))

  repz_cmpsb-differ :
      (at src cmp size : ℕ) (flags : Flags)
      → at < size
      → Agree src cmp memory at
      → memory (src + at) ≢ memory (cmp + at)
      → repz_cmpsb src cmp size memory flags ≡ cmpsb (memory (src + at)) (memory (cmp + at))
  unfolding repz_cmpsb
  repz_cmpsb-differ at src cmp zero flags lt a d = absurd (omega arith)
  repz_cmpsb-differ zero src cmp (suc n) flags lt a d =
      let s : src + 0 ≡ src = omega arith in
      let c : cmp + 0 ≡ cmp = omega arith in
      let d' = rw (s, c) at d in rw (s, c, ==-differ (memory src) (memory cmp) d') refl
  repz_cmpsb-differ (suc at) src cmp (suc n) flags lt a d =
      let s : src + suc at ≡ src + 1 + at = omega arith in
      let c : cmp + suc at ≡ cmp + 1 + at = omega arith in
      let d' = rw (s, c) at d in
      let same = cmpsb-same (memory src) (memory cmp) (first memory src cmp at a) in
      rw (s, c, ap (λ (f : Flags). f.zf) same, ap (λ (f : Flags). f.cf) same)
        (repz_cmpsb-differ at (src + 1) (cmp + 1) n equal_flags (omega arith)
          (rest memory src cmp at a) d')

  std_compare_loop-differ :
      (at src cmp size : ℕ)
      → at < size
      → Agree src cmp memory at
      → memory (src + at) ≢ memory (cmp + at)
      → std_compare_loop size src cmp memory (pos 0) ≡ sub_ℕ (memory (src + at)) (memory (cmp + at))
  unfolding std_compare_loop
  std_compare_loop-differ at src cmp zero lt a d = absurd (omega arith)
  std_compare_loop-differ zero src cmp (suc n) lt a d =
      let s : src + 0 ≡ src = omega arith in
      let c : cmp + 0 ≡ cmp = omega arith in
      let d' = rw (s, c) at d in
      rw (s, c) (std_compare_loop-stop n (src + 1) (cmp + 1) memory (memory src) (memory cmp) d')
  std_compare_loop-differ (suc at) src cmp (suc n) lt a d =
      let s : src + suc at ≡ src + 1 + at = omega arith in
      let c : cmp + suc at ≡ cmp + 1 + at = omega arith in
      let d' = rw (s, c) at d in
      rw (s, c, sub_ℕ-same (memory src) (memory cmp) (first memory src cmp at a))
        (std_compare_loop-differ at (src + 1) (cmp + 1) n (omega arith) (rest memory src cmp at a)
          d')

-- What the sign of a comparison is.
abbrev pub sign : ℤ → ℤ
sign (pos n) = if n == 0 then pos 0 else pos 1
sign (negsuc n) = negsuc 0

abbrev order_sign : ℕ → ℕ → ℤ
order_sign a b = if ltb a b then negsuc 0 else pos 1

difference-differ : (a b : ℕ) → a ≢ b → difference (cmpsb a b) ≡ order_sign a b
difference-differ a b d = ground arith

sign-sub_ℕ : (a b : ℕ) → a ≢ b → sign (sub_ℕ a b) ≡ order_sign a b
sign-sub_ℕ a b d = ground arith

-- Comparisons of two blocks tell how the first bytes that differ are ordered as unsigned numbers.
-- The one for x86 and the one for other processors have the same sign, and the test for equality
-- holds exactly if there is no such byte.
pub memcmp_lem :
    (src cmp size : ℕ) (memory : ℕ → ℕ)
    → (Agree src cmp memory size
        × (memcmp src cmp size memory ≡ pos 0)
        × (std_compare src cmp size memory ≡ pos 0)
        × (mequal src cmp size memory ≡ true))
      ⊎ ((d : FirstDifference src cmp size memory) × (memcmp src cmp size memory
            ≡ (if ltb (memory (src + d.at)) (memory (cmp + d.at)) then negsuc 0 else pos 1))
          × (sign (std_compare src cmp size memory) ≡ memcmp src cmp size memory)
          × (mequal src cmp size memory ≡ false))
unfolding memcmp mcompare mequal std_compare
memcmp_lem src cmp size memory = elim (compare_blocks src cmp size memory) [
  | inl a ↦
      let flags = repz_cmpsb-agree memory src cmp size a in
      inl (
        a,
        ap difference flags,
        std_compare_loop-agree memory src cmp size a,
        ap (λ (f : Flags). f.zf) flags,
      )
  | inr d ↦
      let flags =
        repz_cmpsb-differ memory d.at src cmp size equal_flags d.inside d.before d.differs in
      let std = std_compare_loop-differ memory d.at src cmp size d.inside d.before d.differs in
      let differ = ==-differ (memory (src + d.at)) (memory (cmp + d.at)) d.differs in
      let result = ap difference flags ∙ difference-differ _ _ d.differs in
      inr (
        d,
        result,
        ap sign std ∙ sign-sub_ℕ _ _ d.differs ∙ sym result,
        ap (λ (f : Flags). f.zf) flags ∙ differ,
      )
]
