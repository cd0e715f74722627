-- ===== src/FailureMessage/Bounds.antt =====
-- The message of a failure stays in its buffer: mcfgthread/src/xglobals.c.
use mcfgthread.Base.{
  ℕ, zero, suc, ◌+◌, ◌-◌, ◌*◌, ◌≤◌, ◌<◌, ◌≡◌, ◌⊎◌, inl, inr, refl, ap, ◌∙◌, Bool, true, false, ◌||◌,
  ◌==◌, some, List, [], ◌∷◌, length, arith, Bool-cases, ℕ_discrete,
}
use mcfgthread.FailureMessage.{
  Message, append_string, append_all, matches, composed, replaced, text_loop, caption_loop, System,
  end_of_buffer, placeholder, grave, close_brace,
}
use mcfgthread.FailureMessage.Appending.{
  Appended, append_string-Appended, Appended-trans, append_all-Appended,
}

-- Where the system writes: FormatMessageW writes nothing, or a text with a null character behind it;
-- GetModuleFileNameW writes no more than there is room for. Neither changes anything in front.
pub record IsSystem (s : System) : Type 0 where
  pub formatted :
      (code at : ℕ) (buffer : ℕ → ℕ)
      → ((s.format_message code at buffer).0 ≡ 0)
        ⊎ ((at + (s.format_message code at buffer).0 < end_of_buffer)
            × ((s.format_message code at buffer).1 (at + (s.format_message code at buffer).0) ≡ 0))
  pub format_in_front :
      (code at : ℕ) (buffer : ℕ → ℕ) (j : ℕ)
      → j < at
      → (s.format_message code at buffer).1 j ≡ buffer j
  pub named :
      (at : ℕ) (buffer : ℕ → ℕ)
      → at ≤ end_of_buffer
      → at + (s.module_file_name at buffer).0 ≤ end_of_buffer
  pub name_in_front :
      (at : ℕ) (buffer : ℕ → ℕ) (j : ℕ) → j < at → (s.module_file_name at buffer).1 j ≡ buffer j

-- The character at which a loop ends is in front of the null character, or it is that.
strictly :
    (i n : ℕ) (buffer : ℕ → ℕ)
    → buffer n ≡ 0
    → i ≤ n
    → ((buffer i == 0) || (buffer i == close_brace)) ≡ false
    → i < n
strictly i n buffer null le go = elim (ℕ_discrete i n) [
  | yes e ↦ absurd (ground (arith, ap buffer e))
  | no d ↦ omega arith
]

pub caption_loop_lem :
    (fuel lptr last : ℕ) (m : Message)
    → m.buffer last ≡ 0
    → lptr ≤ last
    → last < end_of_buffer
    → last < lptr + fuel
    → m.sptr < lptr
    → (m1 : Message) × (caption_loop fuel lptr m ≡ composed m1) × (m1.sptr + lptr ≤ m.sptr + last)
unfolding caption_loop
caption_loop_lem zero lptr last m null before inside enough behind = absurd (omega arith)
caption_loop_lem (suc fuel) lptr last m null before inside enough behind =
    elim (Bool-cases ((m.buffer lptr == 0) || (m.buffer lptr == close_brace))) [
      | inl ends ↦ (m, ground arith, omega arith)
      | inr goes_on ↦
          let one = append_string-Appended (m.buffer lptr) m in
          let below : lptr < last = strictly lptr last m.buffer null before goes_on in
          let (m1, ran, bound) =
            caption_loop_lem fuel (lptr + 1) last (append_string (m.buffer lptr) m)
              (one.behind last (omega arith) ∙ null) (omega arith) inside (omega arith)
              (omega (arith, one.by_at_most)) in
          (m1, ground (arith, ran), omega (arith, one.by_at_most))
    ]

abbrev AllNonzero : List ℕ → Type 0
AllNonzero [] = Unit
AllNonzero (c ∷ cs) = (0 < c) × AllNonzero cs

-- A match is in front of the null character.
matches_lem :
    (cs : List ℕ) (lptr last : ℕ) (buffer : ℕ → ℕ)
    → AllNonzero cs
    → buffer last ≡ 0
    → lptr ≤ last
    → last < end_of_buffer
    → (matches cs lptr buffer ≡ some false)
      ⊎ ((matches cs lptr buffer ≡ some true) × (lptr + length cs ≤ last))
unfolding matches
matches_lem [] lptr last buffer nonzero null before inside = inr (refl, omega arith)
matches_lem (c ∷ cs) lptr last buffer nonzero null before inside =
    elim (ℕ_discrete (buffer lptr) c) [
      | yes same ↦
          let below : lptr < last = elim (ℕ_discrete lptr last) [
            | yes e ↦ absurd (omega (arith, ap buffer e))
            | no d ↦ omega arith
          ] in
          elim (matches_lem cs (lptr + 1) last buffer nonzero.1 null (omega arith) inside) [
            | inl differs ↦ inl (ground (arith, differs))
            | inr (found, room) ↦ inr (ground (arith, found), omega arith)
          ]
      | no differ ↦ inl (ground arith)
    ]

-- What the loop over the text has done when it ends.
abbrev pub Looped : List ℕ → ℕ → ℕ → ℕ → Message → Type 0
Looped name fuel lptr last m =
    (m1 : Message) × (text_loop name fuel lptr m ≡ composed m1)
    × (m.sptr ≤ m1.sptr)
    × (m1.sptr ≤ last)
    × ((j : ℕ) → j < m.sptr → m1.buffer j ≡ m.buffer j)

-- The room that is left after a round that goes on by `k` characters and appends `n`.
module _ (w k l n sptr last : ℕ) (room : sptr * 18 + (w + 18) * (k + l) ≤ last * 18)
    (fits : n * 18 ≤ (w + 18) * k) where
  room_enough : sptr + n ≤ last
  room_enough = grind arith

  room_left : (sptr1 : ℕ) → sptr1 ≤ sptr + n → sptr1 * 18 + (w + 18) * l ≤ last * 18
  room_left sptr1 le = grind arith

module _ (name : List ℕ) (fuel lptr last k l n : ℕ) (m m1 : Message) (null : m.buffer last ≡ 0)
    (at : lptr + (k + l) ≡ last) (room : m.sptr * 18 + (length name + 18) * (k + l) ≤ last * 18)
    (fits : n * 18 ≤ (length name + 18) * k) (appended : Appended n m m1) where
  -- One round, if the rest of the loop does what it should.
  Looped-step :
      text_loop name (suc fuel) lptr m ≡ text_loop name fuel (lptr + k) m1
      → (m1.buffer last ≡ 0
          → lptr + k + l ≡ last
          → m1.sptr * 18 + (length name + 18) * l ≤ last * 18
          → Looped name fuel (lptr + k) last m1)
      → Looped name (suc fuel) lptr last m
  Looped-step step rest =
      let enough = room_enough (length name) k l n m.sptr last room fits in
      let left = room_left (length name) k l n m.sptr last room fits m1.sptr appended.by_at_most in
      let (m2, ran, grows, bound, kept) =
        rest (appended.behind last enough ∙ null) (omega arith) left in
      (
        m2,
        step ∙ ran,
        omega (arith, appended.grows),
        bound,
        λ j lt. kept j (omega (arith, appended.grows)) ∙ appended.in_front j lt,
      )

-- The name between two grave accents.
replaced-Appended :
    (name : List ℕ) (c : ℕ) (m : Message) → Appended (length name + 2) m (replaced name c true m).0
replaced-Appended name c m =
    let quoted = append_all (grave ∷ []) m in
    let named = append_all name quoted in
    Appended-trans 1 (length name + 1) (length name + 2) m quoted _ (omega arith)
      (append_all-Appended (grave ∷ []) m)
      (Appended-trans (length name) 1 (length name + 1) quoted named _ refl
        (append_all-Appended name quoted) (append_all-Appended (grave ∷ []) named))

text_loop-suc :
    (name : List ℕ) (fuel lptr : ℕ) (m : Message) (replace : Bool)
    → lptr < end_of_buffer
    → ((m.buffer lptr == 0) || (m.buffer lptr == close_brace)) ≡ false
    → matches placeholder lptr m.buffer ≡ some replace
    → text_loop name (suc fuel) lptr m
      ≡ text_loop name fuel
          (lptr + (replaced name (m.buffer lptr) replace m).1)
          (replaced name (m.buffer lptr) replace m).0
unfolding text_loop
text_loop-suc name fuel lptr m replace inside goes_on found = ground arith

pub text_loop_lem :
    (name : List ℕ) (fuel lptr left last : ℕ) (m : Message)
    → m.buffer last ≡ 0
    → lptr + left ≡ last
    → last < end_of_buffer
    → left < fuel
    → m.sptr * 18 + (length name + 18) * left ≤ last * 18
    → Looped name fuel lptr last m
text_loop_lem name zero lptr left last m null at inside enough room = absurd (omega arith)
text_loop_lem name (suc fuel) lptr left last m null at inside enough room =
    let c = m.buffer lptr in
    elim (Bool-cases ((c == 0) || (c == close_brace))) [
      | inl ends ↦ (m, unfold text_loop in ground arith, omega arith, omega arith, λ j lt. refl)
      | inr goes_on ↦
          let below = strictly lptr last m.buffer null (omega arith) goes_on in
          elim (matches_lem placeholder lptr last m.buffer (omega arith) null (omega arith)
            inside) [
              | inl differs ↦
                  let split : left ≡ 1 + (left - 1) = omega arith in
                  Looped-step name fuel lptr last 1 (left - 1) 1 m (append_string c m) null
                    (omega arith) (rw split at room) (omega arith) (append_string-Appended c m)
                    (text_loop-suc name fuel lptr m false (omega arith) goes_on differs)
                    (λ null1 at1 room1.
                      text_loop_lem name fuel (lptr + 1) (left - 1) last (append_string c m) null1
                        at1 inside (omega arith) room1)
              | inr (found, fits) ↦
                  let split : left ≡ 18 + (left - 18) = omega arith in
                  let m1 = (replaced name c true m).0 in
                  Looped-step name fuel lptr last 18 (left - 18) (length name + 2) m m1 null
                    (omega arith) (rw split at room) (omega arith) (replaced-Appended name c m)
                    (text_loop-suc name fuel lptr m true (omega arith) goes_on found)
                    (λ null1 at1 room1.
                      text_loop_lem name fuel (lptr + 18) (left - 18) last m1 null1 at1 inside
                        (omega arith) room1)
            ]
    ]
