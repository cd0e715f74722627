-- ===== src/FailureMessage/Composing.antt =====
-- The caption and the text of a failure's message stay in their buffer: mcfgthread/src/xglobals.c.
use native.Mathlib.Nat.{mul-le-mul_left}
use mcfgthread.Base.{
  ℕ, ◌+◌, ◌-◌, ◌*◌, ◌≤◌, ◌<◌, ◌≡◌, inl, inr, refl, ap, ◌∙◌, ◌&&◌, not, ◌==◌, List, [], ◌∷◌, length,
  arith, Bool-cases,
}
use mcfgthread.FailureMessage.{
  Message, append_all, composed, System, compose_caption, append_file_name, append_text,
  append_error, compose_text, compose_message, ◌>>=◌, end_of_buffer, localized, open_brace,
  line_break, rounds,
}
use mcfgthread.FailureMessage.Appending.{append_all-Appended}
use mcfgthread.FailureMessage.Bounds.{IsSystem, caption_loop_lem, text_loop_lem}

-- What a part of the message leaves: the part before it, and the end within the buffer.
abbrev pub Extends : Message → Message → Type 0
Extends before after =
    (before.sptr ≤ after.sptr)
    × (after.sptr ≤ end_of_buffer)
    × ((j : ℕ) → j < before.sptr → after.buffer j ≡ before.buffer j)

-- The caption is composed without a read beyond the buffer, and has at most 125 characters.
pub compose_caption_lem :
    (s : System) (m : Message)
    → IsSystem s
    → m.sptr ≡ 0
    → (m1 : Message) × (compose_caption s m ≡ composed m1) × (m1.sptr ≤ 125)
unfolding compose_caption
compose_caption_lem s m is start =
    let outlen = (s.format_message 574 localized m.buffer).0 in
    let buffer = (s.format_message 574 localized m.buffer).1 in
    elim (Bool-cases (not (outlen == 0) && (buffer localized == open_brace))) [
      | inr nothing ↦ (record m { buffer = buffer }, ground arith, omega arith)
      | inl text ↦ elim (is.formatted 574 localized m.buffer) [
        | inl none_written ↦ absurd (ground arith)
        | inr (room, null) ↦
            let some_text : 0 < outlen = ground arith in
            let (m1, ran, bound) =
              caption_loop_lem rounds (localized + 1) (localized + outlen)
                (record m { buffer = buffer }) null (omega arith) room (omega arith)
                (omega arith) in
            (m1, ground (arith, ran), omega arith)
      ]
    ]

abbrev with_name : Message → (ℕ → ℕ) → ℕ → Message
with_name m buffer outlen = record { buffer = buffer; sptr = m.sptr + outlen }

append_file_name_lem :
    (s : System) (m : Message)
    → IsSystem s
    → m.sptr ≤ end_of_buffer
    → Extends m (append_file_name s m)
      × ((append_file_name s m).sptr ≤ m.sptr + (s.module_file_name m.sptr m.buffer).0 + 4)
unfolding append_file_name
append_file_name_lem s m is inside =
    let outlen = (s.module_file_name m.sptr m.buffer).0 in
    let buffer = (s.module_file_name m.sptr m.buffer).1 in
    let in_front = is.name_in_front m.sptr m.buffer in
    elim (Bool-cases (outlen == 0)) [
      | inl nothing ↦ rw nothing ((omega arith, inside, in_front), omega arith)
      | inr named ↦
          let m1 = with_name m buffer outlen in
          let m2 = append_all line_break m1 in
          let once = append_all-Appended line_break m1 in
          let twice = append_all-Appended line_break m2 in
          let room = is.named m.sptr m.buffer inside in
          rw named (
            (
              omega (arith, once.grows, twice.grows),
              twice.inside (once.inside room),
              λ j lt.
                  twice.in_front j (omega (arith, once.grows))
                  ∙ once.in_front j (omega arith)
                  ∙ in_front j lt,
            ),
            omega (arith, once.by_at_most, twice.by_at_most),
          )
    ]

room_for :
    (sptr w outlen : ℕ)
    → sptr + 7 * w ≤ 1283
    → 0 < outlen
    → outlen ≤ 126
    → sptr * 18 + (w + 18) * (outlen - 1) ≤ (localized + outlen) * 18
room_for sptr w outlen h p q =
    let wide : (w + 18) * (outlen - 1) ≤ (w + 18) * 125 = mul-le-mul_left (w + 18) (omega arith) in
    omega (arith, wide)

append_text_lem :
    (s : System) (name : List ℕ) (m : Message)
    → IsSystem s
    → m.sptr + 7 * length name ≤ 1283
    → (m1 : Message) × (append_text s name m ≡ composed m1) × Extends m m1
unfolding append_text
append_text_lem s name m is room =
    let outlen = (s.format_message 590 localized m.buffer).0 in
    let buffer = (s.format_message 590 localized m.buffer).1 in
    let in_front = is.format_in_front 590 localized m.buffer in
    elim (Bool-cases (not (outlen == 0) && (buffer localized == open_brace))) [
      | inr nothing ↦ (
        record m { buffer = buffer },
        ground arith,
        (omega arith, omega arith, λ j lt. in_front j (omega arith)),
      )
      | inl text ↦ elim (is.formatted 590 localized m.buffer) [
        | inl none_written ↦ absurd (ground arith)
        | inr (fits, null) ↦
            let some_text : 0 < outlen = ground arith in
            let (m1, ran, grows, bound, kept) =
              text_loop_lem name rounds (localized + 1) (outlen - 1) (localized + outlen)
                (record m { buffer = buffer }) null (omega arith) fits (omega arith)
                (room_for m.sptr (length name) outlen room some_text (omega arith)) in
            let more = append_all-Appended (58 ∷ 32 ∷ []) m1 in
            (
              append_all (58 ∷ 32 ∷ []) m1,
              ground (arith, ran),
              (
                omega (arith, more.grows),
                more.inside (omega arith),
                λ j lt. more.in_front j (omega arith) ∙ kept j lt ∙ in_front j (omega arith),
              ),
            )
      ]
    ]

append_error_lem :
    (s : System) (code : ℕ) (m : Message)
    → IsSystem s
    → m.sptr ≤ end_of_buffer
    → Extends m (append_error s code m)
unfolding append_error
append_error_lem s code m is inside = elim (is.formatted code m.sptr m.buffer) [
  | inl nothing ↦ (omega arith, omega arith, is.format_in_front code m.sptr m.buffer)
  | inr (room, null) ↦ (omega arith, omega arith, is.format_in_front code m.sptr m.buffer)
]

compose_text_lem :
    (s : System) (name : List ℕ) (code : ℕ) (m : Message)
    → IsSystem s
    → m.sptr ≤ 125
    → (s.module_file_name m.sptr m.buffer).0 + 7 * length name ≤ 1154
    → (m1 : Message) × (compose_text s name code m ≡ composed m1) × Extends m m1
unfolding compose_text
compose_text_lem s name code m is caption short =
    let (named, length_named) = append_file_name_lem s m is (omega arith) in
    let (m1, ran, text) = append_text_lem s name (append_file_name s m) is (omega arith) in
    let error = append_error_lem s code m1 is text.1 in
    (
      append_error s code m1,
      ground (arith, ran),
      (
        omega (arith, named.0, text.0, error.0),
        error.1,
        λ j lt.
            error.2 j (omega (arith, named.0, text.0))
            ∙ text.2 j (omega (arith, named.0))
            ∙ named.2 j lt,
      ),
    )

-- Where the file name of the executable and seven times the name of the function have 1154 characters
-- together, at most: the message is composed with no read beyond the buffer of 1536 characters. The
-- caption has 125 characters at most; the text begins behind it, ends within the buffer, and leaves
-- the caption as it was.
pub compose_message_lem :
    (s : System) (name : List ℕ) (code : ℕ) (buffer : ℕ → ℕ)
    → IsSystem s
    → ((at : ℕ) (b : ℕ → ℕ) → (s.module_file_name at b).0 + 7 * length name ≤ 1154)
    → (caption : Message) × (text : Message) × (compose_caption s
          (record { buffer = buffer; sptr = 0 })
        ≡ composed caption)
      × (compose_message s name code buffer ≡ composed text)
      × (caption.sptr ≤ 125)
      × Extends caption text
unfolding compose_message
compose_message_lem s name code buffer is short =
    let (caption, first, bound) =
      compose_caption_lem s (record { buffer = buffer; sptr = 0 }) is refl in
    let (text, second, extends) =
      compose_text_lem s name code caption is bound (short caption.sptr caption.buffer) in
    (caption, text, first, ap (λ o. o >>= compose_text s name code) first ∙ second, bound, extends)
