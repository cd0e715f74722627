-- ===== src/FailureMessage.antt =====
-- `do_notify_runtime_failure` of mcfgthread/src/xglobals.c, which composes the caption and the text of
-- a message in one buffer of 1536 characters. What the system writes into it is a parameter. A read
-- beyond the buffer is a fault.
pub mod Appending
pub mod Bounds
pub mod Composing
use mcfgthread.Base.{
  ℕ, zero, suc, ◌+◌, ◌-◌, ◌*◌, ◌%◌, ◌^◌, Bool, true, false, not, ◌&&◌, ◌||◌, ◌==◌, leb,
  if◌then◌else◌, Option, none, some, List, [], ◌∷◌,
}
use mcfgthread.Base.Family.{assign}

abbrev pub end_of_buffer : ℕ
end_of_buffer = 1536

-- `lptr = end_of_buffer - 127`
abbrev pub localized : ℕ
localized = 1409

-- `L'{'`, `L'}'`, `L'\r'`, `L'\n'`, L'`', `L':'` and `L' '`
abbrev pub open_brace : ℕ
open_brace = 123

abbrev pub close_brace : ℕ
close_brace = 125

abbrev pub line_break : List ℕ
line_break = 13 ∷ 10 ∷ []

abbrev pub grave : ℕ
grave = 96

-- `L"DebugActiveProcess"`
abbrev pub placeholder : List ℕ
placeholder =
    68 ∷ 101 ∷ 98 ∷ 117 ∷ 103 ∷ 65 ∷ 99 ∷ 116 ∷ 105 ∷ 118 ∷ 101 ∷ 80 ∷ 114 ∷ 111 ∷ 99 ∷ 101 ∷ 115
    ∷ 115 ∷ []

-- The buffer by the index, and the index to which `sptr` points.
pub record Message : Type 0 where
  pub buffer : ℕ → ℕ
  pub sptr : ℕ

-- `do_append_string`
unfoldable pub append_string : ℕ → Message → Message
append_string c m =
    if m.sptr == end_of_buffer
    then m
    else record { buffer = assign m.sptr c m.buffer; sptr = m.sptr + 1 }

unfoldable pub append_all : List ℕ → Message → Message
unfolding append_string
append_all [] m = m
append_all (c ∷ cs) m = append_all cs (append_string c m)

-- `__MCF_mequal(lptr, L"DebugActiveProcess", ...)`, which reads no further than to a difference.
unfoldable pub matches : List ℕ → ℕ → (ℕ → ℕ) → Option Bool
matches [] lptr buffer = some true
matches (c ∷ cs) lptr buffer =
    let rest = matches cs (lptr + 1) buffer in
    if leb end_of_buffer lptr then none else if buffer lptr == c then rest else some false

pub data Outcome : Type 0 where
  out_of_fuel : Outcome
  fault : Outcome
  composed : Message → Outcome

infixl 5 ◌>>=◌
abbrev pub ◌>>=◌ : Outcome → (Message → Outcome) → Outcome
out_of_fuel >>= f = out_of_fuel
fault >>= f = fault
composed m >>= f = f m

-- What a round of the loop over the text appends, and the characters that it goes on by.
abbrev pub replaced : List ℕ → ℕ → Bool → Message → Message × ℕ
replaced name c true m = (append_all (grave ∷ []) (append_all name (append_all (grave ∷ []) m)), 18)
replaced name c false m = (append_string c m, 1)

-- The loop over the text, with the function's name for the placeholder.
unfoldable pub text_loop : List ℕ → ℕ → ℕ → Message → Outcome
text_loop name zero lptr m = out_of_fuel
text_loop name (suc fuel) lptr m =
    if leb end_of_buffer lptr
    then fault
    else if (m.buffer lptr == 0) || (m.buffer lptr == close_brace)
    then composed m
    else elim (matches placeholder lptr m.buffer) [
      | none ↦ fault
      | some replace ↦
          text_loop name fuel (lptr + (replaced name (m.buffer lptr) replace m).1)
            (replaced name (m.buffer lptr) replace m).0
    ]

-- The loop over the caption.
unfoldable pub caption_loop : ℕ → ℕ → Message → Outcome
unfolding append_string
caption_loop zero lptr m = out_of_fuel
caption_loop (suc fuel) lptr m =
    let next = caption_loop fuel (lptr + 1) (append_string (m.buffer lptr) m) in
    if leb end_of_buffer lptr
    then fault
    else if (m.buffer lptr == 0) || (m.buffer lptr == close_brace)
    then composed m
    else next

-- FormatMessageW with a number of the message, and GetModuleFileNameW, from an index to the end of
-- the buffer: the length of what is written, and the buffer.
pub record System : Type 0 where
  pub format_message : ℕ → ℕ → (ℕ → ℕ) → ℕ × (ℕ → ℕ)
  pub module_file_name : ℕ → (ℕ → ℕ) → ℕ × (ℕ → ℕ)

-- A round of a loop goes on by one character at least, and there are 126 of them.
abbrev pub rounds : ℕ
rounds = 127

-- The caption, from the localized text of the message 574.
unfoldable pub compose_caption : System → Message → Outcome
compose_caption system m =
    let (outlen, buffer) = system.format_message 574 localized m.buffer in
    let written = record m { buffer = buffer } in
    if not (outlen == 0) && (buffer localized == open_brace)
    then caption_loop rounds (localized + 1) written
    else composed written

-- The file name of the executable, and two line breaks.
unfoldable pub append_file_name : System → Message → Message
append_file_name system m =
    let (outlen, buffer) = system.module_file_name m.sptr m.buffer in
    if outlen == 0
    then record m { buffer = buffer }
    else append_all line_break
        (append_all line_break (record { buffer = buffer; sptr = m.sptr + outlen }))

-- The localized text of the message 590.
unfoldable pub append_text : System → List ℕ → Message → Outcome
append_text system name m =
    let (outlen, buffer) = system.format_message 590 localized m.buffer in
    let written = record m { buffer = buffer } in
    if not (outlen == 0) && (buffer localized == open_brace)
    then (text_loop name rounds (localized + 1) written >>= λ done.
        composed (append_all (58 ∷ 32 ∷ []) done))
    else composed written

-- The description of the error.
unfoldable pub append_error : System → ℕ → Message → Message
append_error system code m =
    let (outlen, buffer) = system.format_message code m.sptr m.buffer in
    record { buffer = buffer; sptr = m.sptr + outlen }

-- The text, behind a caption.
unfoldable pub compose_text : System → List ℕ → ℕ → Message → Outcome
compose_text system name code m = append_text system name (append_file_name system m) >>= λ m1.
    composed (append_error system code m1)

-- The caption and the text in one buffer.
unfoldable pub compose_message : System → List ℕ → ℕ → (ℕ → ℕ) → Outcome
compose_message system name code buffer =
    compose_caption system (record { buffer = buffer; sptr = 0 }) >>= compose_text system name code
