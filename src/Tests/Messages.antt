-- ===== src/Tests/Messages.antt =====
-- Messages of failures, with a short path and with one that is too long.
use mcfgthread.Base.{ℕ, ◌+◌, ◌≤◌, ◌≡◌, refl, ◌==◌, ltb, if◌then◌else◌, [], ◌∷◌, arith, ℕ_discrete}
use mcfgthread.FailureMessage.{
  System, Message, fault, composed, append_string, append_all, matches, text_loop, compose_caption,
  append_file_name, append_text, compose_message, end_of_buffer,
}
use mcfgthread.FailureMessage.Bounds.{IsSystem}
use mcfgthread.FailureMessage.Composing.{Extends, compose_message_lem}

-- "{a}" and a null character, from an index on, if there is room for it.
abbrev braces : ℕ → (ℕ → ℕ) → ℕ → ℕ
braces at buffer j =
    if j == at
    then 123
    else if j == at + 1
    then 97
    else if j == at + 2
    then 125
    else if j == at + 3
    then 0
    else buffer j

abbrev short_path : System
short_path = record {
  format_message = λ code at buffer. (
    if ltb (at + 3) end_of_buffer then 3 else 0,
    if ltb (at + 3) end_of_buffer then braces at buffer else buffer,
  );
  module_file_name = λ at buffer. (if ltb (at + 1) end_of_buffer then 1 else 0, buffer);
}

short_path-IsSystem : IsSystem short_path
short_path-IsSystem = record {
  formatted = λ code at buffer. ground arith;
  format_in_front = λ code at buffer j lt. ground arith;
  named = λ at buffer h. ground arith;
  name_in_front = λ at buffer j lt. refl;
}

compose_message_lem_example :
    (caption : Message) × (text : Message) × (compose_caption short_path
        (record { buffer = λ _. 0; sptr = 0 })
      ≡ composed caption)
    × (compose_message short_path (102 ∷ 110 ∷ []) 5 (λ _. 0) ≡ composed text)
    × (caption.sptr ≤ 125)
    × Extends caption text
compose_message_lem_example =
    compose_message_lem short_path (102 ∷ 110 ∷ []) 5 (λ _. 0) short_path-IsSystem
      (λ at b. ground arith)

-- A path of 1407 characters, so that the text is appended right behind the first character that is
-- read. Each character that is appended is then read again, the brace that ends the text is never
-- seen, and the loop reads beyond the buffer.
abbrev long_path : System
long_path = record {
  format_message = λ code at buffer.
      (if code == 590 then 3 else 0, if code == 590 then braces at buffer else buffer);
  module_file_name = λ at buffer. (1407, buffer);
}

overrun :
    append_text long_path [] (append_file_name long_path (record { buffer = λ _. 46; sptr = 0 }))
    ≡ fault
unfolding append_text append_file_name append_all append_string text_loop matches ℕ_discrete
overrun = refl
