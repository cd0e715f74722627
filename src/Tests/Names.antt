-- ===== src/Tests/Names.antt =====
-- The name of the shared section of the process 0xBEEF.
use mcfgthread.Base.{ℕ, ◌+◌, ◌≡◌, refl, ltb, if◌then◌else◌, ℕ_discrete}
use mcfgthread.SectionName.{hex_encode, section_name, hex_loop}

-- `"0123456789ABCDEF"`
abbrev hex_digit : ℕ → ℕ
hex_digit d = if ltb d 10 then 48 + d else 55 + d

eighth : section_name 0xBEEF 0 hex_digit (λ d. 71 + d) (λ _. 0) 32 ≡ 70
unfolding section_name hex_encode hex_loop ℕ_discrete
eighth = refl
