-- ===== src/SectionName.antt =====
-- The name of the shared section: `do_hex_encode` of mcfgthread/src/xglobals.c and its two calls.
pub mod Decoding
use mcfgthread.Base.{ℕ, zero, suc, ◌+◌, ◌-◌, ◌*◌, ◌/◌, ◌%◌, ◌^◌}
use mcfgthread.Base.Family.{assign}

-- The rounds of `do_hex_encode` that are left, and the buffer by its indexes.
unfoldable pub hex_loop : ℕ → ℕ → ℕ → (ℕ → ℕ) → ℕ → (ℕ → ℕ) → ℕ → ℕ
hex_loop ptr width value digits zero buffer = buffer
hex_loop ptr width value digits (suc left) buffer =
    let k = width - suc left in
    let val = value / 2 ^ ((width - 1 - k) * 4) % 16 in
    hex_loop ptr width value digits left (assign (ptr + k) (digits val) buffer)

-- `do_hex_encode`
unfoldable pub hex_encode : ℕ → ℕ → ℕ → (ℕ → ℕ) → (ℕ → ℕ) → ℕ → ℕ
unfolding hex_loop
hex_encode ptr width value digits buffer = hex_loop ptr width value digits width buffer

-- The process identifier and the cookie in the name, in `__MCF_gthread_initialize_globals`.
unfoldable pub section_name : ℕ → ℕ → (ℕ → ℕ) → (ℕ → ℕ) → (ℕ → ℕ) → ℕ → ℕ
unfolding hex_encode
section_name pid cookie pid_digits cookie_digits gname =
    hex_encode 34 16 cookie cookie_digits (hex_encode 25 8 (pid % 2 ^ 32) pid_digits gname)
