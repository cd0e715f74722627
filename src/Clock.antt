-- ===== src/Clock.antt =====
-- The clocks: mcfgthread/src/clock.c. A reading of a system clock is an argument.
pub mod Division
use mcfgthread.Base.{ℕ, ◌+◌, ◌-◌, ◌*◌, ◌/◌, ◌%◌, ◌^◌, ℤ}
use mcfgthread.Timeout.{signed64}

-- `do_divide_by_10000` with a 128-bit product.
unfoldable pub divide_by_10000 : ℕ → ℕ
divide_by_10000 value = value * 0x68DB8BAC710CC % 2 ^ 128 / 2 ^ 64 % 2 ^ 64

-- `do_divide_by_10000` with 64-bit products.
unfoldable pub divide_by_10000_in_halves : ℕ → ℕ
divide_by_10000_in_halves value =
    let x0 = value % 2 ^ 32 * 0xBAC710CC % 2 ^ 64 / 2 ^ 32 in
    let x1 = value % 2 ^ 32 * 0x68DB8 % 2 ^ 64 in
    let x2 = (value / 2 ^ 32 * 0xBAC710CC + x1 % 2 ^ 32 + x0) % 2 ^ 64 / 2 ^ 32 in
    (value / 2 ^ 32 * 0x68DB8 + x2 + x1 / 2 ^ 32) % 2 ^ 64

-- `_MCF_utc_now`, with the cast to `int64_t`; `ull` is what `GetSystemTimeAsFileTime` stores.
unfoldable pub utc_now : ℕ → ℤ
unfolding divide_by_10000
utc_now ull = signed64 (divide_by_10000 ((ull + 2 ^ 64 - 116444736000000000) % 2 ^ 64))

-- `_MCF_steady_now` and `_MCF_tick_count`, with the cast; `ull` is the system's count.
unfoldable pub steady_now : ℕ → ℤ
unfolding divide_by_10000
steady_now ull = signed64 (divide_by_10000 ull)
