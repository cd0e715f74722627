-- ===== src/Tests/Clocks.antt =====
-- The clocks at given inputs.
use mcfgthread.Base.{◌+◌, ◌-◌, ◌*◌, ◌/◌, ◌^◌, ◌≡◌, ◌⊎◌, ◌<ℤ◌, pos, refl, arith}
use mcfgthread.Clock.{divide_by_10000, utc_now}
use mcfgthread.Clock.Division.{utc_now_lem}

first_error : divide_by_10000 2200231879029999 ≡ 220023187903
unfolding divide_by_10000
first_error = refl

-- One millisecond and 7 hundreds of nanoseconds after the epoch, one millisecond before it, and 2025.
utc_now_lem_example :
    (utc_now (116444736000000000 + 10000 * 1) ≡ pos 1)
    × ((utc_now (116444736000000000 + (10000 * 1 + 7)) ≡ pos 1)
        ⊎ (utc_now (116444736000000000 + (10000 * 1 + 7)) ≡ pos (1 + 1)))
    × ((utc_now (116444736000000000 - 10000) ≡ pos ((2 ^ 64 - 10000) / 10000))
        ⊎ (utc_now (116444736000000000 - 10000) ≡ pos ((2 ^ 64 - 10000) / 10000 + 1)))
    × (utc_now 133943904000000000 <ℤ utc_now (116444736000000000 - 10000))
utc_now_lem_example =
    utc_now_lem 1 7 10000 133943904000000000 (omega arith) (omega arith) (omega arith) (omega arith)
      (omega arith) (omega arith)
