-- ===== src/Timeout.antt =====
-- Timeouts as the NT calls take them: mcfgthread/src/xglobals.c, `__MCF_initialize_winnt_timeout_v3`,
-- `__MCF_adjust_winnt_timeout_v3` and `__MCF_check_wait_safety`.
pub mod Bounds
use mcfgthread.Base.{
  ℕ, ◌+◌, ◌-◌, ◌%◌, ◌^◌, Option, none, some, Bool, true, false, ◌&&◌, if◌then◌else◌, ltb, not, ℤ,
  pos, negsuc, ◌+ℤ◌, ◌*ℤ◌, ltb_ℤ, eqb_ℤ,
}

-- `__MCF_winnt_timeout`: `li.QuadPart` is an `int64_t`, `since` a `uint64_t`.
pub record WinntTimeout : Type 0 where
  pub quad : ℤ
  pub since : ℕ

abbrev pub int64_max : ℤ
int64_max = pos (2 ^ 63 - 1)

-- `now` is what `__MCF_crt_QueryUnbiasedInterruptTimePrecise` returns at the call.
unfoldable pub initialize_winnt_timeout : Option ℤ → ℕ → WinntTimeout
initialize_winnt_timeout none now = record { quad = int64_max; since = 0 }
initialize_winnt_timeout (some ms) now =
    if ltb_ℤ (pos 0) ms
    then if ltb_ℤ (pos 910692730085477) ms
      then record { quad = int64_max; since = 0 }
      else record { quad = (pos 11644473600000 +ℤ ms) *ℤ 10000; since = 0 }
    else if ltb_ℤ ms (pos 0)
    then if ltb_ℤ ms (negsuc (922337203685477 - 1))
      then record { quad = int64_max; since = 0 }
      else record { quad = ms *ℤ 10000; since = now }
    else record { quad = pos 0; since = 0 }

-- The zero-initialised timeout that a slow function has when `*timeout_opt` is zero.
abbrev pub zero_timeout : WinntTimeout
zero_timeout = record { quad = pos 0; since = 0 }

-- The prologue of each slow function: `if(!timeout_opt || (*timeout_opt != 0))` initialize it.
unfoldable pub start_timeout : Option ℤ → ℕ → WinntTimeout
unfolding initialize_winnt_timeout
start_timeout none now = initialize_winnt_timeout none now
start_timeout (some ms) now =
    if eqb_ℤ ms (pos 0) then zero_timeout else initialize_winnt_timeout (some ms) now

-- `nt_timeout.li.QuadPart == 0`
unfoldable pub is_zero : WinntTimeout → Bool
is_zero to = eqb_ℤ to.quad (pos 0)

-- A `uint64_t` cast to `LONGLONG`.
abbrev pub signed64 : ℕ → ℤ
signed64 x = if ltb x (2 ^ 63) then pos x else negsuc (2 ^ 64 - x - 1)

-- `x &= x >> 63`: the shifted value is -1 for a negative `x`, and 0 otherwise.
abbrev pub keep_negative : ℤ → ℤ
keep_negative x = if ltb_ℤ x (pos 0) then x else pos 0

unfoldable pub adjust_winnt_timeout : WinntTimeout → ℕ → WinntTimeout
adjust_winnt_timeout to now = if not (ltb_ℤ to.quad (pos 0)) then to else record {
  quad = keep_negative (to.quad +ℤ signed64 ((now + 2 ^ 64 - to.since) % 2 ^ 64));
  since = now;
}

-- Whether `__MCF_check_wait_safety` returns; otherwise the process is terminated. `shutdown` is
-- `RtlDllShutdownInProgress()`, and `utc` what `GetSystemTimeAsFileTime` stores.
unfoldable pub check_wait_safety : WinntTimeout → Bool → ℕ → Bool
check_wait_safety to false utc = true
check_wait_safety to true utc =
    if not (ltb_ℤ to.quad (negsuc (30000000 - 1))) && not (ltb_ℤ (pos 0) to.quad)
    then true
    else if ltb_ℤ (pos 0) to.quad
    then not (ltb_ℤ (signed64 ((utc + 30000000) % 2 ^ 64)) to.quad)
    else false
