-- ===== src/Memory.antt =====
-- The functions on blocks of memory in mcfgthread/src/xglobals.h, as they are for x86, and memmove,
-- memcpy, memset and memcmp of xglobals.c over them. Memory is a function of the address; a block
-- does not go past the end of the address space.
pub mod Copying
pub mod Comparing
use mcfgthread.Base.{
  ℕ, zero, suc, ◌+◌, ◌-◌, ◌%◌, ◌^◌, Bool, true, false, not, ◌&&◌, ltb, leb, ◌==◌, if◌then◌else◌,
  Option, none, some, ℤ, pos, negsuc, sub_ℕ, eqb_ℤ,
}
use mcfgthread.Base.Family.{assign}

-- `rep movsb` with the direction flag clear.
unfoldable pub rep_movsb : ℕ → ℕ → ℕ → (ℕ → ℕ) → ℕ → ℕ
rep_movsb edi esi zero memory = memory
rep_movsb edi esi (suc ecx) memory =
    rep_movsb (edi + 1) (esi + 1) ecx (assign edi (memory esi) memory)

-- `std`, `rep movsb`, `cld`
unfoldable pub rep_movsb_down : ℕ → ℕ → ℕ → (ℕ → ℕ) → ℕ → ℕ
rep_movsb_down edi esi zero memory = memory
rep_movsb_down edi esi (suc ecx) memory =
    rep_movsb_down (edi - 1) (esi - 1) ecx (assign edi (memory esi) memory)

-- `rep stosb`, which stores the lowest byte of the register.
unfoldable pub rep_stosb : ℕ → ℕ → ℕ → (ℕ → ℕ) → ℕ → ℕ
rep_stosb edi al zero memory = memory
rep_stosb edi al (suc ecx) memory = rep_stosb (edi + 1) al ecx (assign edi (al % 256) memory)

-- `(uintptr_t) a - (uintptr_t) b`
abbrev pub distance : ℕ → ℕ → ℕ
distance a b = (a + 2 ^ 64 - b) % 2 ^ 64

-- `__MCF_mcopy`; `none` is a failed assertion.
unfoldable pub mcopy : ℕ → ℕ → ℕ → (ℕ → ℕ) → Option (ℕ → ℕ)
unfolding rep_movsb
mcopy dst src size memory =
    if leb size (distance dst src) then some (rep_movsb dst src size memory) else none

-- `__MCF_mcopy_backward`
unfoldable pub mcopy_backward : ℕ → ℕ → ℕ → (ℕ → ℕ) → Option (ℕ → ℕ)
unfolding rep_movsb_down
mcopy_backward dst src size memory =
    if leb size (distance src dst)
    then some (rep_movsb_down (dst + size - 1) (src + size - 1) size memory)
    else none

-- `__MCF_mfill`
unfoldable pub mfill : ℕ → ℕ → ℕ → (ℕ → ℕ) → ℕ → ℕ
unfolding rep_stosb
mfill dst val size memory = rep_stosb dst val size memory

unfoldable pub memcpy : ℕ → ℕ → ℕ → (ℕ → ℕ) → Option (ℕ → ℕ)
memcpy dst src size memory = mcopy dst src size memory

unfoldable pub memmove : ℕ → ℕ → ℕ → (ℕ → ℕ) → Option (ℕ → ℕ)
memmove dst src size memory =
    if leb size (distance dst src)
    then mcopy dst src size memory
    else mcopy_backward dst src size memory

unfoldable pub memset : ℕ → ℕ → ℕ → (ℕ → ℕ) → ℕ → ℕ
unfolding mfill
memset dst val size memory = mfill dst val size memory

-- The zero flag and the carry flag.
pub record Flags : Type 0 where
  pub zf : Bool
  pub cf : Bool

-- `cmpsb`
abbrev pub cmpsb : ℕ → ℕ → Flags
cmpsb a b = record { zf = a == b; cf = ltb a b }

-- The flags of equal bytes, which the functions set before they compare.
abbrev pub equal_flags : Flags
equal_flags = record { zf = true; cf = false }

-- `repz cmpsb`
unfoldable pub repz_cmpsb : ℕ → ℕ → ℕ → (ℕ → ℕ) → Flags → Flags
repz_cmpsb esi edi zero memory flags = flags
repz_cmpsb esi edi (suc ecx) memory flags =
    let compared = cmpsb (memory esi) (memory edi) in
    let rest = repz_cmpsb (esi + 1) (edi + 1) ecx memory compared in
    if compared.zf then rest else compared

-- `setnz`, `sbb`, `or`
abbrev pub difference : Flags → ℤ
difference flags = if flags.cf then negsuc 0 else (if flags.zf then pos 0 else pos 1)

-- `__MCF_mcompare`
unfoldable pub mcompare : ℕ → ℕ → ℕ → (ℕ → ℕ) → ℤ
unfolding repz_cmpsb
mcompare src cmp size memory = difference (repz_cmpsb src cmp size memory equal_flags)

-- `__MCF_mequal`
unfoldable pub mequal : ℕ → ℕ → ℕ → (ℕ → ℕ) → Bool
unfolding repz_cmpsb
mequal src cmp size memory = (repz_cmpsb src cmp size memory equal_flags).zf

-- The loop of `__MCF_do_std_compare`.
unfoldable pub std_compare_loop : ℕ → ℕ → ℕ → (ℕ → ℕ) → ℤ → ℤ
std_compare_loop zero sptr cptr memory diff = diff
std_compare_loop (suc left) sptr cptr memory diff =
    let next =
      std_compare_loop left (sptr + 1) (cptr + 1) memory (sub_ℕ (memory sptr) (memory cptr)) in
    if eqb_ℤ diff (pos 0) then next else diff

-- `__MCF_do_std_compare`, which does the comparisons on other processors.
unfoldable pub std_compare : ℕ → ℕ → ℕ → (ℕ → ℕ) → ℤ
unfolding std_compare_loop
std_compare src cmp size memory = std_compare_loop size src cmp memory (pos 0)

unfoldable pub memcmp : ℕ → ℕ → ℕ → (ℕ → ℕ) → ℤ
unfolding mcompare
memcmp src dst size memory = mcompare src dst size memory
