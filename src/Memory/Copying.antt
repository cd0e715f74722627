-- ===== src/Memory/Copying.antt =====
-- Copies of blocks that overlap: memmove of mcfgthread/src/xglobals.c and what it calls.
use mcfgthread.Base.{
  ℕ, zero, suc, ◌+◌, ◌-◌, ◌^◌, ◌≤◌, ◌<◌, ◌≡◌, ◌≢◌, ◌⊎◌, inl, inr, refl, ◌∙◌, leb, none, some, arith,
  ℕ_discrete, Bool-cases,
}
use mcfgthread.Base.Family.{assign, assign-here, assign-elsewhere}
use mcfgthread.Memory.{rep_movsb, rep_movsb_down, mcopy, mcopy_backward, memmove, distance}

-- Outside a block of `size` bytes at `dst`.
abbrev pub Outside : ℕ → ℕ → ℕ → Type 0
Outside dst size j = (j < dst) ⊎ (dst + size ≤ j)

rep_movsb-Outside :
    (edi esi ecx : ℕ) (memory : ℕ → ℕ) (j : ℕ)
    → Outside edi ecx j
    → rep_movsb edi esi ecx memory j ≡ memory j
unfolding rep_movsb
rep_movsb-Outside edi esi zero memory j out = refl
rep_movsb-Outside edi esi (suc ecx) memory j out =
    rep_movsb-Outside (edi + 1) (esi + 1) ecx (assign edi (memory esi) memory) j (ground arith)
    ∙ assign-elsewhere edi (memory esi) memory j (ground arith)

-- A copy upwards is right unless the destination begins inside the source.
rep_movsb-inside :
    (edi esi ecx : ℕ) (memory : ℕ → ℕ) (i : ℕ)
    → (edi ≤ esi) ⊎ (esi + ecx ≤ edi)
    → i < ecx
    → rep_movsb edi esi ecx memory (edi + i) ≡ memory (esi + i)
unfolding rep_movsb
rep_movsb-inside edi esi zero memory i apart lt = elim lt [ ]
rep_movsb-inside edi esi (suc ecx) memory zero apart lt =
    let start : edi + 0 ≡ edi = omega arith in
    let from : esi + 0 ≡ esi = omega arith in
    rw (start, from)
      (rep_movsb-Outside (edi + 1) (esi + 1) ecx (assign edi (memory esi) memory) edi
          (inl (omega arith))
        ∙ assign-here edi (memory esi) memory edi refl)
rep_movsb-inside edi esi (suc ecx) memory (suc i) apart lt =
    let there : edi + suc i ≡ edi + 1 + i = omega arith in
    let from : esi + suc i ≡ esi + 1 + i = omega arith in
    rw (there, from)
      (rep_movsb-inside (edi + 1) (esi + 1) ecx (assign edi (memory esi) memory) i (ground arith)
          (omega arith)
        ∙ assign-elsewhere edi (memory esi) memory (esi + 1 + i) (ground arith))

-- One byte of a copy downwards, from the ends of the blocks.
rep_movsb_down-suc :
    (dst src n : ℕ) (memory : ℕ → ℕ)
    → rep_movsb_down (dst + suc n - 1) (src + suc n - 1) (suc n) memory
      ≡ rep_movsb_down (dst + n - 1) (src + n - 1) n (assign (dst + n) (memory (src + n)) memory)
unfolding rep_movsb_down
rep_movsb_down-suc dst src n memory =
    let d : dst + suc n - 1 ≡ dst + n = omega arith in
    let s : src + suc n - 1 ≡ src + n = omega arith in rw (d, s)

rep_movsb_down-Outside :
    (dst src size : ℕ) (memory : ℕ → ℕ) (j : ℕ)
    → Outside dst size j
    → rep_movsb_down (dst + size - 1) (src + size - 1) size memory j ≡ memory j
rep_movsb_down-Outside dst src zero memory j out = unfold rep_movsb_down in refl
rep_movsb_down-Outside dst src (suc n) memory j out = rw (rep_movsb_down-suc dst src n memory) (
    rep_movsb_down-Outside dst src n (assign (dst + n) (memory (src + n)) memory) j (ground arith)
    ∙ assign-elsewhere (dst + n) (memory (src + n)) memory j (ground arith))

-- A copy downwards is right unless the source begins inside the destination.
rep_movsb_down-inside :
    (dst src size : ℕ) (memory : ℕ → ℕ) (i : ℕ)
    → (src ≤ dst) ⊎ (dst + size ≤ src)
    → i < size
    → rep_movsb_down (dst + size - 1) (src + size - 1) size memory (dst + i) ≡ memory (src + i)
rep_movsb_down-inside dst src zero memory i apart lt = elim lt [ ]
rep_movsb_down-inside dst src (suc n) memory i apart lt =
    let rest = assign (dst + n) (memory (src + n)) memory in
    elim (ℕ_discrete i n) [
      | yes last ↦
          rw (rep_movsb_down-suc dst src n memory, last)
            (rep_movsb_down-Outside dst src n rest (dst + n) (inr (omega arith))
              ∙ assign-here (dst + n) (memory (src + n)) memory (dst + n) refl)
      | no below ↦ rw (rep_movsb_down-suc dst src n memory) (
          rep_movsb_down-inside dst src n rest i (ground arith) (omega arith)
          ∙ assign-elsewhere (dst + n) (memory (src + n)) memory (src + i) (ground arith))
    ]

-- The block at `dst` holds what the one at `src` held, and no other byte has changed.
abbrev pub Copied : ℕ → ℕ → ℕ → (ℕ → ℕ) → (ℕ → ℕ) → Type 0
Copied dst src size before after =
    ((i : ℕ) → i < size → after (dst + i) ≡ before (src + i))
    × ((j : ℕ) → Outside dst size j → after j ≡ before j)

module _ (dst src size : ℕ) (memory : ℕ → ℕ) where
  mcopy_lem :
      size ≤ distance dst src
      → (dst ≤ src) ⊎ (src + size ≤ dst)
      → (after : ℕ → ℕ) × (mcopy dst src size memory ≡ some after)
        × Copied dst src size memory after
  unfolding mcopy
  mcopy_lem h apart = (
    rep_movsb dst src size memory,
    ground arith,
    (
      λ i lt. rep_movsb-inside dst src size memory i apart lt,
      λ j out. rep_movsb-Outside dst src size memory j out,
    ),
  )

  mcopy_backward_lem :
      size ≤ distance src dst
      → (src ≤ dst) ⊎ (dst + size ≤ src)
      → (after : ℕ → ℕ) × (mcopy_backward dst src size memory ≡ some after)
        × Copied dst src size memory after
  unfolding mcopy_backward
  mcopy_backward_lem h apart = (
    rep_movsb_down (dst + size - 1) (src + size - 1) size memory,
    ground arith,
    (
      λ i lt. rep_movsb_down-inside dst src size memory i apart lt,
      λ j out. rep_movsb_down-Outside dst src size memory j out,
    ),
  )

-- Two different blocks that lie in the address space, however they overlap: memmove copies the
-- one to the other, byte for byte, changes nothing else, and no assertion fails.
pub memmove_lem :
    (dst src size : ℕ) (memory : ℕ → ℕ)
    → dst + size ≤ 2 ^ 64
    → src + size ≤ 2 ^ 64
    → dst ≢ src
    → (after : ℕ → ℕ) × (memmove dst src size memory ≡ some after)
      × Copied dst src size memory after
unfolding memmove
memmove_lem dst src size memory d s differ = elim (Bool-cases (leb size (distance dst src))) [
  | inl up ↦ rw up (mcopy_lem dst src size memory (ground arith) (ground arith))
  | inr down ↦ rw down (mcopy_backward_lem dst src size memory (ground arith) (ground arith))
]

-- On a block that is not empty and is moved to itself, memmove fails an assertion.
pub memmove_self :
    (block size : ℕ) (memory : ℕ → ℕ)
    → block < 2 ^ 64
    → 0 < size
    → memmove block block size memory ≡ none
unfolding memmove mcopy_backward
memmove_self block size memory b h = ground arith
