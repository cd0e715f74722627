-- ===== src/Thread/Layout.antt =====
-- Where `_MCF_thread_p_new` of mcfgthread/src/thread.c puts the data of a new thread.
use Prim.Native.Nat.{bit_or}
use mcfgthread.Base.{ℕ, ◌+◌, ◌-◌, ◌*◌, ◌%◌, ◌≤◌, ◌<◌, ◌≡◌, ◌≢◌}
use mcfgthread.Base.Bits.{power}
use mcfgthread.Thread.{real_alignment, size_request, Placed}

-- An alignment that is accepted, and its real alignment.
abbrev pub IsAligned : ℕ → Type 0
IsAligned data_alignment =
    (k : ℕ) × (c : ℕ) × (0 < c)
    × (real_alignment data_alignment ≡ power k)
    × (real_alignment data_alignment ≡ 16 * c)

-- The data are in the request where they are put.
abbrev pub Fits : ℕ → ℕ → ℕ → ℕ → ℕ → Placed → Type 0
Fits base_size allocation_alignment data_alignment data_size thrd placed =
    (placed.data_opt % real_alignment data_alignment ≡ 0)
    × (thrd + base_size ≤ placed.data_opt)
    × (placed.data_opt + data_size ≡ thrd + placed.size)
    × (base_size + data_size ≤ placed.size)
    × (placed.size ≤ size_request base_size allocation_alignment data_alignment data_size)

module _ (base_size al size thrd : ℕ) (some_data : size ≢ 0) (h : 0 < thrd) (t : thrd % 16 ≡ 0)
    (b : base_size % 16 ≡ 0) where
  abbrev rounded : ℕ
  rounded = bit_or (thrd + base_size - 1) (real_alignment al - 1) + 1
