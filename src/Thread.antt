-- ===== src/Thread.antt =====
-- Threads: mcfgthread/src/thread.c and mcfgthread/thread.h, with 64-bit pointers. `none` is a failed
-- assertion.
pub mod Layout
pub mod Lifetime
pub mod Exit
pub mod Starting
pub mod Affinity
use Prim.Native.Nat.{bit_and, bit_or}
use mcfgthread.Base.{
  ℕ, zero, suc, ◌+◌, ◌-◌, ◌*◌, ◌/◌, ◌%◌, ◌^◌, Option, none, some, Bool, true, false, not, ◌&&◌,
  ◌||◌, ◌==◌, ltb, leb, if◌then◌else◌, ℤ, pos, negsuc, List, [], ◌∷◌, ◌⊎◌, inl, inr,
}
use mcfgthread.Base.Family.{assign}
use mcfgthread.DtorQueue.{Queue}
use mcfgthread.Tls.{Table}

-- The errors that `_MCF_thread_p_new` reports.
pub data Error : Type 0 where
  invalid_parameter : Error
  not_supported : Error
  arithmetic_overflow : Error
  not_enough_memory : Error
  from_system : Error

-- `__MCF_THREAD_DATA_ALIGNMENT`
abbrev pub data_alignment_default : ℕ
data_alignment_default = 16

-- `__MCF_THREAD_MAX_DATA_ALIGNMENT`
abbrev pub max_data_alignment : ℕ
max_data_alignment = 0x200000

-- The guards at the beginning of `_MCF_thread_p_new`.
unfoldable pub check_arguments : ℕ → ℕ → ℕ → Option Error
check_arguments proc data_alignment data_size =
    if proc == 0
    then some invalid_parameter
    else if not (bit_and data_alignment ((data_alignment + 2 ^ 64 - 1) % 2 ^ 64) == 0)
    then some invalid_parameter
    else if ltb max_data_alignment data_alignment
    then some not_supported
    else if ltb (0x8000000 - max_data_alignment) data_size
    then some arithmetic_overflow
    else none

-- `_MCF_maxz`
abbrev pub maxz : ℕ → ℕ → ℕ
maxz x y = if ltb x y then y else x

-- How many bytes to allocate. `base_size` is `sizeof(__MCF_thread_base)`, and `allocation_alignment` is
-- `MEMORY_ALLOCATION_ALIGNMENT`.
abbrev pub real_alignment : ℕ → ℕ
real_alignment data_alignment = maxz data_alignment_default data_alignment

unfoldable pub size_request : ℕ → ℕ → ℕ → ℕ → ℕ
size_request base_size allocation_alignment data_alignment data_size =
    if data_size == 0
    then base_size + data_size
    else base_size + data_size + real_alignment data_alignment - allocation_alignment

-- Where the data are to be, and what is left of the request when the excess has been given back.
pub record Placed : Type 0 where
  pub data_opt : ℕ
  pub size : ℕ

unfoldable pub place_data : ℕ → ℕ → ℕ → ℕ → ℕ → Placed
unfolding size_request
place_data base_size allocation_alignment data_alignment data_size thrd =
    let request = size_request base_size allocation_alignment data_alignment data_size in
    if data_size == 0
    then record { data_opt = 0; size = request }
    else if base_size + data_size == request
    then record { data_opt = thrd + base_size; size = request }
    else let data_addr = bit_or (thrd + base_size - 1) (real_alignment data_alignment - 1) + 1 in
      record { data_opt = data_addr; size = data_addr + data_size - thrd }

-- `struct __MCF_thread_base`
pub record ThreadBase : Type 0 where
  pub nref : ℕ
  pub tid : ℕ
  pub handle : ℕ
  pub proc : ℕ
  pub data_opt : ℕ
  pub atexit_queue : Queue
  pub tls_table : Table

abbrev pub zeroes : ThreadBase
zeroes = record {
  nref = 0;
  tid = 0;
  handle = 0;
  proc = 0;
  data_opt = 0;
  atexit_queue = record { block = []; prev = [] };
  tls_table = record {
    size = 0;
    element_at = λ _. record { key_opt = 0; value_opt = 0 };
    size_hint = 0;
  };
}

-- The structures by their addresses, and which of them are allocated.
pub record Threads : Type 0 where
  pub thread : ℕ → ThreadBase
  pub allocated : ℕ → Bool
  pub main_thread : ℕ
  pub oom_self : ℕ
  pub oom_locked : Bool

-- `__MCF_malloc_0`
abbrev pub malloc_0 : ℕ → Threads → Threads
malloc_0 thrd w = record w {
  thread = assign thrd zeroes w.thread;
  allocated = assign thrd true w.allocated;
}

-- `__MCF_mfree_nonnull`
abbrev pub mfree_nonnull : ℕ → Threads → Threads
mfree_nonnull thrd w = record w { allocated = assign thrd false w.allocated }

-- The allocation of the structure and the creation of the thread, when the arguments have been checked.
-- `data_at` is the address of the data for that of the block.
abbrev pub new_with :
    (proc : ℕ) (data_at : ℕ → ℕ)
    → Option Error
    → Option ℕ
    → Option (ℕ × ℕ)
    → Threads
    → (Error ⊎ ℕ) × Threads
new_with proc data_at (some e) memory created w = (inl e, w)
new_with proc data_at none none created w = (inl not_enough_memory, w)
new_with proc data_at none (some thrd) none w =
    (inl from_system, mfree_nonnull thrd (malloc_0 thrd w))
new_with proc data_at none (some thrd) (some (handle, tid)) w = (
  inr thrd,
  record (malloc_0 thrd w) {
    thread =
        assign thrd
          (record zeroes {
            nref = 2;
            proc = proc;
            data_opt = data_at thrd;
            handle = handle;
            tid = tid;
          })
          w.thread;
  },
)

-- `_MCF_thread_p_new`. `memory` is the address of the new block, if there is one; `created` is the handle
-- and the identifier of the new thread of the system, if there is one.
unfoldable pub thread_p_new :
    ℕ → ℕ → ℕ → ℕ → ℕ → Option ℕ → Option (ℕ × ℕ) → Threads → (Error ⊎ ℕ) × Threads
unfolding check_arguments place_data
thread_p_new base_size allocation_alignment proc data_alignment data_size memory created w =
    new_with proc
      (λ thrd. (place_data base_size allocation_alignment data_alignment data_size thrd).data_opt)
      (check_arguments proc data_alignment data_size) memory created w

-- `__MCF_thread_attach_foreign`
unfoldable pub thread_attach_foreign : ℕ → ℕ → ℕ → Threads → Option Threads
thread_attach_foreign thrd tid handle w =
    let t = w.thread thrd in
    if (t.nref == 0) && (t.tid == 0) && (t.handle == 0) && not (handle == 0)
    then some (record w {
      thread = assign thrd (record t { tid = tid; handle = handle; nref = 1 }) w.thread;
    })
    else none

-- `_MCF_thread_add_ref`
unfoldable pub thread_add_ref : ℕ → Threads → Threads
thread_add_ref thrd w = record w {
  thread = assign thrd (record (w.thread thrd) { nref = (w.thread thrd).nref + 1 }) w.thread;
}

-- The end of `_MCF_thread_drop_ref_nonnull`, when no reference is left.
unfoldable pub free_thread : ℕ → Threads → Option Threads
free_thread thrd w = elim (w.thread thrd).atexit_queue.prev [
  | _ ∷ _ ↦ none
  | [] ↦
      if not ((w.thread thrd).tls_table.size == 0)
      then none
      else if thrd == w.oom_self
      then some (record w { thread = assign thrd zeroes w.thread; oom_locked = false })
      else some (mfree_nonnull thrd w)
]

-- `_MCF_thread_drop_ref_nonnull`
unfoldable pub thread_drop_ref_nonnull : ℕ → Threads → Option Threads
unfolding free_thread
thread_drop_ref_nonnull thrd w =
    let t = w.thread thrd in
    let w1 = record w { thread = assign thrd (record t { nref = t.nref - 1 }) w.thread } in
    if t.nref == 0
    then none
    else if not (t.nref == 1)
    then some w1
    else if thrd == w.main_thread
    then some w1
    else free_thread thrd w1

-- `do_thread_self_slow`: the structure, which may be the backup for when there is no memory. `self` is
-- what the slot of the thread holds. When the backup is in use, the thread waits until it is not.
unfoldable pub thread_self_slow : ℕ → Option ℕ → ℕ → ℕ → Threads → Option (ℕ × Threads)
unfolding thread_attach_foreign
thread_self_slow self memory tid handle w =
    if not (self == 0) then some (self, w) else elim memory [
      | some thrd ↦ elim (thread_attach_foreign thrd tid handle (malloc_0 thrd w)) [
        | none ↦ none
        | some w1 ↦ some (thrd, w1)
      ]
      | none ↦
          if (w.oom_self == 0) || not ((w.thread w.oom_self).handle == 0)
          then none
          else elim (thread_attach_foreign w.oom_self tid handle (record w { oom_locked = true })) [
            | none ↦ none
            | some w1 ↦ some (w.oom_self, w1)
          ]
    ]
