-- ===== src/CpuCollection/Masks.antt =====
-- Systems without CPU sets, where a process has the processors of one group, as bits of a mask: the
-- other branches of `_MCF_cpu_collection_new` in mcfgthread/src/cpu_collection.c, and of
-- `_MCF_thread_set_affinity` and `_MCF_thread_get_affinity` in mcfgthread/src/thread.c.
pub mod Scanning
pub mod Building
pub mod Affinities
use Prim.Native.Nat.{bit_and, bit_or}
use mcfgthread.Base.{
  ℕ, zero, suc, ◌+◌, ◌-◌, ◌%◌, ◌^◌, Option, none, some, Bool, true, false, not, ◌&&◌, ◌==◌, ltb,
  if◌then◌else◌, ℤ, pos, negsuc, List, [], ◌∷◌,
}
use mcfgthread.Base.Family.{assign}
use mcfgthread.Mutex.{bit_scan_forward}
use mcfgthread.CpuCollection.{Element, Collection, set_selection}
use mcfgthread.Thread.Affinity.{set_all_selections}

-- `coll->__data[k]` for the bit `bit_index`; the memory was zeroed.
abbrev pub processor : ℕ → ℕ → Element
processor group bit_index = record {
  id = (256 + bit_index) % 2 ^ 32;
  core_idx = bit_index % 256;
  effic_cls = 0;
  sched_cls = 0;
  group = group;
  selected = false;
}

abbrev pub add_processor : ℕ → ℕ → Collection → Collection
add_processor group bit_index coll = record {
  size = coll.size + 1;
  data_at = assign coll.size (processor group bit_index) coll.data_at;
}

-- `__MCF_malloc_0`
abbrev pub empty : Collection
empty = record {
  size = 0;
  data_at = λ _. record {
    id = 0;
    core_idx = 0;
    effic_cls = 0;
    sched_cls = 0;
    group = 0;
    selected = false;
  };
}

-- The loop over the bits of `proc_mask`; `none` means that the fuel has run out.
unfoldable pub add_processors : ℕ → ℕ → ℕ → Collection → Option Collection
unfolding bit_scan_forward
add_processors group zero mask_reg coll = if mask_reg == 0 then some coll else none
add_processors group (suc fuel) mask_reg coll =
    let bit_index = bit_scan_forward 64 mask_reg in
    let next =
      add_processors group fuel (bit_and mask_reg (mask_reg - 1))
        (add_processor group bit_index coll) in
    if mask_reg == 0 then some coll else next

-- What the system reports of a core: `info->Processor`.
pub record Core : Type 0 where
  pub mask : ℕ
  pub group : ℕ
  pub efficiency_class : ℕ

-- The loop over the processors for one core.
unfoldable pub with_core : ℕ → Core → Collection → Collection
with_core group core coll =
    if core.group == group
    then record coll {
      data_at = λ k.
          let element = coll.data_at k in
          if ltb k coll.size && not (bit_and core.mask (2 ^ (element.id - 256)) == 0)
          then record element {
            core_idx = bit_scan_forward 64 core.mask % 256;
            effic_cls = core.efficiency_class;
          }
          else element;
    }
    else coll

-- The loop over what the system reports; `none` is a report of another kind.
unfoldable pub with_cores : ℕ → List (Option Core) → Collection → Collection
unfolding with_core
with_cores group [] coll = coll
with_cores group (none ∷ infos) coll = with_cores group infos coll
with_cores group (some core ∷ infos) coll = with_cores group infos (with_core group core coll)

-- What is done with the cores, and the assertion that there is a processor.
unfoldable pub complete_with : ℕ → List (Option Core) → Option Collection → Option Collection
unfolding with_cores
complete_with group infos none = none
complete_with group infos (some coll) =
    let complete = with_cores group infos coll in if complete.size == 0 then none else some complete

-- `_MCF_cpu_collection_new` without CPU sets, where there is memory. The loop needs a round for each
-- of the 64 bits at most.
unfoldable pub new_by_mask : ℕ → ℕ → List (Option Core) → Option Collection
new_by_mask proc_mask group infos =
    complete_with group infos (add_processors group 64 proc_mask empty)

-- The loop of `_MCF_thread_set_affinity` over the indexes below `n`.
unfoldable pub affinity_mask : (ℕ → Element) → ℕ → ℕ
affinity_mask elements zero = 0
affinity_mask elements (suc n) =
    let aff_mask = affinity_mask elements n in
    if (elements n).selected then bit_or aff_mask (2 ^ ((elements n).id - 256)) else aff_mask

-- `_MCF_thread_set_affinity` without CPU sets: the result, and the mask that is passed to the system.
-- `set_mask` is whether the system accepts it.
unfoldable pub set_affinity_by_mask : (ℕ → Bool) → Option Collection → ℤ × ℕ
unfolding affinity_mask
set_affinity_by_mask set_mask none = (negsuc 0, 0)
set_affinity_by_mask set_mask (some coll) =
    let aff_mask = affinity_mask coll.data_at coll.size in
    if aff_mask == 0
    then (negsuc 0, 0)
    else (if set_mask aff_mask then pos 0 else negsuc 1, aff_mask)

-- The loop of `_MCF_thread_get_affinity` from the bit `k` on.
unfoldable pub select_mask : ℕ → ℕ → ℕ → Collection → Collection
unfolding set_selection
select_mask mask k zero coll = coll
select_mask mask k (suc left) coll =
    select_mask mask (k + 1) left
      (if bit_and mask (2 ^ k) == 0 then coll else (set_selection coll (256 + k) true).1)

-- `_MCF_thread_get_affinity` without CPU sets; `mask` is what the system reports, if it does.
unfoldable pub get_affinity_by_mask : Option ℕ → Option Collection → ℤ × Option Collection
unfolding set_all_selections select_mask
get_affinity_by_mask mask none = (negsuc 0, none)
get_affinity_by_mask none (some coll) = (negsuc 1, some (set_all_selections false coll))
get_affinity_by_mask (some mask) (some coll) =
    (pos 0, some (select_mask mask 0 64 (set_all_selections false coll)))
