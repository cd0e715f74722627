-- ===== src/CpuCollection.antt =====
-- The CPU collection: the lookup by identifier in mcfgthread/src/cpu_collection.c, and the functions
-- that use it.
pub mod Lookup
pub mod Shifting
pub mod Inserting
pub mod Masks
use mcfgthread.Base.{
  ℕ, zero, suc, ◌+◌, ◌-◌, ◌*◌, ◌/◌, ◌%◌, ◌^◌, Option, none, some, Bool, true, false, not, ◌&&◌,
  ◌==◌, ltb, if◌then◌else◌, ℤ, pos, negsuc, List, [], ◌∷◌,
}
use mcfgthread.Base.Family.{assign}

-- `struct __MCF_cpu_element`
pub record Element : Type 0 where
  pub id : ℕ
  pub core_idx : ℕ
  pub effic_cls : ℕ
  pub sched_cls : ℕ
  pub group : ℕ
  pub selected : Bool

-- `struct __MCF_cpu_collection`: the elements at the indexes below `size` are there.
pub record Collection : Type 0 where
  pub size : ℕ
  pub data_at : ℕ → Element

-- The `for(;;)` of `do_find_cpu_opt`, which finds the index of the element.
unfoldable pub search : (ℕ → Element) → ℕ → ℕ → ℕ → ℕ → Option ℕ
search elements id zero bpos epos = none
search elements id (suc fuel) bpos epos =
    let mpos = bpos + (epos - bpos) / 2 in
    let lower = search elements id fuel bpos mpos in
    let upper = search elements id fuel (mpos + 1) epos in
    if bpos == epos
    then none
    else if id == (elements mpos).id
    then some mpos
    else if ltb id (elements mpos).id
    then lower
    else upper

-- `do_find_cpu_opt`
unfoldable pub find_cpu_opt : Collection → ℕ → Option ℕ
unfolding search
find_cpu_opt coll id =
    let searched = search coll.data_at id (coll.size + 1) 0 coll.size in
    if not (ltb id 256)
      && ltb id ((256 + coll.size) % 2 ^ 32)
      && (id == (coll.data_at (id - 256)).id)
    then some (id - 256)
    else searched

-- `UINT32_MAX`
abbrev pub uint32_max : ℕ
uint32_max = 2 ^ 32 - 1

-- `_MCF_cpu_collection_find`
unfoldable pub find : Collection → ℕ → ℕ
find coll id = elim (find_cpu_opt coll id) [ none ↦ uint32_max | some i ↦ i ]

-- `_MCF_cpu_collection_get_group`
unfoldable pub get_group : Collection → ℕ → ℕ
get_group coll id = elim (find_cpu_opt coll id) [
  | none ↦ uint32_max
  | some i ↦ (coll.data_at i).group
]

-- `_MCF_cpu_collection_get_core`
unfoldable pub get_core : Collection → ℕ → ℕ
get_core coll id = elim (find_cpu_opt coll id) [
  | none ↦ uint32_max
  | some i ↦ ((coll.data_at i).group * 256 + (coll.data_at i).core_idx) % 2 ^ 32
]

-- `_MCF_cpu_collection_get_efficiency_class`
unfoldable pub get_efficiency_class : Collection → ℕ → ℕ
get_efficiency_class coll id = elim (find_cpu_opt coll id) [
  | none ↦ uint32_max
  | some i ↦ (coll.data_at i).effic_cls
]

-- `_MCF_cpu_collection_get_scheduling_class`
unfoldable pub get_scheduling_class : Collection → ℕ → ℕ
get_scheduling_class coll id = elim (find_cpu_opt coll id) [
  | none ↦ uint32_max
  | some i ↦ (coll.data_at i).sched_cls
]

-- `_MCF_cpu_collection_get_selection`
unfoldable pub get_selection : Collection → ℕ → Bool
get_selection coll id = elim (find_cpu_opt coll id) [
  | none ↦ false
  | some i ↦ (coll.data_at i).selected
]

-- `elem->__selected = selected` for the element at an index.
unfoldable pub select_at : ℕ → Bool → Collection → Collection
select_at i selected coll = record coll {
  data_at = λ j. if j == i then record (coll.data_at j) { selected = selected } else coll.data_at j;
}

-- `_MCF_cpu_collection_set_selection`: the result, and the collection.
unfoldable pub set_selection : Collection → ℕ → Bool → ℤ × Collection
unfolding select_at
set_selection coll id selected = elim (find_cpu_opt coll id) [
  | none ↦ (negsuc 0, coll)
  | some i ↦ (if (coll.data_at i).selected then pos 1 else pos 0, select_at i selected coll)
]

-- What the system reports of a processor: `info->CpuSet`.
pub record CpuSet : Type 0 where
  pub id : ℕ
  pub group : ℕ
  pub core_index : ℕ
  pub efficiency_class : ℕ
  pub scheduling_class : ℕ

-- `while((i != 0) && (coll->__data[--i].__id > Id)) coll->__data[k--] = coll->__data[i];`: the elements,
-- and `k`.
unfoldable pub make_room : ℕ → ℕ → ℕ → (ℕ → Element) → (ℕ → Element) × ℕ
make_room id zero k elements = (elements, k)
make_room id (suc i) k elements =
    let moved = make_room id i (k - 1) (assign k (elements i) elements) in
    if ltb id (elements i).id then moved else (elements, k)

abbrev pub with_info : CpuSet → Element → Element
with_info info e = record e {
  id = info.id;
  group = info.group;
  core_idx = info.core_index;
  effic_cls = info.efficiency_class;
  sched_cls = info.scheduling_class;
}

-- One round of the loop of `_MCF_cpu_collection_new`, for information about a processor.
unfoldable pub insert : CpuSet → Collection → Collection
unfolding make_room
insert info coll =
    let (elements, k) = make_room info.id coll.size coll.size coll.data_at in
    record { size = coll.size + 1; data_at = assign k (with_info info (elements k)) elements }

-- `while(info != end_of_info)`: what has another type is skipped.
unfoldable pub insert_all : List (Option CpuSet) → Collection → Collection
unfolding insert
insert_all [] coll = coll
insert_all (none ∷ infos) coll = insert_all infos coll
insert_all (some info ∷ infos) coll = insert_all infos (insert info coll)
