-- ===== src/Thread/Affinity.antt =====
-- Affinities of threads by CPU sets: `_MCF_thread_set_affinity` and `_MCF_thread_get_affinity` of
-- mcfgthread/src/thread.c, with the inline functions of mcfgthread/cpu_collection.h that they call.
pub mod Selecting
use mcfgthread.Base.{
  ℕ, zero, suc, ◌+◌, Option, none, some, Bool, true, false, ltb, if◌then◌else◌, List, [], ◌∷◌, ◌++◌,
  ℤ, pos, negsuc,
}
use mcfgthread.CpuCollection.{Element, Collection, set_selection}

-- `_MCF_cpu_collection_set_all_selections`
unfoldable pub set_all_selections : Bool → Collection → Collection
set_all_selections selected coll = record coll {
  data_at = λ i.
      if ltb i coll.size then record (coll.data_at i) { selected = selected } else coll.data_at i;
}

-- The first loop of `_MCF_thread_set_affinity`: the identifiers of the selected processors at the indexes
-- below `n`, by rising index.
unfoldable pub selected_ids : (ℕ → Element) → ℕ → List ℕ
selected_ids elements zero = []
selected_ids elements (suc n) =
    let ids = selected_ids elements n in
    if (elements n).selected then ids ++ ((elements n).id ∷ []) else ids

abbrev pub passed_on : (List ℕ → Bool) → List ℕ → ℤ × List ℕ
passed_on set_cpus [] = (negsuc 0, [])
passed_on set_cpus (id ∷ ids) = (if set_cpus (id ∷ ids) then pos 0 else negsuc 1, id ∷ ids)

-- `_MCF_thread_set_affinity`, where the system has CPU sets: the result, and the identifiers that are
-- passed to the system. `set_cpus` is whether the system accepts them.
unfoldable pub set_affinity : (List ℕ → Bool) → Option Collection → ℤ × List ℕ
unfolding selected_ids
set_affinity set_cpus none = (negsuc 0, [])
set_affinity set_cpus (some coll) = passed_on set_cpus (selected_ids coll.data_at coll.size)

-- The loop of `_MCF_thread_get_affinity`.
unfoldable pub select_all_of : List ℕ → Collection → Collection
unfolding set_selection
select_all_of [] coll = coll
select_all_of (id ∷ ids) coll = select_all_of ids (set_selection coll id true).1

abbrev pub select_reported : List ℕ → Collection → Collection
select_reported [] coll = set_all_selections true coll
select_reported (id ∷ ids) coll = select_all_of (id ∷ ids) coll

-- `_MCF_thread_get_affinity`, where the system has CPU sets; `ids` is what the system reports, if it does.
unfoldable pub get_affinity : Option (List ℕ) → Option Collection → ℤ × Option Collection
unfolding set_all_selections select_all_of
get_affinity ids none = (negsuc 0, none)
get_affinity none (some coll) = (negsuc 1, some (set_all_selections false coll))
get_affinity (some ids) (some coll) =
    (pos 0, some (select_reported ids (set_all_selections false coll)))
