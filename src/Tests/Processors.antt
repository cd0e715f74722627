-- ===== src/Tests/Processors.antt =====
-- A collection of processors whose identifiers are not consecutive.
use mcfgthread.Base.{
  ◌||◌, ◌==◌, pos, ℕ, ◌+◌, ◌*◌, ◌<◌, ◌≡◌, ◌↔◌, refl, true, some, none, Option, List, [], ◌∷◌, arith,
  ℕ_discrete,
}
use mcfgthread.CpuCollection.{Element, Collection, CpuSet, insert_all, search, find_cpu_opt}
use mcfgthread.CpuCollection.Lookup.{IsSorted, find_cpu_opt_lem}
use mcfgthread.CpuCollection.Inserting.{HasId}
use mcfgthread.CpuCollection.Masks.{new_by_mask, set_affinity_by_mask}
use mcfgthread.CpuCollection.Masks.Building.{InMask, new_by_mask_lem}
use mcfgthread.Thread.Affinity.{set_affinity}

abbrev every_other : ℕ → Element
every_other i = record {
  id = 256 + 2 * i;
  core_idx = i;
  effic_cls = 0;
  sched_cls = 0;
  group = 0;
  selected = true;
}

abbrev six : Collection
six = record { size = 6; data_at = every_other }

six-IsSorted : IsSorted six
six-IsSorted = λ i j lt j_in. omega arith

searched : find_cpu_opt six 258 ≡ some 1
unfolding find_cpu_opt search
searched = refl

find_cpu_opt_lem_example : (find_cpu_opt six 266 ≡ some 5) ↔ ((◌<◌ 5 6) × (◌≡◌ {A = ℕ} 266 266))
find_cpu_opt_lem_example = find_cpu_opt_lem six 266 5 six-IsSorted (omega arith)

-- Two processors, reported in the wrong order.
abbrev reported : ℕ → CpuSet
reported id = record {
  id = id;
  group = 0;
  core_index = 0;
  efficiency_class = 0;
  scheduling_class = 0;
}

abbrev two_reported : List (Option CpuSet)
two_reported = some (reported 300) ∷ none ∷ some (reported 200) ∷ []

abbrev nothing : Collection
nothing = record { size = 0; data_at = every_other }

first_id : ((insert_all two_reported nothing).data_at 0).id ≡ 200
unfolding insert_all ℕ_discrete
first_id = refl

-- Two of the six processors are selected.
abbrev two_of_six : Collection
two_of_six = record six {
  data_at = λ i. record (every_other i) { selected = (i == 1) || (i == 4) };
}

affinity_set : set_affinity (λ _. true) (some two_of_six) ≡ (pos 0, 258 ∷ 264 ∷ [])
unfolding set_affinity
affinity_set = refl

-- Processors 0, 2 and 3 of a group, without CPU sets.
new_by_mask_lem_example :
    (coll : Collection) × (new_by_mask 0b1101 0 (none ∷ []) ≡ some coll)
    × IsSorted coll
    × ((id : ℕ) → HasId id coll ↔ InMask id 0b1101)
new_by_mask_lem_example = new_by_mask_lem 0b1101 0 (none ∷ []) (omega arith) (omega arith)

mask_set : set_affinity_by_mask (λ _. true) (some two_of_six) ≡ (pos 0, 260)
unfolding set_affinity_by_mask
mask_set = refl
