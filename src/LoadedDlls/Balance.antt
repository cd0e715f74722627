-- ===== src/LoadedDlls/Balance.antt =====
-- References to modules and reads of handles in `__MCF_get_function_from_loaded_dlls`.
use mathlib.Core.Path.{fun_ext}
use mcfgthread.Base.{
  ℕ, ◌+◌, ◌≤◌, ◌<◌, ◌≡◌, ◌≢◌, ◌⊎◌, inl, inr, ◌↔◌, refl, leb, ◌==◌, Option, none, some, List, [],
  ◌∷◌, length, arith, Bool-cases, ℕ_discrete, if_ind,
}
use mcfgthread.LoadedDlls.{
  Lookup, fault, done, lock_module, free_library, small_buffer, function_of, unlocked, visit,
  get_function_from_loaded_dlls,
}

-- What a lookup gives back: a function with its module, to which there is one reference more, or
-- null without a module and without a reference. At a read beyond the buffer, no reference is held.
abbrev pub Balanced : (ℕ → ℕ) → (ℕ → ℕ) → Lookup → Type 0
Balanced get_proc_address refs (fault after) = (j : ℕ) → after j ≡ refs j
Balanced get_proc_address refs (done function m after) =
    ((function ≡ 0) × (m ≡ 0) × ((j : ℕ) → after j ≡ refs j))
    ⊎ ((function ≢ 0)
        × (function ≡ get_proc_address m)
        × (after m ≡ refs m + 1)
        × ((j : ℕ) → j ≢ m → after j ≡ refs j))

unlocked_lem : (locked : Option ℕ) (refs : ℕ → ℕ) → unlocked locked refs ≡ refs
unfolding unlocked
unlocked_lem none refs = refl
unlocked_lem (some m) refs = fun_ext (restored m refs)
  where
    restored : (m : ℕ) (refs : ℕ → ℕ) (j : ℕ) → free_library m (lock_module m refs) j ≡ refs j
    restored m refs j = elim (ℕ_discrete j m) [ yes e ↦ rw e (ground arith) | no d ↦ ground arith ]

module _ (find_module : ℕ → ℕ → Option ℕ) (get_proc_address : ℕ → ℕ) where
  -- The module in which a function is found is the one at the address, since it is compared.
  visit-Balanced :
      (capacity k : ℕ) (handles : List ℕ) (refs : ℕ → ℕ)
      → Balanced get_proc_address refs (visit find_module get_proc_address capacity k handles refs)
  unfolding visit
  visit-Balanced capacity k [] refs = inl (refl, refl, λ j. refl)
  visit-Balanced capacity k (p ∷ handles) refs =
      let ih = visit-Balanced capacity (k + 1) handles refs in
      elim (Bool-cases (leb capacity k)) [
        | inl beyond ↦ rw beyond (λ j. refl)
        | inr within ↦
            rw (within, unlocked_lem (find_module k p) refs)
              (if_ind (Balanced get_proc_address refs)
                (function_of get_proc_address p (find_module k p) == 0) (λ _. ih)
                λ found. inr (
                  ground arith,
                  function_of_found p (find_module k p) (ground arith),
                  ground arith,
                  λ j d. ground arith,
                ))
      ]
    where
      function_of_found :
          (p : ℕ) (locked : Option ℕ)
          → function_of get_proc_address p locked ≢ 0
          → function_of get_proc_address p locked ≡ get_proc_address p
      function_of_found p none d = absurd (d refl)
      function_of_found p (some m) d = ground arith

  -- No read is beyond the buffer if all handles that are visited are in it.
  visit-no_fault :
      (capacity k : ℕ) (handles : List ℕ) (refs : ℕ → ℕ)
      → k + length handles ≤ capacity
      → visit find_module get_proc_address capacity k handles refs ≢ fault refs
  unfolding visit
  visit-no_fault capacity k [] refs fits e = cc
  visit-no_fault capacity k (p ∷ handles) refs fits e = ground (
    arith,
    visit-no_fault capacity (k + 1) handles (unlocked (find_module k p) refs) (omega arith),
  )

  -- Where no module has the function, the loop goes on to the end of what was reported.
  visit-fault :
      (capacity k : ℕ) (handles : List ℕ) (refs : ℕ → ℕ)
      → ((p : ℕ) → get_proc_address p ≡ 0)
      → k ≤ capacity
      → capacity < k + length handles
      → visit find_module get_proc_address capacity k handles refs ≡ fault refs
  unfolding visit
  visit-fault capacity k [] refs lacks le lt = absurd (omega arith)
  visit-fault capacity k (p ∷ handles) refs lacks le lt =
      let ih = λ (h : k + 1 ≤ capacity).
        visit-fault capacity (k + 1) handles (unlocked (find_module k p) refs) lacks h
          (omega arith) in
      ground (arith, nothing p (find_module k p), ih)
    where
      nothing : (p : ℕ) (locked : Option ℕ) → function_of get_proc_address p locked ≡ 0
      nothing p none = refl
      nothing p (some m) = ground (arith, lacks m)

-- Whatever the two enumerations report, and whatever modules come and go between them and during the
-- search: where the lookup returns, one reference is gained exactly if a function is found, and it is
-- one to the module that has the function; all other references are given back. Where the lookup reads
-- beyond its buffer instead, all references that it took have been given back by then.
pub lookup-Balanced :
    (find_module : ℕ → ℕ → Option ℕ) (get_proc_address : ℕ → ℕ) (first second : Option (List ℕ))
    (refs : ℕ → ℕ)
    → Balanced get_proc_address refs
        (get_function_from_loaded_dlls find_module get_proc_address first second refs)
unfolding get_function_from_loaded_dlls
lookup-Balanced find_module get_proc_address none second refs = inl (refl, refl, λ j. refl)
lookup-Balanced find_module get_proc_address (some handles) none refs =
    if_ind (Balanced get_proc_address refs) (leb (length handles) small_buffer)
      (λ _. visit-Balanced find_module get_proc_address small_buffer 0 handles refs)
      (λ _. inl (refl, refl, λ j. refl))
lookup-Balanced find_module get_proc_address (some handles) (some handles2) refs =
    if_ind (Balanced get_proc_address refs) (leb (length handles) small_buffer)
      (λ _. visit-Balanced find_module get_proc_address small_buffer 0 handles refs)
      (λ _. visit-Balanced find_module get_proc_address (length handles) 0 handles2 refs)

-- What is said of the length of the second list of modules, if it is asked for.
abbrev pub Grown : List ℕ → List ℕ → Type 0
Grown handles handles2 = (small_buffer < length handles) × (length handles < length handles2)

-- Where no module has the function, the lookup reads beyond the buffer for the handles exactly if
-- there are more than 8 modules and others are loaded between the two enumerations.
pub lookup-fault_iff :
    (find_module : ℕ → ℕ → Option ℕ) (get_proc_address : ℕ → ℕ) (handles handles2 : List ℕ)
    (refs : ℕ → ℕ)
    → ((p : ℕ) → get_proc_address p ≡ 0)
    → (get_function_from_loaded_dlls find_module get_proc_address
          (some handles)
          (some handles2)
          refs
        ≡ fault refs)
      ↔ Grown handles handles2
unfolding get_function_from_loaded_dlls
lookup-fault_iff find_module get_proc_address handles handles2 refs lacks = (
  λ e. grown e,
  λ g. ground (
    arith,
    visit-fault find_module get_proc_address (length handles) 0 handles2 refs lacks (omega arith),
  ),
)
  where
    grown :
        get_function_from_loaded_dlls find_module get_proc_address
            (some handles)
            (some handles2)
            refs
          ≡ fault refs
        → Grown handles handles2
    grown e = ground (
      arith,
      visit-no_fault find_module get_proc_address small_buffer 0 handles refs,
      visit-no_fault find_module get_proc_address (length handles) 0 handles2 refs,
    )
