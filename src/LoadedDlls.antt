-- ===== src/LoadedDlls.antt =====
-- `__MCF_get_function_from_loaded_dlls` of mcfgthread/src/xglobals.c. The system is a parameter: what
-- the two calls of K32EnumProcessModules report, which module GetModuleHandleExW finds and locks for
-- the k-th address, and which functions modules have. References are counted for each module.
pub mod Balance
use mcfgthread.Base.{
  ℕ, zero, suc, ◌+◌, ◌-◌, ◌*◌, Bool, true, false, ltb, leb, ◌==◌, if◌then◌else◌, Option, none, some,
  List, [], ◌∷◌, length,
}
use mcfgthread.Base.Family.{assign}

-- A read beyond the buffer is a fault, with the references that there are then. The function is null if
-- none is found.
pub data Lookup : Type 0 where
  fault : (ℕ → ℕ) → Lookup
  done : ℕ → ℕ → (ℕ → ℕ) → Lookup

-- GetModuleHandleExW with the address, and FreeLibrary.
abbrev pub lock_module : ℕ → (ℕ → ℕ) → ℕ → ℕ
lock_module m refs = assign m (refs m + 1) refs

abbrev pub free_library : ℕ → (ℕ → ℕ) → ℕ → ℕ
free_library m refs = assign m (refs m - 1) refs

-- The buffer for module handles is of 64 bytes at first, 8 handles.
abbrev pub small_buffer : ℕ
small_buffer = 8

-- The function in the module that a round has locked, or null.
unfoldable pub function_of : (ℕ → ℕ) → ℕ → Option ℕ → ℕ
function_of get_proc_address p none = 0
function_of get_proc_address p (some m) = if m == p then get_proc_address m else 0

-- The references after a round that finds nothing.
unfoldable pub unlocked : Option ℕ → (ℕ → ℕ) → ℕ → ℕ
unlocked none refs = refs
unlocked (some m) refs = free_library m (lock_module m refs)

module _ (find_module : ℕ → ℕ → Option ℕ) (get_proc_address : ℕ → ℕ) where
  -- The loop from the k-th handle on, over a buffer for `capacity` handles.
  unfoldable pub visit : ℕ → ℕ → List ℕ → (ℕ → ℕ) → Lookup
  unfolding function_of unlocked
  visit capacity k [] refs = done 0 0 refs
  visit capacity k (p ∷ handles) refs =
      let locked = find_module k p in
      let next = visit capacity (k + 1) handles (unlocked locked refs) in
      if leb capacity k
      then fault refs
      else if function_of get_proc_address p locked == 0
      then next
      else done (function_of get_proc_address p locked) p (lock_module p refs)

  -- `__MCF_get_function_from_loaded_dlls`, with what the two enumerations report.
  unfoldable pub get_function_from_loaded_dlls :
      Option (List ℕ) → Option (List ℕ) → (ℕ → ℕ) → Lookup
  unfolding visit
  get_function_from_loaded_dlls none second refs = done 0 0 refs
  get_function_from_loaded_dlls (some handles) none refs =
      if leb (length handles) small_buffer then visit small_buffer 0 handles refs else done 0 0 refs
  get_function_from_loaded_dlls (some handles) (some handles2) refs =
      if leb (length handles) small_buffer
      then visit small_buffer 0 handles refs
      else visit (length handles) 0 handles2 refs
