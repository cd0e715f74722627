-- ===== src/Tests/Copies.antt =====
-- Copies of the library of different versions in one process, and lookups in loaded modules.
use mcfgthread.Base.{ℕ, ◌≡◌, ◌↔◌, refl, ◌==◌, if◌then◌else◌, none, some, List, [], ◌∷◌, arith}
use mcfgthread.Globals.{Section, Copy, new_section, load_copies, initialize_globals}
use mcfgthread.Globals.Sharing.{IsCopy, All, NoNewer, one_pointer_iff}
use mcfgthread.LoadedDlls.{get_function_from_loaded_dlls}
use mcfgthread.LoadedDlls.Balance.{Balanced, lookup-Balanced}

-- Version 2.4, and version 1.0.
abbrev current : Copy
current = record { size_total = 8432; view = 0x10000; tid = 7; handle = 12; tls = 3 }

abbrev old : Copy
old = record { size_total = 6792; view = 0x20000; tid = 7; handle = 12; tls = 4 }

current-IsCopy : IsCopy current
current-IsCopy = omega arith

old-IsCopy : IsCopy old
old-IsCopy = omega arith

-- The old version is loaded first: its section has room for two pages of 4096 bytes.
old_first : Section
old_first = record {
  self_ptr = 0x20000;
  self_size = 6792;
  tls_index = 4;
  main_thread = record new_section.main_thread { tid = 7; handle = 12; nref = 2 };
}

loaded_late :
    load_copies 8192 (old ∷ current ∷ []) new_section ≡ some (old_first, 0x20000 ∷ 0x10000 ∷ [])
unfolding load_copies initialize_globals old_first
loaded_late = refl

one_pointer_iff_example :
    All (λ (g : ℕ). g ≡ 0x20000) (0x20000 ∷ 0x10000 ∷ []) ↔ NoNewer 6792 (current ∷ [])
one_pointer_iff_example =
    one_pointer_iff 8192 old (current ∷ []) old_first (0x20000 ∷ 0x10000 ∷ [])
      (old-IsCopy, (current-IsCopy, tt)) (omega arith) (omega arith) loaded_late

-- The second of two modules has the function.
lookup-Balanced_example :
    Balanced
      (λ m. if m == 2 then 9 else 0)
      (λ _. 0)
      (get_function_from_loaded_dlls
        (λ k p. some p)
        (λ m. if m == 2 then 9 else 0)
        (some (1 ∷ 2 ∷ []))
        none
        (λ _. 0))
lookup-Balanced_example =
    lookup-Balanced (λ k p. some p) (λ m. if m == 2 then 9 else 0) (some (1 ∷ 2 ∷ [])) none (λ _. 0)

abbrev nine : List ℕ
nine = 1 ∷ 2 ∷ 3 ∷ 4 ∷ 5 ∷ 6 ∷ 7 ∷ 8 ∷ 9 ∷ []
