-- ===== src/Globals.antt =====
-- The start of a process, `__MCF_gthread_initialize_globals` of mcfgthread/src/xglobals.c, from the
-- point where the shared section is mapped: each copy of the library that a process loads goes
-- through it, and the copies may be of different versions. What the system reports is an argument:
-- the size of the view, its address, the index for thread-local storage, and the main thread.
pub mod Sharing
use mcfgthread.Base.{
  ℕ, zero, suc, ◌+◌, ◌-◌, ◌^◌, Bool, not, ◌&&◌, ltb, leb, ◌==◌, if◌then◌else◌, Option, none, some,
  List, [], ◌∷◌,
}
use mcfgthread.Thread.{ThreadBase, zeroes}

-- The fields of `struct __MCF_crt_xglobals` that the start of a process sets; the others stay zero.
pub record Section : Type 0 where
  pub self_ptr : ℕ
  pub self_size : ℕ
  pub tls_index : ℕ
  pub main_thread : ThreadBase

-- A new section is all zeroes.
abbrev pub new_section : Section
new_section = record { self_ptr = 0; self_size = 0; tls_index = 0; main_thread = zeroes }

-- `__MCF_G_SIZE(interrupt_cond)`: what every version of the library has.
abbrev pub size_of_first_release : ℕ
size_of_first_release = 6792

-- `TLS_OUT_OF_INDEXES`
abbrev pub tls_out_of_indexes : ℕ
tls_out_of_indexes = 2 ^ 32 - 1

-- `__MCF_HAS_G(field)`, of a field that ends at `end_of_field`.
unfoldable pub has_g : ℕ → Section → Bool
has_g end_of_field s = leb end_of_field s.self_size

-- A copy of the library: `__MCF_G_SIZE_TOTAL` of its version, the address at which its view is
-- mapped, and what the system gives it for the identifier of the thread, a handle to the thread and
-- an index for thread-local storage.
pub record Copy : Type 0 where
  pub size_total : ℕ
  pub view : ℕ
  pub tid : ℕ
  pub handle : ℕ
  pub tls : ℕ

-- The initialization of the new region; `none` is a failed check or assertion.
unfoldable pub initialize_region : ℕ → Copy → Section → Option Section
initialize_region gsize copy s =
    let t = s.main_thread in
    if leb size_of_first_release gsize
      && not (copy.tls == tls_out_of_indexes)
      && (t.nref == 0)
      && (t.tid == 0)
      && (t.handle == 0)
      && not (copy.handle == 0)
    then some (record {
      self_ptr = copy.view;
      self_size = size_of_first_release;
      tls_index = copy.tls;
      main_thread = record t { tid = copy.tid; handle = copy.handle; nref = 2 };
    })
    else none

-- The extension of the storage for a newer version.
unfoldable pub extend_storage : ℕ → Copy → Section → Section
extend_storage gsize copy s =
    if ltb s.self_size copy.size_total && leb copy.size_total gsize
    then record s { self_size = copy.size_total }
    else s

-- `__MCF_gthread_initialize_globals`: the section, and `__MCF_g` of the copy.
unfoldable pub initialize_globals : ℕ → Copy → Section → Option (Section × ℕ)
unfolding initialize_region extend_storage
initialize_globals gsize copy s =
    if copy.view == 0
    then none
    else if leb copy.size_total s.self_size
    then (if s.self_ptr == 0 then none else some (s, s.self_ptr))
    else if s.self_size == 0
    then elim (initialize_region gsize copy s) [
      | none ↦ none
      | some s1 ↦ some (extend_storage gsize copy s1, copy.view)
    ]
    else some (extend_storage gsize copy s, copy.view)

-- Copies that are loaded one after another, with `__MCF_g` of each.
unfoldable pub load_copies : ℕ → List Copy → Section → Option (Section × List ℕ)
load_copies gsize [] s = some (s, [])
load_copies gsize (copy ∷ copies) s = elim (initialize_globals gsize copy s) [
  | none ↦ none
  | some (s1, g) ↦ elim (load_copies gsize copies s1) [
    | none ↦ none
    | some (s2, gs) ↦ some (s2, g ∷ gs)
  ]
]
