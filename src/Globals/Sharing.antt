-- ===== src/Globals/Sharing.antt =====
-- What the copies of the library in a process share: mcfgthread/src/xglobals.c.
use mcfgthread.Base.{
  ℕ, ◌≤◌, ◌≡◌, ◌≢◌, ◌↔◌, refl, sym, ◌∙◌, ap, ltb, leb, ◌&&◌, if◌then◌else◌, Option, some, List, [],
  ◌∷◌, arith,
}
use mcfgthread.Thread.{zeroes}
use mcfgthread.Globals.{
  Section, new_section, Copy, size_of_first_release, tls_out_of_indexes, initialize_region,
  extend_storage, initialize_globals, load_copies,
}

-- What the system gives a copy: a view, a handle and an index, to a version that has at least the
-- fields of the first one.
pub record IsCopy (copy : Copy) : Type 0 where
  pub new_enough : size_of_first_release ≤ copy.size_total
  pub mapped : copy.view ≢ 0
  pub handle_valid : copy.handle ≢ 0
  pub tls_valid : copy.tls ≢ tls_out_of_indexes

abbrev pub AreCopies : List Copy → Type 0
AreCopies [] = Unit
AreCopies (copy ∷ copies) = IsCopy copy × AreCopies copies

-- The section after the copy `first` has initialized it.
pub record IsShared (gsize : ℕ) (first : Copy) (s : Section) : Type 0 where
  pub from_first : s.self_ptr ≡ first.view
  pub index : s.tls_index ≡ first.tls
  pub main : s.main_thread ≡ record zeroes { tid = first.tid; handle = first.handle; nref = 2 }
  pub at_least : size_of_first_release ≤ s.self_size
  pub in_view : s.self_size ≤ gsize

-- The size after a copy with `total` bytes is loaded.
abbrev extended : ℕ → ℕ → ℕ → ℕ
extended gsize size total = if ltb size total && leb total gsize then total else size

extended-older : (gsize size total : ℕ) → total ≤ size → extended gsize size total ≡ size
extended-older gsize size total h = ground arith

-- The largest version that the view has room for, and at least `size`.
abbrev pub largest : ℕ → List Copy → ℕ → ℕ
largest gsize [] size = size
largest gsize (copy ∷ copies) size = largest gsize copies (extended gsize size copy.size_total)

-- `__MCF_g` of each copy: the first view, where the storage has what the copy needs when it is
-- loaded, and otherwise a view of its own.
abbrev pub pointers : ℕ → ℕ → List Copy → ℕ → List ℕ
pointers gsize shared [] size = []
pointers gsize shared (copy ∷ copies) size =
    (if leb copy.size_total size then shared else copy.view)
    ∷ pointers gsize shared copies (extended gsize size copy.size_total)

-- A further copy.
initialize-IsShared :
    (gsize : ℕ) (first copy : Copy) (s : Section)
    → first.view ≢ 0
    → IsShared gsize first s
    → IsCopy copy
    → (s1 : Section) × (initialize_globals gsize copy s
        ≡ some (s1, if leb copy.size_total s.self_size then first.view else copy.view))
      × IsShared gsize first s1
      × (s1.self_size ≡ extended gsize s.self_size copy.size_total)
unfolding initialize_globals extend_storage
initialize-IsShared gsize first copy s nonnull shared is =
    (extend_storage gsize copy s, ground arith, ground arith, ground arith)

load_copies-cons :
    (gsize : ℕ) (copy : Copy) (copies : List Copy) (s s1 s2 : Section) (g : ℕ) (gs : List ℕ)
    → initialize_globals gsize copy s ≡ some (s1, g)
    → load_copies gsize copies s1 ≡ some (s2, gs)
    → load_copies gsize (copy ∷ copies) s ≡ some (s2, g ∷ gs)
unfolding load_copies
load_copies-cons gsize copy copies s s1 s2 g gs e f = ground arith

-- The copies after the first.
later_copies :
    (gsize : ℕ) (first : Copy) (copies : List Copy) (s : Section)
    → first.view ≢ 0
    → IsShared gsize first s
    → AreCopies copies
    → (end : Section) × (load_copies gsize copies s
        ≡ some (end, pointers gsize first.view copies s.self_size))
      × IsShared gsize first end
      × (end.self_size ≡ largest gsize copies s.self_size)
unfolding load_copies
later_copies gsize first [] s nonnull shared are = (s, refl, shared, refl)
later_copies gsize first (copy ∷ copies) s nonnull shared are =
    let now = if leb copy.size_total s.self_size then first.view else copy.view in
    let (s1, started, shared1, size) =
      initialize-IsShared gsize first copy s nonnull shared are.0 in
    let (last, loaded, shared2, size2) = later_copies gsize first copies s1 nonnull shared1 are.1 in
    (
      last,
      load_copies-cons gsize copy copies s s1 last _ _ started loaded
          ∙ ap (λ n. some (last, now ∷ pointers gsize first.view copies n)) size,
      shared2,
      size2 ∙ ap (largest gsize copies) size,
    )

-- The first copy.
first_copy :
    (gsize : ℕ) (first : Copy)
    → IsCopy first
    → first.size_total ≤ gsize
    → (s1 : Section) × (initialize_globals gsize first new_section ≡ some (s1, first.view))
      × IsShared gsize first s1
      × (s1.self_size ≡ first.size_total)
unfolding initialize_globals initialize_region extend_storage
first_copy gsize first is fits = (
  record {
    self_ptr = first.view;
    self_size = first.size_total;
    tls_index = first.tls;
    main_thread = record zeroes { tid = first.tid; handle = first.handle; nref = 2 };
  },
  ground arith,
  record { from_first = refl; index = refl; main = refl; at_least = is.new_enough; in_view = fits },
  refl,
)

pub load_copies_lem :
    (gsize : ℕ) (first : Copy) (copies : List Copy)
    → AreCopies (first ∷ copies)
    → first.size_total ≤ gsize
    → (end : Section) × (load_copies gsize (first ∷ copies) new_section
        ≡ some (end, first.view ∷ pointers gsize first.view copies first.size_total))
      × IsShared gsize first end
      × (end.self_size ≡ largest gsize copies first.size_total)
load_copies_lem gsize first copies are fits =
    let (s1, started, shared, size) = first_copy gsize first are.0 fits in
    let (last, loaded, shared2, size2) =
      later_copies gsize first copies s1 are.0.mapped shared are.1 in
    (
      last,
      load_copies-cons gsize first copies new_section s1 last _ _ started loaded
          ∙ ap (λ n. some (last, first.view ∷ pointers gsize first.view copies n)) size,
      shared2,
      size2 ∙ ap (largest gsize copies) size,
    )

abbrev pub All {ℓ κ} : {A : Type ℓ} → (A → Type κ) → List A → Type κ
All P [] = Unit
All P (a ∷ l) = P a × All P l

abbrev pub NoNewer : ℕ → List Copy → Type 0
NoNewer size copies = All (λ (copy : Copy). copy.size_total ≤ size) copies

abbrev pub OwnViews : ℕ → List Copy → Type 0
OwnViews shared copies = All (λ (copy : Copy). copy.view ≢ shared) copies

pointers-same :
    (gsize shared : ℕ) (copies : List Copy) (size : ℕ)
    → NoNewer size copies
    → All (λ g. g ≡ shared) (pointers gsize shared copies size)
pointers-same gsize shared [] size older = tt
pointers-same gsize shared (copy ∷ copies) size older =
    let ih = pointers-same gsize shared copies size older.1 in
    (ground arith, rw (extended-older gsize size copy.size_total older.0) ih)

same-pointers :
    (gsize shared : ℕ) (copies : List Copy) (size : ℕ)
    → OwnViews shared copies
    → All (λ g. g ≡ shared) (pointers gsize shared copies size)
    → NoNewer size copies
same-pointers gsize shared [] size own same = tt
same-pointers gsize shared (copy ∷ copies) size own same =
    let older : copy.size_total ≤ size = ground arith in
    let keeps = extended-older gsize size copy.size_total older in
    (older, same-pointers gsize shared copies size own.1 (rw keeps at same.1))

-- All copies have the same pointer to the global data exactly if none of them is of a newer version
-- than the first one, where the system maps each of their views at an address of its own.
pub one_pointer_iff :
    (gsize : ℕ) (first : Copy) (copies : List Copy) (end : Section) (gs : List ℕ)
    → AreCopies (first ∷ copies)
    → first.size_total ≤ gsize
    → OwnViews first.view copies
    → load_copies gsize (first ∷ copies) new_section ≡ some (end, gs)
    → All (λ g. g ≡ first.view) gs ↔ NoNewer first.size_total copies
one_pointer_iff gsize first copies end gs are fits own loaded =
    let (last, expected, _, _) = load_copies_lem gsize first copies are fits in
    let same : gs ≡ first.view ∷ pointers gsize first.view copies first.size_total =
      second (sym loaded ∙ expected) in
    rw same (
      λ all. same-pointers gsize first.view copies first.size_total own all.1,
      λ older. (refl, pointers-same gsize first.view copies first.size_total older),
    )
  where
    second :
        {s t : Section} {l m : List ℕ}
        → ◌≡◌ {A = Option (Section × List ℕ)} (some (s, l)) (some (t, m))
        → l ≡ m
    second e = cc
