-- ===== src/Tls/Probing.antt =====
-- Probing a well-formed table of mcfgthread/src/tls.c: a stored key is found where it stands, and any
-- other key at an empty element.
use mcfgthread.Base.{
  ℕ, zero, suc, ◌*◌, ◌/◌, ◌%◌, ◌^◌, ◌≤◌, ◌<◌, ◌≡◌, ◌≢◌, ◌⊎◌, inl, inr, refl, sym, ap, ◌∙◌, some,
  true, ◌==◌, if◌then◌else◌, Bool-cases, Option-cases, arith, ℕ_discrete,
}
use mcfgthread.Base.Family.{weigh}
use mcfgthread.Base.Round.{first_round, first_round-some, first_round-none, first_round-here}
use mcfgthread.Tls.{Element, Table, stops, origin_of, linear_probe, value_in}

scaled : (dist ratio : ℕ) → 0 < dist → ratio < 2 ^ 32 → dist * ratio % 2 ^ 64 / 2 ^ 32 < dist
scaled dist ratio h r = grind arith

pub origin_of-lt : (dist key : ℕ) → 0 < dist → origin_of dist key < dist
unfolding origin_of
origin_of-lt dist key h = scaled dist (key / 8 % 2 ^ 32 * 0x9E3779B9 % 2 ^ 32) h (omega arith)

pub linear_probe-round :
    (t : Table) (key : ℕ)
    → 0 < t.size
    → linear_probe t key ≡ first_round (stops t.element_at key) t.size (origin_of t.size key)
unfolding linear_probe
linear_probe-round t key h =
    elim (Bool-cases ((t.element_at (origin_of t.size key)).key_opt == key)) [
      | inl hit ↦ rw hit (
          sym (
            first_round-here (stops t.element_at key) t.size (origin_of t.size key)
              (origin_of-lt t.size key h) (ground arith)))
      | inr miss ↦ rw miss refl
    ]

abbrev pub used : Element → ℕ
used e = if e.key_opt == 0 then 0 else 1

-- The hint is the number of keys, which fill at most half of the elements; a null key has no value;
-- and the probe for a key that is stored finds it where it stands.
pub record IsTable (t : Table) : Type 0 where
  pub counted : weigh used t.size t.element_at ≡ t.size_hint
  pub room : t.size_hint ≤ t.size / 2
  pub valueless : (i : ℕ) → (t.element_at i).key_opt ≡ 0 → (t.element_at i).value_opt ≡ 0
  pub placed :
      (i : ℕ)
      → i < t.size
      → (t.element_at i).key_opt ≢ 0
      → linear_probe t (t.element_at i).key_opt ≡ some i

-- A key is stored in a table at an index.
abbrev pub Stored : Table → ℕ → ℕ → Type 0
Stored t key i = (i < t.size) × ((t.element_at i).key_opt ≡ key)

abbrev pub IsAbsent : Table → ℕ → Type 0
IsAbsent t key = (i : ℕ) → i < t.size → (t.element_at i).key_opt ≢ key

-- Fewer keys than elements leave an empty one.
empty_slot :
    (elements : ℕ → Element) (n : ℕ)
    → weigh used n elements < n
    → (i : ℕ) × (i < n) × ((elements i).key_opt ≡ 0)
unfolding weigh
empty_slot elements zero h = absurd (omega arith)
empty_slot elements (suc n) h = elim (ℕ_discrete (elements n).key_opt 0) [
  | yes here ↦ (n, omega arith, here)
  | no used_here ↦ let (i, lt, e) = empty_slot elements n (ground arith) in (i, omega arith, e)
]

pub probe-some :
    (t : Table) (key : ℕ)
    → IsTable t
    → 0 < t.size
    → (i : ℕ) × (linear_probe t key ≡ some i) × (i < t.size) × (stops t.element_at key i ≡ true)
probe-some t key g h = elim (Option-cases (linear_probe t key)) [
  | inl e ↦
      let (i, lt, z) = empty_slot t.element_at t.size (omega (arith, g.counted, g.room)) in
      let miss =
        first_round-none (stops t.element_at key) t.size (origin_of t.size key) i
          (sym (linear_probe-round t key h) ∙ e) lt in
      absurd (ground arith)
  | inr (i, e) ↦
      let found =
        first_round-some (stops t.element_at key) t.size (origin_of t.size key) i
          (omega (arith, origin_of-lt t.size key h)) (sym (linear_probe-round t key h) ∙ e) in
      (i, e, found.0, found.1)
]

pub probe-Stored :
    (t : Table) (key i : ℕ) → IsTable t → key ≢ 0 → Stored t key i → linear_probe t key ≡ some i
probe-Stored t key i g nonzero s =
    ap (linear_probe t) (sym s.1) ∙ g.placed i s.0 (λ z. nonzero (sym s.1 ∙ z))

-- Whether a key is stored can be seen from the element that the probe finds.
pub stored_or_IsAbsent :
    (t : Table) (key : ℕ)
    → IsTable t
    → 0 < t.size
    → key ≢ 0
    → (i : ℕ) × (linear_probe t key ≡ some i)
      × (i < t.size)
      × (((t.element_at i).key_opt ≡ key) ⊎ (((t.element_at i).key_opt ≡ 0) × IsAbsent t key))
stored_or_IsAbsent t key g h nonzero =
    let (i, e, lt, stop) = probe-some t key g h in
    elim (ℕ_discrete (t.element_at i).key_opt key) [
      | yes hit ↦ (i, e, lt, inl hit)
      | no miss ↦
          let vacant : (t.element_at i).key_opt ≡ 0 = ground arith in
          (
            i,
            e,
            lt,
            inr (
              vacant,
              λ j j_in same.
                  let ij : i ≡ j = ground (arith, probe-Stored t key j g nonzero (j_in, same)) in
                  miss (ap (λ x. (t.element_at x).key_opt) ij ∙ same),
            ),
          )
    ]

pub value_in-Stored :
    (t : Table) (key i : ℕ)
    → IsTable t
    → key ≢ 0
    → Stored t key i
    → value_in t (linear_probe t key) ≡ (t.element_at i).value_opt
value_in-Stored t key i g nonzero s =
    ap (value_in t) (probe-Stored t key i g nonzero s) ∙ ground (arith, s.1)

pub value_in-IsAbsent :
    (t : Table) (key : ℕ)
    → IsTable t
    → 0 < t.size
    → key ≢ 0
    → IsAbsent t key
    → value_in t (linear_probe t key) ≡ 0
value_in-IsAbsent t key g h nonzero absent =
    let (i, e, lt, which) = stored_or_IsAbsent t key g h nonzero in
    elim which [
      | inl hit ↦ absurd (absent i lt hit)
      | inr vacant ↦ ap (value_in t) e ∙ ground (arith, vacant.0)
    ]
