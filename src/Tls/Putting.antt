-- ===== src/Tls/Putting.antt =====
-- What a table of mcfgthread/src/tls.c holds after a key is put into it or a value is replaced.
use mathlib.Core.Path.{fun_ext}
use mcfgthread.Base.{
  ℕ, ◌/◌, ◌<◌, ◌≡◌, ◌≢◌, ◌⊎◌, inl, inr, refl, sym, ap, ◌∙◌, some, true, ◌||◌, ◌==◌, if◌then◌else◌,
  arith, ℕ_discrete,
}
use mcfgthread.Base.Family.{assign-here, assign-elsewhere, weigh-assign}
use mcfgthread.Base.Round.{first_round, first_round-fewer}
use mcfgthread.Tls.{Element, Table, stops, origin_of, linear_probe, value_in, put, revalue}
use mcfgthread.Tls.Probing.{
  used, IsTable, Stored, IsAbsent, linear_probe-round, probe-Stored, value_in-Stored,
  value_in-IsAbsent, stored_or_IsAbsent,
}

-- A table of the same size where fewer elements stop a probe.
probe-fewer :
    (t t' : Table) (key i : ℕ)
    → 0 < t.size
    → t'.size ≡ t.size
    → ((j : ℕ) → stops t'.element_at key j ≡ true → stops t.element_at key j ≡ true)
    → linear_probe t key ≡ some i
    → stops t'.element_at key i ≡ true
    → linear_probe t' key ≡ some i
probe-fewer t t' key i h same sub e stop =
    linear_probe-round t' key (omega arith)
    ∙ rw same (
        first_round-fewer (stops t.element_at key) (stops t'.element_at key) t.size
          (origin_of t.size key) i sub (sym (linear_probe-round t key h) ∙ e) stop)

module _ (t : Table) (key value i : ℕ) (g : IsTable t) (nonzero : key ≢ 0) (i_in : i < t.size)
    (probed : linear_probe t key ≡ some i) (vacant : (t.element_at i).key_opt ≡ 0) where
  abbrev stored : Element
  stored = record { key_opt = key; value_opt = value }

  -- Any other key that is stored is still found.
  put-probe_other :
      (j : ℕ)
      → j < t.size
      → (t.element_at j).key_opt ≢ 0
      → linear_probe (put t i stored) (t.element_at j).key_opt ≡ some j
  unfolding put
  put-probe_other j j_in z =
      let p = g.placed j j_in z in
      let other : (t.element_at j).key_opt ≢ key = λ same. z (
        ap (λ x. (t.element_at x).key_opt)
          (let ij : j ≡ i = ground (arith, ap (linear_probe t) same) in ij)
        ∙ vacant) in
      probe-fewer t (put t i stored) (t.element_at j).key_opt j (omega arith) refl
        (λ x s. ground arith) p (ground arith)

  put-probe : linear_probe (put t i stored) key ≡ some i
  unfolding put
  put-probe =
      probe-fewer t (put t i stored) key i (omega arith) refl (λ x s. ground arith) probed
        (ground arith)

  put-placed :
      (j : ℕ)
      → j < t.size
      → ((put t i stored).element_at j).key_opt ≢ 0
      → linear_probe (put t i stored) ((put t i stored).element_at j).key_opt ≡ some j
  unfolding put
  put-placed j j_in z = elim (ℕ_discrete j i) [
    | yes here ↦
        ap (λ e. linear_probe (put t i stored) e.key_opt) (assign-here i stored t.element_at j here)
        ∙ put-probe
        ∙ ap some (sym here)
    | no elsewhere ↦
        let e = assign-elsewhere i stored t.element_at j elsewhere in
        ap (λ x. linear_probe (put t i stored) x.key_opt) e
        ∙ put-probe_other j j_in (λ w. z (ap (λ x. x.key_opt) e ∙ w))
  ]

  pub put-IsTable : t.size_hint < t.size / 2 → IsTable (put t i stored)
  unfolding put
  put-IsTable free = record {
    counted = ground (arith, g.counted, weigh-assign used t.element_at t.size i stored i_in);
    room = omega arith;
    valueless = λ j. ground (arith, g.valueless j);
    placed = put-placed;
  }

  put-value_other :
      (k : ℕ)
      → k ≢ 0
      → k ≢ key
      → IsTable (put t i stored)
      → value_in (put t i stored) (linear_probe (put t i stored) k) ≡ value_in t (linear_probe t k)
  unfolding put
  put-value_other k z other g' =
      let h : 0 < t.size = omega arith in
      let (j, e, j_in, which) = stored_or_IsAbsent t k g h z in
      elim which [
        | inl hit ↦
            let keep =
              assign-elsewhere i stored t.element_at j
                (λ here. z (sym hit ∙ ap (λ x. (t.element_at x).key_opt) here ∙ vacant)) in
            value_in-Stored (put t i stored) k j g' z (j_in, ap (λ x. x.key_opt) keep ∙ hit)
            ∙ ap (λ x. x.value_opt) keep
            ∙ sym (value_in-Stored t k j g z (j_in, hit))
        | inr gone ↦
            value_in-IsAbsent (put t i stored) k g' h z (λ x x_in. ground (arith, gone.1 x x_in))
            ∙ sym (value_in-IsAbsent t k g h z gone.1)
      ]

  -- The key has the value, and any other key what it had.
  pub put-value_in :
      (k : ℕ)
      → k ≢ 0
      → IsTable (put t i stored)
      → value_in (put t i stored) (linear_probe (put t i stored) k)
        ≡ (if k == key then value else value_in t (linear_probe t k))
  unfolding put
  put-value_in k z g' = elim (ℕ_discrete k key) [
    | yes same ↦
        let here = assign-here i stored t.element_at i refl in
        value_in-Stored (put t i stored) k i g' z (i_in, ap (λ x. x.key_opt) here ∙ sym same)
        ∙ ap (λ x. x.value_opt) here
        ∙ ground arith
    | no other ↦ put-value_other k z other g' ∙ ground arith
  ]

module _ (t : Table) (key value i : ℕ) (g : IsTable t) (nonzero : key ≢ 0)
    (held : Stored t key i) where
  revalue-key : (j : ℕ) → ((revalue t i value).element_at j).key_opt ≡ (t.element_at j).key_opt
  unfolding revalue
  revalue-key j = ground arith

  revalue-stops : (k j : ℕ) → stops (revalue t i value).element_at k j ≡ stops t.element_at k j
  revalue-stops k j = ap (λ x. x == 0 || x == k) (revalue-key j)

  revalue-probe : (k : ℕ) → linear_probe (revalue t i value) k ≡ linear_probe t k
  unfolding revalue
  revalue-probe k =
      linear_probe-round (revalue t i value) k (omega arith)
      ∙ ap (λ f. first_round f t.size (origin_of t.size k)) (fun_ext (revalue-stops k))
      ∙ sym (linear_probe-round t k (omega arith))

  pub revalue-IsTable : IsTable (revalue t i value)
  unfolding revalue
  revalue-IsTable = record {
    counted = ground (
      arith,
      g.counted,
      weigh-assign used t.element_at t.size i (record (t.element_at i) { value_opt = value })
          held.0,
    );
    room = g.room;
    valueless = λ j. ground (arith, g.valueless j);
    placed = λ j j_in z.
        revalue-probe ((revalue t i value).element_at j).key_opt
        ∙ ap (linear_probe t) (revalue-key j)
        ∙ g.placed j j_in (λ w. z (revalue-key j ∙ w));
  }

  value_in-revalue :
      (k j : ℕ)
      → k ≢ 0
      → linear_probe t k ≡ some j
      → ((t.element_at j).key_opt ≡ k) ⊎ (((t.element_at j).key_opt ≡ 0) × IsAbsent t k)
      → value_in (revalue t i value) (some j) ≡ (if k == key then value else value_in t (some j))
  unfolding revalue
  value_in-revalue k j z e (inl hit) = elim (ℕ_discrete j i) [
    | yes here ↦
        let same : k ≡ key = sym hit ∙ ap (λ x. (t.element_at x).key_opt) here ∙ held.1 in
        ground arith
    | no elsewhere ↦ ground (arith, probe-Stored t key i g nonzero held)
  ]
  value_in-revalue k j z e (inr gone) =
      let other : k ≢ key = λ same. gone.1 i held.0 (held.1 ∙ sym same) in
      let apart : j ≢ i =
        λ here. nonzero (sym held.1 ∙ ap (λ x. (t.element_at x).key_opt) (sym here) ∙ gone.0) in
      ground arith

  pub revalue-value_in :
      (k : ℕ)
      → k ≢ 0
      → value_in (revalue t i value) (linear_probe (revalue t i value) k)
        ≡ (if k == key then value else value_in t (linear_probe t k))
  revalue-value_in k z =
      let (j, e, j_in, which) = stored_or_IsAbsent t k g (omega (arith, held.0)) z in
      ap (value_in (revalue t i value)) (revalue-probe k ∙ e)
      ∙ value_in-revalue k j z e which
      ∙ ap (λ o. if k == key then value else value_in t o) (sym e)
