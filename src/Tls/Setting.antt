-- ===== src/Tls/Setting.antt =====
-- `__MCF_tls_table_xset` of mcfgthread/src/tls.c as an update of a map from keys to values.
use mcfgthread.Base.{
  ℕ, ◌+◌, ◌/◌, ◌<◌, ◌≡◌, ◌≢◌, inl, inr, refl, some, false, ◌==◌, if◌then◌else◌, arith, ℕ_discrete,
  pos,
}
use mcfgthread.Base.Family.{weigh-assign}
use mcfgthread.Tls.{
  Keys, Element, Table, Store, Outcome, deleted_in, linear_probe, value_in, put, revalue, get,
  key_add_ref, set_at,
}
use mcfgthread.Tls.Probing.{IsTable, Stored, stored_or_IsAbsent}
use mcfgthread.Tls.Putting.{put-IsTable, put-value_in, revalue-IsTable, revalue-value_in}
use mcfgthread.Tls.Moving.{points, held}

-- The value of one key is another, and that of any other key is what it was.
pub record HasSet (key value_opt : ℕ) (s : Store) (o : Outcome) : Type 0 where
  pub success : o.err ≡ pos 0
  pub old : o.old_value ≡ get s.keys s.table key
  pub table : IsTable o.store.table
  pub flags : (k : ℕ) → deleted_in o.store.keys k ≡ deleted_in s.keys k
  pub values :
      (k : ℕ)
      → k ≢ 0
      → get o.store.keys o.store.table k ≡ (if k == key then value_opt else get s.keys s.table k)
  pub balance :
      (k : ℕ)
      → k ≢ 0
      → (o.store.keys k).nref + held s.table k ≡ (s.keys k).nref + held o.store.table k

-- No key changes its deletion mark, and the values follow from those of the table.
pub values_of :
    (key value_opt : ℕ) (keys keys' : Keys) (t t' : Table)
    → (keys key).deleted ≡ false
    → ((k : ℕ) → deleted_in keys' k ≡ deleted_in keys k)
    → 0 < t.size
    → t'.size ≡ t.size
    → (k : ℕ)
    → value_in t' (linear_probe t' k)
      ≡ (if k == key then value_opt else value_in t (linear_probe t k))
    → get keys' t' k ≡ (if k == key then value_opt else get keys t k)
unfolding get
values_of key value_opt keys keys' t t' d flags h same k v = ground (arith, flags k)

module _ (key value_opt : ℕ) (s : Store) (g : IsTable s.table) (nonzero : key ≢ 0)
    (kept : (s.keys key).deleted ≡ false) (h : 0 < s.table.size) where
  abbrev stored : Element
  stored = record { key_opt = key; value_opt = value_opt }

  abbrev put_outcome : ℕ → Outcome
  unfolding put key_add_ref
  put_outcome i = record {
    err = pos 0;
    old_value = (s.table.element_at i).value_opt;
    store = record { table = put s.table i stored; keys = key_add_ref key s.keys };
  }

  put_outcome-HasSet :
      (i : ℕ)
      → s.table.size_hint < s.table.size / 2
      → i < s.table.size
      → linear_probe s.table key ≡ some i
      → (s.table.element_at i).key_opt ≡ 0
      → HasSet key value_opt s (put_outcome i)
  unfolding put key_add_ref get
  put_outcome-HasSet i free i_in p vacant =
      let g' = put-IsTable s.table key value_opt i g nonzero i_in p vacant free in
      let flags : (k : ℕ) → deleted_in (key_add_ref key s.keys) k ≡ deleted_in s.keys k =
        λ k. ground arith in
      record {
        success = refl;
        old = ground (arith, g.valueless i vacant, p);
        table = g';
        flags = flags;
        values = λ k z.
            values_of key value_opt s.keys (key_add_ref key s.keys) s.table (put s.table i stored)
              kept flags h refl k
              (put-value_in s.table key value_opt i g nonzero i_in p vacant k z g');
        balance = λ k z.
            ground (arith, weigh-assign (points k) s.table.element_at s.table.size i stored i_in);
      }

  abbrev revalue_outcome : ℕ → Outcome
  unfolding revalue
  revalue_outcome i = record {
    err = pos 0;
    old_value = (s.table.element_at i).value_opt;
    store = record s { table = revalue s.table i value_opt };
  }

  revalue_outcome-HasSet :
      (i : ℕ)
      → linear_probe s.table key ≡ some i
      → Stored s.table key i
      → HasSet key value_opt s (revalue_outcome i)
  unfolding revalue get
  revalue_outcome-HasSet i p hit = record {
    success = refl;
    old = ground (arith, hit.1, p);
    table = revalue-IsTable s.table key value_opt i g nonzero hit;
    flags = λ k. refl;
    values = λ k z.
        values_of key value_opt s.keys s.keys s.table (revalue s.table i value_opt) kept (λ j. refl)
          h refl k (revalue-value_in s.table key value_opt i g nonzero hit k z);
    balance = λ k z. ground (
      arith,
      weigh-assign (points k) s.table.element_at s.table.size i
          (record (s.table.element_at i) { value_opt = value_opt }) hit.0,
    );
  }

  unset :
      (i : ℕ)
      → linear_probe s.table key ≡ some i
      → (s.table.element_at i).key_opt ≡ 0
      → value_opt ≡ 0
      → HasSet key value_opt s (record { err = pos 0; old_value = 0; store = s })
  unfolding get
  unset i p vacant null = record {
    success = refl;
    old = ground arith;
    table = g;
    flags = λ k. refl;
    values = λ k z. ground arith;
    balance = λ k z. refl;
  }

  pub set_at-HasSet :
      (value_opt ≢ 0 → s.table.size_hint < s.table.size / 2)
      → (o : Outcome) × (set_at key value_opt s (linear_probe s.table key) ≡ some o)
        × HasSet key value_opt s o
  unfolding set_at put key_add_ref revalue
  set_at-HasSet free =
      let (i, p, i_in, which) = stored_or_IsAbsent s.table key g h nonzero in
      elim which [
        | inl hit ↦ (revalue_outcome i, ground arith, revalue_outcome-HasSet i p (i_in, hit))
        | inr v ↦ elim (ℕ_discrete value_opt 0) [
          | yes null ↦ (
            record { err = pos 0; old_value = 0; store = s },
            ground (arith, v.0),
            unset i p v.0 null,
          )
          | no value ↦
              (put_outcome i, ground (arith, v.0), put_outcome-HasSet i (free value) i_in p v.0)
        ]
      ]
