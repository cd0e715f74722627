-- ===== src/Tls/Pop.antt =====
-- `__MCF_tls_table_pop` of mcfgthread/src/tls.c, and the loop of mcfgthread/src/xglobals.c that calls the
-- destructors of the values when a thread exits.
use mcfgthread.Base.{
  ℕ, zero, suc, ◌+◌, Option, none, some, Bool, not, ◌&&◌, ◌==◌, ltb, if◌then◌else◌, ℤ, pos, negsuc,
  List, [], ◌∷◌,
}
use mcfgthread.Base.Round.{first_round}
use mcfgthread.Tls.{
  Keys, Element, Table, empty, Store, revalue, key_drop_ref_nonnull, key_get_destructor,
}

-- `struct __MCF_tls_popped_element`
pub record PoppedElement : Type 0 where
  pub key : ℕ
  pub value : ℕ
  pub hint : ℕ

-- `cur->__value_opt && !cur->__key_opt->__deleted`
abbrev pub pops : Keys → (ℕ → Element) → ℕ → Bool
pops keys elements i = not ((elements i).value_opt == 0) && not (keys (elements i).key_opt).deleted

-- The loop at the end of `__MCF_tls_table_pop`, over the first `n` elements.
unfoldable pub release_keys : (ℕ → Element) → ℕ → Keys → Keys
unfolding key_drop_ref_nonnull
release_keys elements zero keys = keys
release_keys elements (suc n) keys =
    let rest = release_keys elements n keys in
    if (elements n).key_opt == 0 then rest else key_drop_ref_nonnull (elements n).key_opt rest

-- The result of a pop; `out_elem` is unspecified when nothing is popped.
pub record Popped : Type 0 where
  pub err : ℤ
  pub out_elem : Option PoppedElement
  pub store : Store

-- `do_pop_element`
unfoldable pub pop_element : Store → ℕ → Popped
unfolding revalue
pop_element s i = record {
  err = pos 0;
  out_elem = some (record {
    key = (s.table.element_at i).key_opt;
    value = (s.table.element_at i).value_opt;
    hint = i;
  });
  store = record s { table = revalue s.table i 0 };
}

unfoldable pub deallocate : Store → Popped
unfolding release_keys
deallocate s = record {
  err = negsuc 0;
  out_elem = none;
  store = record { table = empty; keys = release_keys s.table.element_at s.table.size s.keys };
}

-- Where the search for a value begins.
abbrev pub pop_origin : ℕ → Table → ℕ
pop_origin hint table = if ltb hint table.size then hint + 1 else 0

abbrev pub pop_found : Store → Option ℕ → Popped
pop_found s none = deallocate s
pop_found s (some i) = pop_element s i

-- `__MCF_tls_table_pop`; the first argument is the hint in `*out_elem_opt`, or `none` for a null pointer.
unfoldable pub pop : Option ℕ → Store → Popped
unfolding pop_element deallocate first_round
pop out_elem_opt s =
    if s.table.size == 0
    then record { err = negsuc 0; out_elem = none; store = s }
    else elim out_elem_opt [
      | none ↦ deallocate s
      | some hint ↦
          pop_found s
            (first_round (pops s.keys s.table.element_at) s.table.size (pop_origin hint s.table))
    ]

-- A call of a destructor with a value.
pub record Call : Type 0 where
  pub dtor : ℕ
  pub value : ℕ

abbrev pub called : Call → Option (List Call × Store) → Option (List Call × Store)
called c none = none
called c (some (calls, s)) = some (c ∷ calls, s)

-- The rest of the loop after a pop. A destructor may do anything to the store: `invoke`.
unfoldable pub drain_popped :
    (Call → Store → Store)
    → (ℕ → Store → Option (List Call × Store))
    → Popped
    → Option (List Call × Store)
unfolding key_get_destructor
drain_popped invoke go_on p = elim p.out_elem [
  | none ↦ some ([], p.store)
  | some e ↦
      let dtor = key_get_destructor e.key p.store.keys in
      let call : Call = record { dtor = dtor; value = e.value } in
      if dtor == 0 then go_on e.hint p.store else called call (go_on e.hint (invoke call p.store))
]

-- `while(__MCF_tls_table_pop(&tls_elem, self->__tls_table) == 0)` in `__MCF_gthread_on_thread_exit`: the
-- calls in their order, and the store in the end; `none` is for fuel that is not enough. `hint` is
-- what is in `tls_elem`.
unfoldable pub drain : (Call → Store → Store) → ℕ → ℕ → Store → Option (List Call × Store)
unfolding pop drain_popped
drain invoke zero hint s = none
drain invoke (suc fuel) hint s = drain_popped invoke (drain invoke fuel) (pop (some hint) s)
