-- ===== src/Tls.antt =====
-- Thread-local storage: mcfgthread/src/tls.c and mcfgthread/tls.h, with 64-bit pointers.
pub mod Probing
pub mod Putting
pub mod Moving
pub mod Growing
pub mod Larger
pub mod Setting
pub mod Mapping
pub mod Pop
pub mod Popping
pub mod Draining
use mcfgthread.Base.{
  ℕ, zero, suc, ◌+◌, ◌-◌, ◌*◌, ◌/◌, ◌%◌, ◌^◌, Option, none, some, Bool, true, false, not, ◌&&◌,
  ◌||◌, ◌==◌, ltb, leb, if◌then◌else◌, ℤ, pos, negsuc,
}
use mcfgthread.Base.Family.{assign, weigh}
use mcfgthread.Base.Round.{or_else, first_from, first_round}

-- `struct __MCF_tls_key`; a key without references is deallocated.
pub record Key : Type 0 where
  pub nref : ℕ
  pub deleted : Bool
  pub dtor_opt : ℕ

-- The keys by their addresses.
abbrev pub Keys : Type 0
Keys = ℕ → Key

-- `struct __MCF_tls_element`: the address of a key and a value; 0 is the null pointer.
pub record Element : Type 0 where
  pub key_opt : ℕ
  pub value_opt : ℕ

abbrev pub empty_element : Element
empty_element = record { key_opt = 0; value_opt = 0 }

-- `struct __MCF_tls_table`: the elements from `__begin` to `__end`; without storage `size` is 0.
pub record Table : Type 0 where
  pub size : ℕ
  pub element_at : ℕ → Element
  pub size_hint : ℕ

abbrev pub empty : Table
empty = record { size = 0; element_at = λ _. empty_element; size_hint = 0 }

-- `_MCF_tls_key_new`: the address, and the keys. `fresh` is the address of the new memory.
unfoldable pub key_new : Option ℕ → ℕ → Keys → ℕ × Keys
key_new none dtor_opt keys = (0, keys)
key_new (some key) dtor_opt keys =
    (key, assign key (record { nref = 1; deleted = false; dtor_opt = dtor_opt }) keys)

-- `_MCF_tls_key_add_ref`
unfoldable pub key_add_ref : ℕ → Keys → Keys
key_add_ref key keys = assign key (record (keys key) { nref = (keys key).nref + 1 }) keys

-- `_MCF_tls_key_drop_ref_nonnull`
unfoldable pub key_drop_ref_nonnull : ℕ → Keys → Keys
key_drop_ref_nonnull key keys = assign key (record (keys key) { nref = (keys key).nref - 1 }) keys

-- `_MCF_tls_key_drop_ref`
unfoldable pub key_drop_ref : ℕ → Keys → Keys
unfolding key_drop_ref_nonnull
key_drop_ref key_opt keys = if key_opt == 0 then keys else key_drop_ref_nonnull key_opt keys

-- `_MCF_tls_key_delete_nonnull`
unfoldable pub key_delete_nonnull : ℕ → Keys → Keys
unfolding key_drop_ref_nonnull
key_delete_nonnull key keys =
    key_drop_ref_nonnull key (assign key (record (keys key) { deleted = true }) keys)

-- `_MCF_tls_key_delete`
unfoldable pub key_delete : ℕ → Keys → Keys
unfolding key_delete_nonnull
key_delete key_opt keys = if key_opt == 0 then keys else key_delete_nonnull key_opt keys

-- `!cur->__key_opt || (cur->__key_opt == key)`
abbrev pub stops : (ℕ → Element) → ℕ → ℕ → Bool
stops elements key i = (elements i).key_opt == 0 || (elements i).key_opt == key

-- The index where a probe for a key begins.
unfoldable pub origin_of : ℕ → ℕ → ℕ
origin_of dist key = dist * (key / 8 % 2 ^ 32 * 0x9E3779B9 % 2 ^ 32) % 2 ^ 64 / 2 ^ 32

-- `do_linear_probe_nonempty`: the index; `none` is the assertion at its end.
unfoldable pub linear_probe : Table → ℕ → Option ℕ
unfolding origin_of first_round
linear_probe table key =
    let origin = origin_of table.size key in
    if (table.element_at origin).key_opt == key
    then some origin
    else first_round (stops table.element_at key) table.size origin

abbrev pub value_in : Table → Option ℕ → ℕ
value_in table none = 0
value_in table (some i) =
    if (table.element_at i).key_opt == 0 then 0 else (table.element_at i).value_opt

-- `__MCF_tls_table_get`; a failing assertion counts as null.
unfoldable pub get : Keys → Table → ℕ → ℕ
unfolding linear_probe
get keys table key =
    if (keys key).deleted
    then 0
    else if table.size == 0
    then 0
    else value_in table (linear_probe table key)

-- A key that is to be moved to a larger table.
abbrev pub live : (ℕ → Bool) → Element → ℕ
live deleted e = if e.key_opt == 0 || deleted e.key_opt then 0 else 1

abbrev pub deleted_in : Keys → ℕ → Bool
deleted_in keys key = (keys key).deleted

-- A key that is not in the table, put at an index.
unfoldable pub put : Table → ℕ → Element → Table
put table i e = record table {
  element_at = assign i e table.element_at;
  size_hint = table.size_hint + 1;
}

-- A key that is in the table at an index gets another value.
unfoldable pub revalue : Table → ℕ → ℕ → Table
revalue table i value_opt = record table {
  element_at = assign i (record (table.element_at i) { value_opt = value_opt }) table.element_at;
}

-- A table, and the keys with their reference counts.
pub record Store : Type 0 where
  pub table : Table
  pub keys : Keys

-- Relocates an element at the index that a probe has found.
unfoldable pub relocate_at : Element → Store → Option ℕ → Option Store
unfolding put
relocate_at e s none = none
relocate_at e s (some i) =
    if (s.table.element_at i).key_opt == 0
    then some (record s { table = put s.table i e })
    else none

-- One round of the loop that moves elements into the new table; `none` is a failed assertion.
unfoldable pub relocate : Element → Store → Option Store
unfolding relocate_at linear_probe key_drop_ref_nonnull
relocate e s =
    if e.key_opt == 0
    then some s
    else if (s.keys e.key_opt).deleted
    then some (record s { keys = key_drop_ref_nonnull e.key_opt s.keys })
    else relocate_at e s (linear_probe s.table e.key_opt)

-- `while(old_begin != old_end)`: the elements at the indexes below `n`, from the last one down.
unfoldable pub relocate_all : (ℕ → Element) → ℕ → Option Store → Option Store
unfolding relocate
relocate_all elements zero s = s
relocate_all elements (suc n) none = none
relocate_all elements (suc n) (some s) = relocate_all elements n (relocate (elements n) s)

-- The larger table; `spare` is how many elements more than asked for `__MCF_msize` reports.
unfoldable pub grow : ℕ → Store → Option Store
unfolding relocate_all weigh
grow spare s =
    let capacity = 17 + 3 * weigh (live (deleted_in s.keys)) s.table.size s.table.element_at in
    relocate_all s.table.element_at s.table.size (
      some (record s {
        table = record { size = capacity + spare; element_at = λ _. empty_element; size_hint = 0 };
      }))

pub record Outcome : Type 0 where
  pub err : ℤ
  pub old_value : ℕ
  pub store : Store

abbrev pub returning : ℤ → Store → Option Outcome
returning err s = some (record { err = err; old_value = 0; store = s })

-- The end of `__MCF_tls_table_xset`, at the index that the probe has found.
unfoldable pub set_at : ℕ → ℕ → Store → Option ℕ → Option Outcome
unfolding put revalue key_add_ref
set_at key value_opt s none = none
set_at key value_opt s (some i) =
    let e = s.table.element_at i in
    if e.key_opt == 0
    then if value_opt == 0
      then returning (pos 0) s
      else some (record {
        err = pos 0;
        old_value = e.value_opt;
        store = record {
          table = put s.table i (record { key_opt = key; value_opt = value_opt });
          keys = key_add_ref key s.keys;
        };
      })
    else if e.key_opt == key
    then some (record {
      err = pos 0;
      old_value = e.value_opt;
      store = record s { table = revalue s.table i value_opt };
    })
    else none

abbrev pub set_grown : ℕ → ℕ → Option Store → Option Outcome
set_grown key value_opt none = none
set_grown key value_opt (some s) = set_at key value_opt s (linear_probe s.table key)

-- `__MCF_tls_table_xset`; `none` is a failed assertion. `memory` is what an allocation gives: `none`
-- when it fails, and otherwise the spare elements.
unfoldable pub xset : Option ℕ → ℕ → ℕ → Store → Option Outcome
unfolding grow set_at linear_probe
xset memory key value_opt s =
    if (s.keys key).deleted
    then returning (negsuc 0) s
    else if value_opt == 0 && s.table.size == 0
    then returning (pos 0) s
    else if not (value_opt == 0) && leb (s.table.size / 2) s.table.size_hint
    then elim memory [
      | none ↦ returning (negsuc 1) s
      | some spare ↦ set_grown key value_opt (grow spare s)
    ]
    else set_grown key value_opt (some s)

-- `_MCF_tls_key_get_ref`
unfoldable pub key_get_ref : ℕ → Keys → ℕ
key_get_ref key keys = (keys key).nref

-- `_MCF_tls_key_get_destructor`
unfoldable pub key_get_destructor : ℕ → Keys → ℕ
key_get_destructor key keys = (keys key).dtor_opt
