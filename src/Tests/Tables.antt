-- ===== src/Tests/Tables.antt =====
-- Thread-local storage at a table of two elements, one of them used.
use mcfgthread.Base.{
  ℕ, ◌/◌, ◌≤◌, ◌≡◌, ◌≢◌, ◌↔◌, ◌⊎◌, refl, ◌==◌, if◌then◌else◌, true, false, Bool, some, none, Option,
  pos, negsuc, arith, ℕ_discrete,
}
use mcfgthread.Base.Family.{assign, weigh}
use mcfgthread.Tls.{
  Keys, Element, Table, Store, Outcome, put, linear_probe, origin_of, key_delete, get, xset,
}
use mcfgthread.Tls.Pop.{PoppedElement, pop}
use mcfgthread.Tls.Putting.{put-IsTable}
use mcfgthread.Tls.Larger.{cleared, cleared-IsTable, IsStore}
use mcfgthread.Tls.Mapping.{xset_updates, xset_errors}
use mcfgthread.Tls.Popping.{PopsOne, PopsNone, pop_lem}

-- A key at the address 8, with a destructor, and keys that nobody uses.
abbrev pub keys : Keys
keys =
    assign 8 (record { nref = 2; deleted = false; dtor_opt = 100 })
      (λ _. record { nref = 1; deleted = false; dtor_opt = 0 })

abbrev pub element : Element
element = record { key_opt = 8; value_opt = 7 }

abbrev pub table : Table
table = put (cleared 2) 1 element

abbrev pub store : Store
store = record { table = table; keys = keys }

probed : linear_probe (cleared 2) 8 ≡ some 1
unfolding linear_probe origin_of
probed = refl

got : get keys table 8 ≡ 7
unfolding get linear_probe origin_of put ℕ_discrete
got = refl

deleted_null : get (key_delete 8 keys) table 8 ≡ 0
unfolding get key_delete ℕ_discrete
deleted_null = refl

pub store-IsStore : IsStore store
unfolding put weigh
store-IsStore = record {
  table =
      put-IsTable (cleared 2) 8 7 1 (cleared-IsTable 2) (omega arith) (omega arith) probed refl
        (omega arith);
  covered = λ k z. ground arith;
}

-- The table has to grow.
xset_updates_example :
    (o : Outcome) × (xset (some 3) 16 9 store ≡ some o)
    × (o.err ≡ pos 0)
    × (o.old_value ≡ get keys table 16)
    × IsStore o.store
    × ((k : ℕ)
        → k ≢ 0
        → get o.store.keys o.store.table k ≡ (if k == 16 then 9 else get keys table k))
unfolding ℕ_discrete
xset_updates_example =
    xset_updates (some 3) 16 9 store store-IsStore (omega arith) refl (ground arith)

-- And cannot, without memory.
xset_errors_example :
    (o : Outcome) × (xset none 16 9 store ≡ some o)
    × ((o.err ≡ negsuc 0) ↔ (◌≡◌ {A = Bool} false true))
    × ((o.err ≡ negsuc 1) ↔ (
        (◌≡◌ {A = Bool} false false)
        × (◌≢◌ {A = ℕ} 9 0)
        × (2 / 2 ≤ 1)
        × (◌≡◌ {A = Option ℕ} none none)))
    × (o.err ≢ pos 0 → (o.store ≡ store) × (o.old_value ≡ 0))
unfolding put ℕ_discrete
xset_errors_example = xset_errors none 16 9 store store-IsStore (omega arith)

pop_lem_example :
    ((e : PoppedElement) × PopsOne store (pop (some 0) store) e)
    ⊎ PopsNone store (pop (some 0) store)
pop_lem_example = pop_lem 0 store store-IsStore
