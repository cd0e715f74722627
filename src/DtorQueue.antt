-- ===== src/DtorQueue.antt =====
-- The destructor queue: mcfgthread/src/dtor_queue.c, and the loop of mcfgthread/src/xglobals.c that
-- runs it.
pub mod Laws
pub mod Pushing
pub mod Running
use mcfgthread.Base.{
  ℕ, zero, suc, ◌+◌, ◌-◌, ◌%◌, ◌^◌, Option, none, some, Bool, true, false, not, ◌&&◌, ◌||◌, ◌==◌,
  ltb, if◌then◌else◌, ℤ, pos, negsuc, List, [], ◌∷◌, ◌++◌, length,
}

-- `struct __MCF_dtor_element`: a pointer is an integer, and 0 is the null pointer.
pub record Element : Type 0 where
  pub dtor : ℕ
  pub this : ℕ
  pub dso : ℕ

-- `struct __MCF_dtor_queue`: the first `__size` elements of `__data`, by rising index, and the
-- blocks that `__prev` leads to, the nearest one first.
pub record Queue : Type 0 where
  pub block : List Element
  pub prev : List (List Element)

abbrev pub empty : Queue
empty = record { block = []; prev = [] }

-- `ARRAYSIZE(queue->__data)`
abbrev pub capacity : ℕ
capacity = 63

-- `__MCF_dtor_queue_reserve_and_push`: the result, and the queue. `has_memory` is whether
-- `__MCF_malloc_copy` succeeds; a null `elem` is `none`.
unfoldable pub reserve_and_push : Bool → ℕ → Option Element → Queue → ℤ × Queue
reserve_and_push has_memory reservation none q = (negsuc 0, q)
reserve_and_push has_memory reservation (some elem) q =
    if ltb reservation 1 || ltb capacity reservation || (elem.dtor == 0)
    then (negsuc 0, q)
    else if ltb ((capacity + 2 ^ 32 - length q.block) % 2 ^ 32) reservation
    then if has_memory
      then (pos 0, record { block = elem ∷ []; prev = q.block ∷ q.prev })
      else (negsuc 1, q)
    else (pos 0, record q { block = q.block ++ (elem ∷ []) })

-- `__MCF_dtor_queue_push`
unfoldable pub push : Bool → Option Element → Queue → ℤ × Queue
unfolding reserve_and_push
push has_memory elem q = reserve_and_push has_memory 1 elem q

-- A null DSO handle matches every element.
abbrev pub matches : ℕ → Element → Bool
matches dso e = (dso == 0) || (dso == e.dso)

-- In a block, the search for an element goes backwards, and the elements above the one that is
-- found move down by one.
unfoldable pub or_here :
    ℕ → Element → List Element → Option (Element × List Element) → Option (Element × List Element)
or_here dso e later (some (found, others)) = some (found, e ∷ others)
or_here dso e later none = if matches dso e then some (e, later) else none

unfoldable pub pop_block : ℕ → List Element → Option (Element × List Element)
unfolding or_here
pop_block dso [] = none
pop_block dso (e ∷ later) = or_here dso e later (pop_block dso later)

-- When a block has no matching element, a non-empty block stays and the search goes on in the one
-- before; an empty block is replaced by the one before.
abbrev pub behind : List Element → Option Element × Queue → Option Element × Queue
behind [] r = r
behind (e ∷ block) (found, q) = (found, record { block = e ∷ block; prev = q.block ∷ q.prev })

abbrev pub taken :
    List (List Element)
    → Option (Element × List Element)
    → Option Element × Queue
    → Option Element × Queue
taken prev (some (found, others)) other = (some found, record { block = others; prev = prev })
taken prev none other = other

unfoldable pub pop_from : ℕ → List Element → List (List Element) → Option Element × Queue
unfolding pop_block
pop_from dso block [] = taken [] (pop_block dso block) (none, record { block = block; prev = [] })
pop_from dso block (p ∷ prev) =
    taken (p ∷ prev) (pop_block dso block) (behind block (pop_from dso p prev))

-- `__MCF_dtor_queue_pop` with a non-null `out_elem`: the element, or `none` for the result -1.
unfoldable pub pop : ℕ → Queue → Option Element × Queue
unfolding pop_from
pop dso q = pop_from dso q.block q.prev

-- The elements of a block that do not match.
unfoldable pub kept : ℕ → List Element → List Element
kept dso [] = []
kept dso (e ∷ l) = let others = kept dso l in if matches dso e then others else e ∷ others

abbrev pub before : List Element → ℕ → ℕ × Queue → ℕ × Queue
before [] n (m, q) = (n + m, q)
before (e ∷ block) n (m, q) = (n + m, record { block = e ∷ block; prev = q.block ∷ q.prev })

unfoldable pub remove_from : ℕ → List Element → List (List Element) → ℕ × Queue
unfolding kept
remove_from dso block [] =
    (length block - length (kept dso block), record { block = kept dso block; prev = [] })
remove_from dso block (p ∷ prev) =
    before (kept dso block) (length block - length (kept dso block)) (remove_from dso p prev)

-- `__MCF_dtor_queue_remove`: the number of removed elements, and the queue.
unfoldable pub remove : ℕ → Queue → ℕ × Queue
unfolding remove_from
remove dso q = remove_from dso q.block q.prev

-- `__MCF_run_static_dtors` and the loop of `do_finalize_thread`: the callbacks in the order of their
-- calls, and the state in the end. `pop_one` is the pop that the loop makes, and a callback may do
-- anything to the state: `invoke`. `none` is for fuel that is not enough.
abbrev pub called : {P : Type 0} → Element → Option (List Element × P) → Option (List Element × P)
called e none = none
called e (some (calls, p)) = some (e ∷ calls, p)

unfoldable pub run_popped :
    {P : Type 0}
    → (Element → P → P)
    → (P → Option (List Element × P))
    → Option Element × P
    → Option (List Element × P)
run_popped invoke go_on (none, p) = some ([], p)
run_popped invoke go_on (some e, p) = called e (go_on (invoke e p))

unfoldable pub run_dtors :
    {P : Type 0} → (P → Option Element × P) → (Element → P → P) → ℕ → P → Option (List Element × P)
unfolding run_popped
run_dtors pop_one invoke zero p = none
run_dtors pop_one invoke (suc fuel) p =
    let next = run_dtors pop_one invoke fuel in run_popped invoke next (pop_one p)
