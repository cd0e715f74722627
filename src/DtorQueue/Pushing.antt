-- ===== src/DtorQueue/Pushing.antt =====
-- What a push does, and the sizes of the blocks of a destructor queue.
use mcfgthread.Base.{
  ℕ, ◌+◌, ◌-◌, ◌≤◌, ◌<◌, ◌≡◌, ◌≢◌, ◌↔◌, refl, Bool, false, List, [], ◌∷◌, ◌++◌, length, some, arith,
  ℤ, pos, negsuc, ltb, if◌then◌else◌, ◌||◌, ◌==◌, ◌^◌, ◌%◌, eqb_ℤ, if_ind,
}
use mcfgthread.DtorQueue.{Element, Queue, capacity, reserve_and_push}
use mcfgthread.DtorQueue.Laws.{newest_first, joined, to_list}

abbrev pub Fits : List (List Element) → Type 0
Fits [] = Unit
Fits (p ∷ prev) = (length p ≤ capacity) × Fits prev

-- No block has more elements than its array holds.
abbrev pub IsQueue : Queue → Type 0
IsQueue q = (length q.block ≤ capacity) × Fits q.prev

newest_first-snoc :
    (block : List Element) (e : Element) (older : List Element)
    → newest_first (block ++ (e ∷ [])) older ≡ e ∷ newest_first block older
newest_first-snoc [] e older = refl
newest_first-snoc (x ∷ block) e older = newest_first-snoc block e (x ∷ older)

joined-snoc :
    (block : List Element) (e : Element) (prev : List (List Element))
    → joined (block ++ (e ∷ [])) prev ≡ e ∷ joined block prev
joined-snoc block e [] = newest_first-snoc block e []
joined-snoc block e (p ∷ prev) = newest_first-snoc block e (joined p prev)

length-snoc : (block : List Element) (e : Element) → length (block ++ (e ∷ [])) ≡ length block + 1
length-snoc [] e = omega arith
length-snoc (x ∷ block) e = omega (arith, length-snoc block e)

-- The elements after a push with a given result.
abbrev pub pushed : ℤ → Element → List Element → List Element
pushed result e l = if eqb_ℤ result (pos 0) then e ∷ l else l

abbrev pub Pushes : ℕ → Element → Queue → ℤ × Queue → Type 0
Pushes reservation e q r =
    (to_list r.1 ≡ pushed r.0 e (to_list q))
    × IsQueue r.1
    × ((if eqb_ℤ r.0 (pos 0) then length r.1.block + reservation else 0) ≤ capacity + 1)

refused-Pushes :
    (reservation n : ℕ) (e : Element) (q : Queue) → IsQueue q → Pushes reservation e q (negsuc n, q)
refused-Pushes reservation n e q g = (ground arith, g, ground arith)

-- On every branch, a push that returns zero puts the element before all others, any other one
-- leaves the elements as they are, and no block outgrows its array. After a push that returned
-- zero, the current block has room for the rest of the reservation.
pub reserve_and_push_lem :
    (has_memory : Bool) (reservation : ℕ) (e : Element) (q : Queue)
    → IsQueue q
    → Pushes reservation e q (reserve_and_push has_memory reservation (some e) q)
unfolding reserve_and_push
reserve_and_push_lem has_memory reservation e q g =
    if_ind (Pushes reservation e q) (ltb reservation 1 || ltb capacity reservation || (e.dtor == 0))
      (λ bad. refused-Pushes reservation 0 e q g)
      (λ good.
        if_ind (Pushes reservation e q)
          (ltb ((capacity + 2 ^ 32 - length q.block) % 2 ^ 32) reservation)
          (λ full.
            if_ind (Pushes reservation e q) has_memory
              (λ _. (ground arith, (omega arith, (g.0, g.1)), ground arith))
              (λ _. refused-Pushes reservation 1 e q g))
          (λ room.
            let n = length-snoc q.block e in
            (joined-snoc q.block e q.prev, (ground (arith, g.0), g.1), ground (arith, g.0))))

-- A push is refused with -1 exactly when the reservation is not within [1,63] or there is no
-- function, and with -2 exactly when it is valid, the current block has too little room, and there
-- is no memory.
pub push_errors :
    (has_memory : Bool) (reservation : ℕ) (e : Element) (q : Queue)
    → IsQueue q
    → (((reserve_and_push has_memory reservation (some e) q).0 ≡ negsuc 0)
        ↔ (¬ ((1 ≤ reservation) × (reservation ≤ 63) × (e.dtor ≢ 0))))
      × (((reserve_and_push has_memory reservation (some e) q).0 ≡ negsuc 1) ↔ (
          (1 ≤ reservation)
          × (reservation ≤ 63)
          × (e.dtor ≢ 0)
          × (63 < length q.block + reservation)
          × (has_memory ≡ false)))
unfolding reserve_and_push
push_errors has_memory reservation e q g = (
  (λ h k. ground arith, λ h. ground arith),
  (
    λ h. (ground arith, ground arith, λ k. ground arith, ground (arith, g.0), ground arith),
    λ h. ground (arith, g.0),
  ),
)
