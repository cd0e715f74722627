-- ===== src/DtorQueue/Laws.antt =====
-- The destructor queue is one list, the newest element first.
use mcfgthread.Base.{
  ℕ, ◌+◌, ◌-◌, ◌≤◌, ◌≡◌, refl, sym, ap, List, [], ◌∷◌, length, Option, none, some, arith,
  Bool-cases, inl, inr, if◌then◌else◌, ◌∙◌,
}
use mcfgthread.DtorQueue.{
  Element, Queue, matches, pop_block, or_here, pop_from, taken, behind, pop, kept, before,
  remove_from, remove,
}

-- The elements of a block, the newest first, before others.
abbrev pub newest_first : List Element → List Element → List Element
newest_first [] older = older
newest_first (e ∷ block) older = newest_first block (e ∷ older)

abbrev pub joined : List Element → List (List Element) → List Element
joined block [] = newest_first block []
joined block (p ∷ prev) = newest_first block (joined p prev)

-- The elements that a queue stands for.
abbrev pub to_list : Queue → List Element
to_list q = joined q.block q.prev

-- Takes the first matching element off a list.
abbrev pub and_first : Element → Option Element × List Element → Option Element × List Element
and_first e (found, l) = (found, e ∷ l)

unfoldable pub pop_list : ℕ → List Element → Option Element × List Element
pop_list dso [] = (none, [])
pop_list dso (e ∷ l) =
    let later = pop_list dso l in if matches dso e then (some e, l) else and_first e later

-- What the search in a block means for the elements after it.
abbrev taken_list :
    ℕ
    → List Element
    → List Element
    → Option (Element × List Element)
    → Option Element × List Element
taken_list dso block older (some (found, others)) = (some found, newest_first others older)
taken_list dso block older none =
    ((pop_list dso older).0, newest_first block (pop_list dso older).1)

taken_list-or_here :
    (dso : ℕ) (e : Element) (block older : List Element) (r : Option (Element × List Element))
    → taken_list dso block (e ∷ older) r ≡ taken_list dso (e ∷ block) older (or_here dso e block r)
unfolding or_here pop_list
taken_list-or_here dso e block older (some (found, others)) = refl
taken_list-or_here dso e block older none = ground arith

pop_list-newest_first :
    (dso : ℕ) (block older : List Element)
    → pop_list dso (newest_first block older) ≡ taken_list dso block older (pop_block dso block)
unfolding pop_block pop_list
pop_list-newest_first dso [] older = refl
pop_list-newest_first dso (e ∷ block) older =
    pop_list-newest_first dso block (e ∷ older)
    ∙ taken_list-or_here dso e block older (pop_block dso block)

abbrev listed : Option Element × Queue → Option Element × List Element
listed (found, q) = (found, to_list q)

listed-taken_last :
    (dso : ℕ) (block : List Element) (r : Option (Element × List Element))
    → listed (taken [] r (none, record { block = block; prev = [] })) ≡ taken_list dso block [] r
unfolding pop_list
listed-taken_last dso block (some (found, others)) = refl
listed-taken_last dso block none = refl

listed-taken :
    (dso : ℕ) (block p : List Element) (prev : List (List Element)) (other : Option Element × Queue)
    (r : Option (Element × List Element))
    → listed other ≡ pop_list dso (joined p prev)
    → listed (taken (p ∷ prev) r (behind block other)) ≡ taken_list dso block (joined p prev) r
listed-taken dso block p prev other (some (found, others)) e = refl
listed-taken dso [] p prev other none e = e
listed-taken dso (x ∷ block) p prev (found, q) none e =
    ap (λ r. (r.0, newest_first block (x ∷ r.1))) e

pop_from-pop_list :
    (dso : ℕ) (block : List Element) (prev : List (List Element))
    → listed (pop_from dso block prev) ≡ pop_list dso (joined block prev)
unfolding pop_from
pop_from-pop_list dso block [] =
    listed-taken_last dso block (pop_block dso block) ∙ sym (pop_list-newest_first dso block [])
pop_from-pop_list dso block (p ∷ prev) =
    listed-taken dso block p prev (pop_from dso p prev) (pop_block dso block)
      (pop_from-pop_list dso p prev)
    ∙ sym (pop_list-newest_first dso block (joined p prev))

-- Popping by a DSO handle takes the newest matching element off the list that the queue stands for,
-- however its elements are spread over blocks; it finds none exactly when the list has none.
pub pop-pop_list :
    (dso : ℕ) (q : Queue) → ((pop dso q).0, to_list (pop dso q).1) ≡ pop_list dso (to_list q)
unfolding pop
pop-pop_list dso q = pop_from-pop_list dso q.block q.prev

kept-newest_first :
    (dso : ℕ) (block older : List Element)
    → kept dso (newest_first block older) ≡ newest_first (kept dso block) (kept dso older)
unfolding kept
kept-newest_first dso [] older = refl
kept-newest_first dso (e ∷ block) older =
    let ih = kept-newest_first dso block (e ∷ older) in
    elim (Bool-cases (matches dso e)) [
      | inl hit ↦ ground (arith, ih)
      | inr miss ↦ ground (arith, ih)
    ]

length-newest_first :
    (block older : List Element) → length (newest_first block older) ≡ length block + length older
length-newest_first [] older = omega arith
length-newest_first (e ∷ block) older = omega (arith, length-newest_first block (e ∷ older))

length-kept : (dso : ℕ) (l : List Element) → length (kept dso l) ≤ length l
unfolding kept
length-kept dso [] = omega arith
length-kept dso (e ∷ l) = ground (arith, length-kept dso l)

-- A removal and the list that the queue stands for after it.
abbrev Removes : ℕ → List Element → ℕ × Queue → Type 0
Removes dso l r = (to_list r.1 ≡ kept dso l) × (r.0 + length (kept dso l) ≡ length l)

before-to_list :
    (block : List Element) (n : ℕ) (r : ℕ × Queue)
    → (to_list (before block n r).1 ≡ newest_first block (to_list r.1))
      × ((before block n r).0 ≡ n + r.0)
before-to_list [] n (m, q) = (refl, refl)
before-to_list (e ∷ block) n (m, q) = (refl, refl)

-- What a block and the older elements keep, and how many they lose.
lost :
    (dso : ℕ) (block older : List Element) (m : ℕ)
    → m + length (kept dso older) ≡ length older
    → length block - length (kept dso block) + m + length (kept dso (newest_first block older))
      ≡ length (newest_first block older)
lost dso block older m h = rw (kept-newest_first dso block older) (
    omega (
      arith,
      h,
      length-kept dso block,
      length-newest_first block older,
      length-newest_first (kept dso block) (kept dso older),
    ))

before-Removes :
    (dso : ℕ) (block older : List Element) (r : ℕ × Queue)
    → Removes dso older r
    → Removes dso
        (newest_first block older)
        (before (kept dso block) (length block - length (kept dso block)) r)
before-Removes dso block older r h =
    let b = before-to_list (kept dso block) (length block - length (kept dso block)) r in
    (
      b.0 ∙ ap (newest_first (kept dso block)) h.0 ∙ sym (kept-newest_first dso block older),
      ap (λ x. x + length (kept dso (newest_first block older))) b.1 ∙ lost dso block older r.0 h.1,
    )

remove_from-Removes :
    (dso : ℕ) (block : List Element) (prev : List (List Element))
    → Removes dso (joined block prev) (remove_from dso block prev)
unfolding remove_from kept
remove_from-Removes dso block [] =
    (sym (kept-newest_first dso block []), omega (arith, lost dso block [] 0 refl))
remove_from-Removes dso block (p ∷ prev) =
    before-Removes dso block (joined p prev) (remove_from dso p prev)
      (remove_from-Removes dso p prev)

-- A removal by a DSO handle leaves exactly the elements that do not match, in their order, and
-- returns the number of the others.
pub remove-kept :
    (dso : ℕ) (q : Queue)
    → (to_list (remove dso q).1 ≡ kept dso (to_list q))
      × ((remove dso q).0 + length (kept dso (to_list q)) ≡ length (to_list q))
unfolding remove
remove-kept dso q = remove_from-Removes dso q.block q.prev
