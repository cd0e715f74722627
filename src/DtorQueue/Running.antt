-- ===== src/DtorQueue/Running.antt =====
-- The loops that run the callbacks of a destructor queue.
use mcfgthread.Base.{
  ℕ, zero, suc, ◌≤◌, ◌<◌, ◌≡◌, refl, sym, ap, true, false, List, [], ◌∷◌, length, Option, none,
  some, arith, if◌then◌else◌, ◌∙◌, if_ind,
}
use mathlib.Core.Path.{subst}
use mcfgthread.DtorQueue.{Element, Queue, matches, kept, pop, called, run_dtors, run_popped}
use mcfgthread.DtorQueue.Laws.{to_list, pop_list, and_first, pop-pop_list}

-- The matching elements of a list.
unfoldable pub matched : ℕ → List Element → List Element
matched dso [] = []
matched dso (e ∷ l) = let others = matched dso l in if matches dso e then e ∷ others else others

-- A null DSO handle matches all.
pub matched_all : (l : List Element) → matched 0 l ≡ l
unfolding matched
matched_all [] = refl
matched_all (e ∷ l) = ap (λ x. e ∷ x) (matched_all l)

-- What a pop does to the elements that match and to those that do not.
abbrev Popped : ℕ → List Element → Option Element × List Element → Type 0
Popped dso l (none, left) = (left ≡ l) × (kept dso l ≡ l) × (matched dso l ≡ [])
Popped dso l (some e, left) = (matched dso l ≡ e ∷ matched dso left) × (kept dso l ≡ kept dso left)

hit-Popped :
    (dso : ℕ) (e : Element) (l : List Element)
    → matches dso e ≡ true
    → Popped dso (e ∷ l) (some e, l)
unfolding kept matched
hit-Popped dso e l m = (ground arith, ground arith)

miss-Popped :
    (dso : ℕ) (e : Element) (l : List Element) (r : Option Element × List Element)
    → matches dso e ≡ false
    → Popped dso l r
    → Popped dso (e ∷ l) (and_first e r)
unfolding kept matched
miss-Popped dso e l (none, left) m h =
    (ground (arith, h.0), ground (arith, h.1), ground (arith, h.2))
miss-Popped dso e l (some x, left) m h = (ground (arith, h.0), ground (arith, h.1))

pop_list-Popped : (dso : ℕ) (l : List Element) → Popped dso l (pop_list dso l)
unfolding pop_list kept matched
pop_list-Popped dso [] = (refl, refl, refl)
pop_list-Popped dso (e ∷ l) =
    if_ind (Popped dso (e ∷ l)) (matches dso e) (hit-Popped dso e l)
      (λ m. miss-Popped dso e l (pop_list dso l) m (pop_list-Popped dso l))

-- A loop over a state `P`, of which it sees the list `view` and leaves `other` alone.
module _ {P O : Type 0} (view : P → List Element) (other : P → O) (dso : ℕ) where
  abbrev Runs : List Element → O → Option (List Element × P) → Type 0
  Runs l o none = ⊥
  Runs l o (some (calls, p)) = (calls ≡ matched dso l) × (view p ≡ kept dso l) × (other p ≡ o)

  called-Runs :
      (l left : List Element) (o : O) (e : Element) (z : Option (List Element × P))
      → Popped dso l (some e, left)
      → Runs left o z
      → Runs l o (called e z)
  called-Runs l left o e none p h = absurd h
  called-Runs l left o e (some (calls, q)) p h = (ap (λ x. e ∷ x) h.0 ∙ sym p.0, h.1 ∙ sym p.1, h.2)

  module _ (invoke : Element → P → P) (quiet : (e : Element) (p : P) → invoke e p ≡ p) where
    run_popped-Runs :
        (l : List Element) (o : O) (go_on : P → Option (List Element × P)) (r : Option Element × P)
        → Popped dso l (r.0, view r.1)
        → other r.1 ≡ o
        → ((q : P)
            → suc (length (matched dso (view q))) ≤ length (matched dso l)
            → Runs (view q) (other q) (go_on q))
        → Runs l o (run_popped invoke go_on r)
    unfolding run_popped
    run_popped-Runs l o go_on (none, q) p same ih = (sym p.2, p.0 ∙ sym p.1, same)
    run_popped-Runs l o go_on (some e, q) p same ih =
        let n : length (matched dso l) ≡ suc (length (matched dso (view q))) = ap length p.0 in
        called-Runs l (view q) o e (go_on (invoke e q)) p
          (rw (quiet e q) (subst (λ x. Runs (view q) x (go_on q)) same (ih q (omega (arith, n)))))

    run_dtors-Runs :
        (pop_one : P → Option Element × P)
        → ((p : P) → ((pop_one p).0, view (pop_one p).1) ≡ pop_list dso (view p))
        → ((p : P) → other (pop_one p).1 ≡ other p)
        → (fuel : ℕ) (p : P) → length (matched dso (view p)) < fuel
        → Runs (view p) (other p) (run_dtors pop_one invoke fuel p)
    unfolding run_dtors
    run_dtors-Runs pop_one pops keeps zero p h = absurd (omega (arith, h))
    run_dtors-Runs pop_one pops keeps (suc fuel) p h =
        run_popped-Runs (view p) (other p) (run_dtors pop_one invoke fuel) (pop_one p)
          (subst (Popped dso (view p)) (sym (pops p)) (pop_list-Popped dso (view p))) (keeps p)
          (λ q less. run_dtors-Runs pop_one pops keeps fuel q (omega (arith, less, h)))

  returned :
      (l : List Element) (o : O) (z : Option (List Element × P))
      → Runs l o z
      → (p : P) × (z ≡ some (matched dso l, p)) × (view p ≡ kept dso l) × (other p ≡ o)
  returned l o none h = absurd h
  returned l o (some (calls, p)) h = (p, ap (λ x. some (x, p)) h.0, h.1, h.2)

  pub run_dtors-calls :
      (pop_one : P → Option Element × P) (invoke : Element → P → P)
      → ((e : Element) (p : P) → invoke e p ≡ p)
      → ((p : P) → ((pop_one p).0, view (pop_one p).1) ≡ pop_list dso (view p))
      → ((p : P) → other (pop_one p).1 ≡ other p)
      → (fuel : ℕ) (p : P) → length (matched dso (view p)) < fuel
      → (p' : P) × (run_dtors pop_one invoke fuel p ≡ some (matched dso (view p), p'))
        × (view p' ≡ kept dso (view p))
        × (other p' ≡ other p)
  run_dtors-calls pop_one invoke quiet pops keeps fuel p h =
      returned (view p) (other p) (run_dtors pop_one invoke fuel p)
        (run_dtors-Runs invoke quiet pop_one pops keeps fuel p h)

-- Where the callbacks leave the queue alone and there is fuel for one step more than there are
-- matching elements, the loop ends; it has called exactly the matching elements, the newest first,
-- and the others stay in the queue, in their order.
pub run_dtors_lem :
    (invoke : Element → Queue → Queue) (fuel dso : ℕ) (q : Queue)
    → ((e : Element) (q' : Queue) → invoke e q' ≡ q')
    → length (matched dso (to_list q)) < fuel
    → (q' : Queue) × (run_dtors (pop dso) invoke fuel q ≡ some (matched dso (to_list q), q'))
      × (to_list q' ≡ kept dso (to_list q))
run_dtors_lem invoke fuel dso q quiet h =
    let r =
      run_dtors-calls to_list (λ _. tt) dso (pop dso) invoke quiet (pop-pop_list dso) (λ _. refl)
        fuel q h in
    (r.0, r.1, r.2)
