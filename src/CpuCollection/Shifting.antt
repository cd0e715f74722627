-- ===== src/CpuCollection/Shifting.antt =====
-- How the insertion of `_MCF_cpu_collection_new` in mcfgthread/src/cpu_collection.c makes room.
use mcfgthread.Base.{ℕ, zero, suc, ◌-◌, ◌≤◌, ◌<◌, ◌≡◌, ltb, ℕ_discrete, ap, ◌∙◌, arith, if_ind}
use mcfgthread.Base.Family.{assign, assign-here, assign-elsewhere}
use mcfgthread.CpuCollection.{Element, make_room}

-- The elements from `k` on have moved up by one, and all of them have greater identifiers than the new one.
pub record HasRoom (id n : ℕ) (old new : ℕ → Element) (k : ℕ) : Type 0 where
  pub inside : k ≤ n
  pub below : (j : ℕ) → j < k → new j ≡ old j
  pub above : (j : ℕ) → k < j → j ≤ n → new j ≡ old (j - 1)
  pub greater : (j : ℕ) → k ≤ j → j < n → id < (old j).id
  pub smaller : 0 < k → (old (k - 1)).id ≤ id

-- The loop so far.
pub record IsMoving (id n : ℕ) (old new : ℕ → Element) (i : ℕ) : Type 0 where
  pub inside : i ≤ n
  pub below : (j : ℕ) → j < i → new j ≡ old j
  pub above : (j : ℕ) → i < j → j ≤ n → new j ≡ old (j - 1)
  pub greater : (j : ℕ) → i ≤ j → j < n → id < (old j).id

pub make_room-HasRoom :
    (id n i : ℕ) (old new : ℕ → Element)
    → IsMoving id n old new i
    → HasRoom id n old (make_room id i i new).0 (make_room id i i new).1
unfolding make_room
make_room-HasRoom id n zero old new g = record {
  inside = g.inside;
  below = g.below;
  above = g.above;
  greater = g.greater;
  smaller = λ h. absurd (omega arith);
}
make_room-HasRoom id n (suc i) old new g =
    let here : new i ≡ old i = g.below i (omega arith) in
    if_ind (λ (r : (ℕ → Element) × ℕ). HasRoom id n old r.0 r.1) (ltb id (new i).id)
      (λ greater.
        let same : suc i - 1 ≡ i = omega arith in
        rw same (
          make_room-HasRoom id n i old (assign (suc i) (new i) new) (record {
            inside = omega (arith, g.inside);
            below = λ j low.
                assign-elsewhere (suc i) (new i) new j (omega arith) ∙ g.below j (omega arith);
            above = λ j low high. elim (ℕ_discrete j (suc i)) [
              | yes e ↦ assign-here (suc i) (new i) new j e ∙ here ∙ ap old (omega arith)
              | no e ↦ assign-elsewhere (suc i) (new i) new j e ∙ g.above j (omega arith) high
            ];
            greater = λ j low high. elim (ℕ_discrete j i) [
              | yes e ↦ ground (arith, here, ap old e)
              | no e ↦ g.greater j (omega arith) high
            ];
          })))
      (λ smaller. record {
        inside = g.inside;
        below = g.below;
        above = g.above;
        greater = g.greater;
        smaller = λ h. ground (arith, here);
      })
