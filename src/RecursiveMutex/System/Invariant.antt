-- ===== src/RecursiveMutex/System/Invariant.antt =====
-- What holds in every state of the threads that use a recursive mutex of mcfgthread/gthr_aux.h.
use mcfgthread.Base.{
  ℕ, ◌≡◌, ◌≢◌, inl, inr, refl, sym, ◌∙◌, Bool, true, false, Bool-cases, arith, ℕ_discrete,
}
use mathlib.Core.Path.{subst}
use mcfgthread.Base.Family.{assign, assign-here, assign-elsewhere}
use mcfgthread.RecursiveMutex.{RcMutex}
use mcfgthread.RecursiveMutex.System.{Thread, System, start, Reachable, starts, steps}
use mcfgthread.RecursiveMutex.System.View.{is_inside, Agrees, IsStep, Good}
use mcfgthread.RecursiveMutex.System.Acting.{act-Good}

pub record Inv (s : System) : Type 0 where
  pub agrees : (i : ℕ) → Agrees i (s.thread i) s.rmtx
  pub single :
      (i j : ℕ) → is_inside (s.thread i).pc ≡ true → is_inside (s.thread j).pc ≡ true → i ≡ j
  pub free : s.rmtx.locked ≡ false → (s.rmtx.owner ≡ 0) × (s.rmtx.depth ≡ 0)

not_both : {b : Bool} → b ≢ true → b ≡ false
not_both {b = b} h = elim (Bool-cases b) [ inl yes_there ↦ absurd (h yes_there) | inr out ↦ out ]

module _ (s : System) (i : ℕ) (t : Thread) (r : RcMutex) (g : Inv s)
    (p : IsStep i (s.thread i) t s.rmtx r) where
  abbrev after : System
  after = record { rmtx = r; thread = assign i t s.thread }

  -- Another thread is not inside when this one is, or comes in.
  others_out : is_inside t.pc ≡ true → (j : ℕ) → j ≢ i → is_inside (s.thread j).pc ≡ false
  others_out inside j apart = elim (Bool-cases (is_inside (s.thread j).pc)) [
    | inr out ↦ out
    | inl there ↦ elim (p.entered inside) [
      | inl was ↦ absurd (apart (g.single j i there was))
      | inr unlocked ↦ absurd (let (l, o, d) = (g.agrees j).inside there in ground arith)
    ]
  ]

  other-Agrees : (j : ℕ) → j ≢ i → Agrees j (s.thread j) r
  other-Agrees j apart = record {
    consistent = (g.agrees j).consistent;
    inside = λ there.
        (let out : is_inside (s.thread i).pc ≡ false =
            not_both (λ x. apart (g.single j i there x)) in
          let out' : is_inside t.pc ≡ false =
            not_both (λ x. absurd (ground (arith, others_out x j apart))) in
          let same : r ≡ s.rmtx = p.stays_out out out' in rw same ((g.agrees j).inside there));
    owned = λ o. (g.agrees j).owned (p.foreign j apart o);
  }

  apart_or_same :
      (j k : ℕ)
      → is_inside (assign i t s.thread j).pc ≡ true
      → is_inside (assign i t s.thread k).pc ≡ true
      → j ≡ k
  apart_or_same j k j_in k_in = elim (ℕ_discrete j i) [
    | yes j_here ↦ elim (ℕ_discrete k i) [
      | yes k_here ↦ j_here ∙ sym k_here
      | no k_apart ↦ absurd (ground (arith, others_out (ground arith) k k_apart))
    ]
    | no j_apart ↦ elim (ℕ_discrete k i) [
      | yes k_here ↦ absurd (ground (arith, others_out (ground arith) j j_apart))
      | no k_apart ↦ g.single j k (ground arith) (ground arith)
    ]
  ]

  pub after-Inv : Inv after
  after-Inv = record {
    agrees = λ j. elim (ℕ_discrete j i) [
      | yes here ↦ rw here (rw (assign-here i t s.thread i refl) p.agrees)
      | no apart ↦ rw (assign-elsewhere i t s.thread j apart) (other-Agrees j apart)
    ];
    single = λ j k j_in k_in. apart_or_same j k j_in k_in;
    free = p.free;
  }

start-Inv : Inv start
start-Inv = record {
  agrees = λ i. record {
    consistent = refl;
    inside = λ z. absurd (ground arith);
    owned = λ z. absurd (omega arith);
  };
  single = λ i j z. absurd (ground arith);
  free = λ _. (refl, refl);
}

pub Reachable-Inv : (s : System) → Reachable s → Inv s
Reachable-Inv s starts = start-Inv
Reachable-Inv s (steps s' action i t r reached e) =
    let g = Reachable-Inv s' reached in
    after-Inv s' i t r g (
      subst (Good i (s'.thread i) s'.rmtx) e (
        act-Good action i (s'.thread i).pc (s'.thread i).levels (s'.thread i).unlocked s'.rmtx
          (g.agrees i) g.free))
