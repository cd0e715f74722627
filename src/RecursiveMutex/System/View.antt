-- ===== src/RecursiveMutex/System/View.antt =====
-- What the recursive mutex of mcfgthread/gthr_aux.h looks like to one thread, and what a step of another
-- keeps.
use mcfgthread.Base.{
  ℕ, ◌<◌, ◌≡◌, ◌≢◌, ◌⊎◌, inl, inr, refl, Bool, true, false, if◌then◌else◌, Bool-cases, arith,
}
use mcfgthread.RecursiveMutex.{RcMutex}
use mcfgthread.RecursiveMutex.System.{
  Pc, outside, checked, owning, holding, dropping, saving, parting, waiting, relocked, restoring,
  Thread, tid_of, Result, blocked, failed, next,
}

-- The thread has the mutex locked.
abbrev pub is_inside : Pc → Bool
is_inside pc = elim pc [ outside ↦ false | checked ↦ false | waiting ↦ false | _ ↦ true ]

-- The thread has written its identifier.
abbrev pub is_owner : Pc → Bool
is_owner pc = elim pc [
  | owning ↦ true
  | holding ↦ true
  | dropping ↦ true
  | saving ↦ true
  | restoring ↦ true
  | _ ↦ false
]

abbrev pub owner_of : ℕ → Pc → ℕ
owner_of i pc = if is_owner pc then tid_of i else 0

abbrev pub depth_of : Thread → ℕ
depth_of t = elim t.pc [ holding ↦ t.levels | _ ↦ 0 ]

-- What a thread knows of itself: it has levels where it holds the mutex or waits to hold it again.
abbrev pub IsConsistent : Thread → Type 0
IsConsistent t = elim t.pc [
  | holding ↦ 0 < t.levels
  | saving ↦ (0 < t.levels) × (t.unlocked ≡ t.levels)
  | parting ↦ (0 < t.levels) × (t.unlocked ≡ t.levels)
  | waiting ↦ (0 < t.levels) × (t.unlocked ≡ t.levels)
  | relocked ↦ (0 < t.levels) × (t.unlocked ≡ t.levels)
  | restoring ↦ (0 < t.levels) × (t.unlocked ≡ t.levels)
  | _ ↦ t.levels ≡ 0
]

-- What the mutex looks like to a thread.
pub record Agrees (i : ℕ) (t : Thread) (r : RcMutex) : Type 0 where
  pub consistent : IsConsistent t
  pub inside :
      is_inside t.pc ≡ true
      → (r.locked ≡ true) × (r.owner ≡ owner_of i t.pc) × (r.depth ≡ depth_of t)
  pub owned : r.owner ≡ tid_of i → is_inside t.pc ≡ true

-- What a step of one thread keeps for all the others.
pub record IsStep (i : ℕ) (t t' : Thread) (r r' : RcMutex) : Type 0 where
  pub agrees : Agrees i t' r'
  pub entered : is_inside t'.pc ≡ true → (is_inside t.pc ≡ true) ⊎ (r.locked ≡ false)
  pub stays_out : is_inside t.pc ≡ false → is_inside t'.pc ≡ false → r' ≡ r
  pub foreign : (j : ℕ) → j ≢ i → r'.owner ≡ tid_of j → r.owner ≡ tid_of j
  pub free : r'.locked ≡ false → (r'.owner ≡ 0) × (r'.depth ≡ 0)

-- What a result does, if it is a step.
abbrev pub Good : ℕ → Thread → RcMutex → Result → Type 0
Good i t r blocked = Unit
Good i t r failed = Unit
Good i t r (next t' r') = IsStep i t t' r r'

-- A step inside, where the thread keeps the mutex locked.
pub inside-IsStep :
    (i : ℕ) (t t' : Thread) (r r' : RcMutex)
    → IsConsistent t'
    → is_inside t'.pc ≡ true
    → (is_inside t.pc ≡ true) ⊎ (r.locked ≡ false)
    → r'.locked ≡ true
    → r'.owner ≡ owner_of i t'.pc
    → r'.depth ≡ depth_of t'
    → IsStep i t t' r r'
inside-IsStep i t t' r r' c inside entered l o d = record {
  agrees = record { consistent = c; inside = λ _. (l, o, d); owned = λ _. inside };
  entered = λ _. entered;
  stays_out = λ out out'. absurd (ground arith);
  foreign = λ j apart e.
      absurd (elim (Bool-cases (is_owner t'.pc)) [ inl w ↦ ground arith | inr w ↦ ground arith ]);
  free = λ z. absurd (ground arith);
}

-- A step out of the mutex, which is unlocked without an owner.
pub outside-IsStep :
    (i : ℕ) (t t' : Thread) (r r' : RcMutex)
    → IsConsistent t'
    → is_inside t.pc ≡ true
    → is_inside t'.pc ≡ false
    → r'.owner ≡ 0
    → r'.depth ≡ 0
    → IsStep i t t' r r'
outside-IsStep i t t' r r' c inside out o d = record {
  agrees = record {
    consistent = c;
    inside = λ z. absurd (ground arith);
    owned = λ z. absurd (omega arith);
  };
  entered = λ z. inl inside;
  stays_out = λ z. absurd (ground arith);
  foreign = λ j apart z. absurd (omega arith);
  free = λ _. (o, d);
}

-- A step outside that leaves the mutex alone.
pub still-IsStep :
    (i : ℕ) (t t' : Thread) (r : RcMutex)
    → Agrees i t r
    → (r.locked ≡ false → (r.owner ≡ 0) × (r.depth ≡ 0))
    → IsConsistent t'
    → is_inside t.pc ≡ false
    → is_inside t'.pc ≡ false
    → IsStep i t t' r r
still-IsStep i t t' r a f c out out' = record {
  agrees = record {
    consistent = c;
    inside = λ z. absurd (ground arith);
    owned = λ z. absurd (ground (arith, a.owned z));
  };
  entered = λ z. absurd (ground arith);
  stays_out = λ _. λ _. refl;
  foreign = λ j apart z. z;
  free = f;
}

abbrev pub at_pc : Pc → ℕ → ℕ → Thread
at_pc pc levels unlocked = record { pc = pc; levels = levels; unlocked = unlocked }
