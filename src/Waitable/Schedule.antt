-- ===== src/Waitable/Schedule.antt =====
-- Reachable states by evaluation: the threads act in a given order.
use mcfgthread.Base.{ℕ, suc, ◌<◌, ◌≡◌, refl, Option, Bool, true, false, ℤ, List, [], ◌∷◌, dec_lt}
use mcfgthread.Timeout.{start_timeout, is_zero, adjust_winnt_timeout, check_wait_safety}
use mcfgthread.Waitable.Machine.{Ops, Pc, rest, waiting, releasing, Env, advance}
use mcfgthread.Waitable.System.{System, run, enter, call_signal, handoff, Reach, start, later}

pub data Action (C S : Type 0) : Type 0 where
  steps : Env → Action C S
  waits_for : C → Option ℤ → Action C S
  signals : S → Action C S
  meets : ℕ → Action C S  -- the thread waits, and the other one releases

module _ {W L R C S : Type 0} (o : Ops W L R C S) (may : R → C → Bool) (may_signal : R → S → Bool)
    (n : ℕ) (word : W) (r : R) where
  pub record Run : Type 0 where
    pub last : System W L R C S
    pub reach : Reach o may may_signal n word r last

  allowed_wait :
      (z : Run) (i : ℕ) (c : C) (ms : Option ℤ) (r' : R) (x : ℤ)
      → i < n
      → z.last.pc i ≡ rest r' x
      → (b : Bool) → may r' c ≡ b
      → Run
  allowed_wait z i c ms r' x lt e true ok = record {
    last = _;
    reach = later z.reach (enter i r' x c ms 0 lt e ok);
  }
  allowed_wait z i c ms r' x lt e false bad = z

  begin_wait :
      (z : Run) (i : ℕ) (c : C) (ms : Option ℤ) (p : Pc W L R C S) → i < n → z.last.pc i ≡ p → Run
  unfolding allowed_wait
  begin_wait z i c ms (rest r' x) lt e = allowed_wait z i c ms r' x lt e (may r' c) refl
  begin_wait z i c ms _ lt e = z

  allowed_signal :
      (z : Run) (i : ℕ) (g : S) (r' : R) (x : ℤ)
      → i < n
      → z.last.pc i ≡ rest r' x
      → (b : Bool) → may_signal r' g ≡ b
      → Run
  allowed_signal z i g r' x lt e true ok = record {
    last = _;
    reach = later z.reach (call_signal i r' x g lt e ok);
  }
  allowed_signal z i g r' x lt e false bad = z

  begin_signal : (z : Run) (i : ℕ) (g : S) (p : Pc W L R C S) → i < n → z.last.pc i ≡ p → Run
  unfolding allowed_signal
  begin_signal z i g (rest r' x) lt e = allowed_signal z i g r' x lt e (may_signal r' g) refl
  begin_signal z i g _ lt e = z

  pair :
      (z : Run) (i j : ℕ) (p q : Pc W L R C S)
      → i < n
      → j < n
      → z.last.pc i ≡ p
      → z.last.pc j ≡ q
      → Run
  pair z i j (waiting f) (releasing (suc k) r x) i_lt j_lt a b = record {
    last = _;
    reach = later z.reach (handoff i j f k r x i_lt j_lt a b);
  }
  pair z i j _ _ i_lt j_lt a b = z

  step : (z : Run) (i : ℕ) (e : Env) → i < n → (b : Bool) → e.shutdown ≡ b → Run
  step z i e lt false q = record { last = _; reach = later z.reach (run i e lt q) }
  step z i e lt true q = z

  act : Run → (i : ℕ) → Action C S → i < n → Run
  unfolding begin_wait begin_signal pair step dec_lt
  act z i (steps e) lt = step z i e lt e.shutdown refl
  act z i (waits_for c ms) lt = begin_wait z i c ms (z.last.pc i) lt refl
  act z i (signals g) lt = begin_signal z i g (z.last.pc i) lt refl
  act z i (meets j) lt = elim (dec_lt j n) [
    | yes j_lt ↦ pair z i j (z.last.pc i) (z.last.pc j) lt j_lt refl refl
    | no _ ↦ z
  ]

  -- An action that cannot be taken is left out.
  play_from : Run → List (ℕ × Action C S) → Run
  unfolding act dec_lt
  play_from z [] = z
  play_from z ((i, a) ∷ others) =
      play_from (elim (dec_lt i n) [ yes lt ↦ act z i a lt | no _ ↦ z ]) others

  unfoldable pub play : List (ℕ × Action C S) → Run
  unfolding play_from advance is_zero start_timeout adjust_winnt_timeout check_wait_safety
  play actions = play_from (record { last = _; reach = start }) actions
