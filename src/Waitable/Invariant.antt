-- ===== src/Waitable/Invariant.antt =====
-- What holds of an object and of all its threads together, in every state that they reach.
use mathlib.Core.Logic.{if_pos, if_neg}
use mcfgthread.Base.{
  ℕ, suc, ◌+◌, ◌≤◌, ◌<◌, ◌≡◌, ◌≢◌, refl, sym, ap, ◌∙◌, Bool, false, ℤ, arith, ℕ_discrete,
}
use mcfgthread.Base.Family.{
  assign, weigh, weigh-assign, weigh-ge, weigh-lt, weigh-eq_zero, weigh-assign_two,
}
use mcfgthread.Timeout.{start_timeout}
use mcfgthread.Waitable.Machine.{
  Ops, Frame, Pc, rest, at, checking, waiting, woken, signalling, releasing, Env, advance,
}
use mcfgthread.Waitable.System.{System, Step, run, enter, call_signal, handoff, Reach, start, later}
use mcfgthread.Waitable.Ledger.{Reading, Laws, waits, pending, of_role, IsLegal}
use mcfgthread.Waitable.Accounts.{Balanced, advance-Balanced}

module _ {W L R C S : Type 0} (o : Ops W L R C S) (v : Reading W R) (may_signal : R → S → Bool)
    (n : ℕ) where
  -- The word counts the sleeping threads less those for whom a release is due, and it records the
  -- holds of all threads.
  pub record Inv (s : System W L R C S) : Type 0 where
    pub good : v.Good s.word
    pub counted : weigh (waits o v) n s.pc ≡ v.sleepers s.word + weigh (pending o v) n s.pc
    pub shared : weigh (of_role o v v.shares) n s.pc ≡ v.shared_by s.word
    pub owned : weigh (of_role o v v.owns) n s.pc ≡ v.owned_by s.word
    pub legal : (i : ℕ) → IsLegal o v may_signal (s.pc i)

  waits-le : (p : Pc W L R C S) → waits o v p ≤ 1
  waits-le (checking f) = omega arith
  waits-le _ = omega arith

  assign-IsLegal :
      (i : ℕ) (p : Pc W L R C S) (pc : ℕ → Pc W L R C S)
      → IsLegal o v may_signal p
      → ((j : ℕ) → IsLegal o v may_signal (pc j))
      → (j : ℕ) → IsLegal o v may_signal (assign i p pc j)
  assign-IsLegal i p pc h k j = elim (ℕ_discrete j i) [
    | yes here ↦ rw (if_pos _ here) h
    | no other ↦ rw (if_neg _ other) (k j)
  ]

  -- A thread that goes to another place leaves the word alone.
  moved :
      (s : System W L R C S) (i : ℕ) (p : Pc W L R C S)
      → i < n
      → Inv s
      → waits o v p ≡ waits o v (s.pc i)
      → pending o v p ≡ pending o v (s.pc i)
      → of_role o v v.shares p ≡ of_role o v v.shares (s.pc i)
      → of_role o v v.owns p ≡ of_role o v v.owns (s.pc i)
      → IsLegal o v may_signal p
      → Inv (record s { pc = assign i p s.pc })
  moved s i p lt inv a b c d l = record {
    good = inv.good;
    counted = omega (
      arith,
      inv.counted,
      weigh-assign (waits o v) s.pc n i p lt,
      weigh-assign (pending o v) s.pc n i p lt,
    );
    shared = omega (arith, inv.shared, weigh-assign (of_role o v v.shares) s.pc n i p lt);
    owned = omega (arith, inv.owned, weigh-assign (of_role o v v.owns) s.pc n i p lt);
    legal = assign-IsLegal i p s.pc l inv.legal;
  }

  waiting-ne-releasing :
      (f : Frame R C) (k : ℕ) (r : R) (x : ℤ)
      → ◌≢◌ {A = Pc W L R C S} (waiting f) (releasing (suc k) r x)
  waiting-ne-releasing f k r x e = cc

  module _ (laws : Laws o v may_signal) (enough : n ≤ v.limit) where
    balanced :
        (s : System W L R C S) (i : ℕ) (e : Env)
        → i < n
        → e.shutdown ≡ false
        → Inv s
        → Balanced o v laws s.word (s.pc i) (advance o e s.word (s.pc i))
    balanced s i e lt d inv =
        advance-Balanced o v laws e s.word (s.pc i) d inv.good (inv.legal i)
          (omega (arith, inv.shared, weigh-ge (of_role o v v.shares) s.pc n i lt))
          (omega (arith, inv.owned, weigh-ge (of_role o v v.owns) s.pc n i lt))
          (λ awake. omega (arith, inv.counted, weigh-lt (waits o v) s.pc waits-le n i lt awake))

    -- Every step of the system keeps the invariant.
    pub Step-Inv :
        {may : R → C → Bool} {s t : System W L R C S} → Step o may may_signal n s t → Inv s → Inv t
    Step-Inv {s} (run i e lt d) inv =
        let b = balanced s i e lt d inv in
        let p = (advance o e s.word (s.pc i)).1 in
        record {
          good = b.good;
          counted = omega (
            arith,
            inv.counted,
            b.counted,
            weigh-assign (waits o v) s.pc n i p lt,
            weigh-assign (pending o v) s.pc n i p lt,
          );
          shared =
              omega
                (arith, inv.shared, b.shared, weigh-assign (of_role o v v.shares) s.pc n i p lt);
          owned =
              omega (arith, inv.owned, b.owned, weigh-assign (of_role o v v.owns) s.pc n i p lt);
          legal = assign-IsLegal i p s.pc b.legal inv.legal;
        }
    Step-Inv {s} (enter i r x c ms now lt q m) inv =
        moved s i (at (record { call = c; role = r; to = start_timeout ms now }) o.first) lt inv
          (rw q) (rw q) (rw q) (rw q) tt
    Step-Inv {s} (call_signal i r x g lt q m) inv =
        moved s i (signalling g r) lt inv (rw q) (rw q) (rw q) (rw q) m
    Step-Inv {s} (handoff i j f k r x i_lt j_lt qi qj) inv =
        let apart : i ≢ j = λ e. waiting-ne-releasing f k r x (sym qi ∙ ap s.pc e ∙ qj) in
        let two : (w : Pc W L R C S → ℕ)
            → w (waiting f)
                + w (releasing (suc k) r x)
                + weigh w n (assign j (releasing k r x) (assign i (woken f) s.pc))
              ≡ w (woken f) + w (releasing k r x) + weigh w n s.pc =
          λ w. rw (← qi, ← qj) (weigh-assign_two w s.pc n i j _ _ i_lt j_lt apart) in
        record {
          good = inv.good;
          counted = omega (arith, inv.counted, two (waits o v), two (pending o v));
          shared = omega (arith, inv.shared, two (of_role o v v.shares));
          owned = omega (arith, inv.owned, two (of_role o v v.owns));
          legal = assign-IsLegal j _ _ tt (assign-IsLegal i _ _ tt inv.legal);
        }

    -- In every state that threads with no hold reach from a word with no sleeper and no hold.
    pub Reach-Inv :
        {may : R → C → Bool} {word : W} {r : R} {s : System W L R C S}
        → Reach o may may_signal n word r s
        → v.Good word
        → v.sleepers word ≡ 0
        → v.shared_by word ≡ 0
        → v.owned_by word ≡ 0
        → v.shares r ≡ 0
        → v.owns r ≡ 0
        → Inv s
    Reach-Inv {r} start g a b c d e = record {
      good = g;
      counted = omega (
        arith,
        weigh-eq_zero (waits o v) (λ _. rest r (ℤ.pos 0)) n (λ i. refl),
        weigh-eq_zero (pending o v) (λ _. rest r (ℤ.pos 0)) n (λ i. refl),
      );
      shared =
          omega (arith, weigh-eq_zero (of_role o v v.shares) (λ _. rest r (ℤ.pos 0)) n (λ i. d));
      owned = omega (arith, weigh-eq_zero (of_role o v v.owns) (λ _. rest r (ℤ.pos 0)) n (λ i. e));
      legal = λ i. tt;
    }
    Reach-Inv (later h st) g a b c d e = Step-Inv st (Reach-Inv h g a b c d e)
