-- ===== src/Waitable/Stable.antt =====
-- Statements about the word of an object that stay true once they are true.
use mathlib.Core.Logic.{if_pos, if_neg}
use mcfgthread.Base.{ℕ, ◌≤◌, ◌≡◌, inl, inr, Bool, true, ℤ, arith, Option, none, some, Bool-cases}
use mcfgthread.Base.Family.{weigh-ge}
use mcfgthread.Timeout.{is_zero}
use mcfgthread.Waitable.Machine.{
  Attempt, done, swap, hop, skip, sleep, Reply, refuse, wake, Ops, Frame, Pc, rest, at, tried,
  checking, leaving, signalling, committing, releasing, Env, cmpxchg, try_attempt, try_leave,
  try_commit, exchange, advance,
}
use mcfgthread.Waitable.System.{System, Step, run, enter, call_signal, handoff}
use mcfgthread.Waitable.Ledger.{Reading, of_role, IsLegal, Held}
use mcfgthread.Waitable.Invariant.{Inv}

module _ {W L R C S : Type 0} (o : Ops W L R C S) (v : Reading W R) (may : R → S → Bool)
    (P : W → Type 0) where
  abbrev pub AttemptKeeps : Attempt W L → Type 0
  AttemptKeeps (swap new x) = P new
  AttemptKeeps (hop new l) = P new
  AttemptKeeps (sleep new) = P new
  AttemptKeeps _ = Unit

  abbrev pub LeaveKeeps : Option (W × ℤ) → Type 0
  LeaveKeeps none = Unit
  LeaveKeeps (some (new, x)) = P new

  abbrev pub ReplyKeeps : Reply W R → Type 0
  ReplyKeeps (refuse x) = Unit
  ReplyKeeps (wake new k x r) = P new

  pub record Keeps : Type 0 where
    pub attempt_keeps :
        (c : C) (l : L) (z : Bool) (old : W)
        → v.Good old
        → P old
        → AttemptKeeps (o.attempt c l z old)
    pub leave_keeps : (old : W) → v.Good old → P old → LeaveKeeps (o.leave old)
    pub reply_keeps :
        (g : S) (r : R) (old : W)
        → v.Good old
        → may r g ≡ true
        → Held o v old r
        → P old
        → ReplyKeeps (o.signal g r old)

  record Stays (t : W × Pc W L R C S) : Type 0 where
    stays : P t.0

  cmpxchg-P :
      (e : Env) (word old new : W) (won : Pc W L R C S) (lost : W → Pc W L R C S)
      → (word ≡ old → P new)
      → P word
      → Stays (cmpxchg o e word old new won lost)
  unfolding cmpxchg
  cmpxchg-P e word old new won lost h k = elim (Bool-cases e.spurious) [
    | inl s ↦ rw s (record { stays = k })
    | inr s ↦ elim (o.word_discrete word old) [
      | yes same ↦ rw (s, if_pos _ same) (record { stays = h same })
      | no differ ↦ rw (s, if_neg _ differ) (record { stays = k })
    ]
  ]

  attempt-P :
      (e : Env) (word : W) (f : Frame R C) (l : L) (old : W) (a : Attempt W L)
      → P word
      → (word ≡ old → AttemptKeeps a)
      → Stays (try_attempt o e word f l old a)
  unfolding try_attempt
  attempt-P e word f l old (done x) p h = record { stays = p }
  attempt-P e word f l old (swap new x) p h =
      cmpxchg-P e word old new (rest (o.role_after f.call x f.role) x) (tried f l) h p
  attempt-P e word f l old (hop new l') p h = cmpxchg-P e word old new (at f l') (tried f l) h p
  attempt-P e word f l old (skip l') p h = record { stays = p }
  attempt-P e word f l old (sleep new) p h = cmpxchg-P e word old new (checking f) (tried f l) h p

  leave-P :
      (e : Env) (word : W) (f : Frame R C) (old : W) (a : Option (W × ℤ))
      → P word
      → (word ≡ old → LeaveKeeps a)
      → Stays (try_leave o e word f old a)
  unfolding try_leave
  leave-P e word f old none p h = record { stays = p }
  leave-P e word f old (some (new, x)) p h =
      cmpxchg-P e word old new (rest (o.role_after f.call x f.role) x) (leaving f) h p

  commit-P :
      (e : Env) (word : W) (s : S) (r : R) (old : W) (a : Reply W R)
      → P word
      → (word ≡ old → ReplyKeeps a)
      → Stays (try_commit o e word s r old a)
  unfolding try_commit
  commit-P e word s r old (refuse x) p h = record { stays = p }
  commit-P e word s r old (wake new k x r') p h =
      cmpxchg-P e word old new (releasing k r' x) (committing s r) h p

  exchange-P :
      (word : W) (r : R) (a : Reply W R) → P word → ReplyKeeps a → Stays (exchange o word r a)
  unfolding exchange
  exchange-P word r (refuse x) p h = record { stays = p }
  exchange-P word r (wake new k x r') p h = record { stays = h }

  advance-P :
      (e : Env) (word : W) (q : Pc W L R C S)
      → Keeps
      → v.Good word
      → IsLegal o v may q
      → of_role o v v.shares q ≤ v.shared_by word
      → of_role o v v.owns q ≤ v.owned_by word
      → P word
      → Stays (advance o e word q)
  unfolding advance
  advance-P e word (tried f l old) k g m a b p =
      attempt-P e word f l old _ p
        (λ same. rw same at (k.attempt_keeps f.call l (is_zero f.to) word g p))
  advance-P e word (leaving f old) k g m a b p =
      leave-P e word f old _ p (λ same. rw same at (k.leave_keeps word g p))
  advance-P e word (signalling s r) k g m a b p = elim (Bool-cases (o.exchanges s)) [
    | inl at_once ↦ rw at_once (exchange-P word r _ p (k.reply_keeps s r word g m (a, b) p))
    | inr loaded ↦ rw loaded (record { stays = p })
  ]
  advance-P e word (committing s r old) k g m a b p =
      commit-P e word s r old _ p (λ same. rw same at (k.reply_keeps s r word g m (a, b) p))
  advance-P e word _ k g m a b p = record { stays = p }

  pub Step-P :
      {n : ℕ} {can : R → C → Bool} {s t : System W L R C S}
      → Keeps
      → Step o can may n s t
      → Inv o v may n s
      → P s.word
      → P t.word
  Step-P {n} {s} k (run i e lt d) inv p =
      (advance-P e s.word (s.pc i) k inv.good (inv.legal i)
        (omega (arith, inv.shared, weigh-ge (of_role o v v.shares) s.pc n i lt))
        (omega (arith, inv.owned, weigh-ge (of_role o v v.owns) s.pc n i lt)) p).stays
  Step-P k (enter i r x c ms now lt q m) inv p = p
  Step-P k (call_signal i r x g lt q m) inv p = p
  Step-P k (handoff i j f n r x i_lt j_lt qi qj) inv p = p
