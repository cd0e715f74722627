-- ===== src/Waitable/Progress.antt =====
-- While an object is free and threads sleep on it, some thread is on its way to take it or to
-- release a sleeper.
use mathlib.Core.Logic.{if_pos, if_neg}
use mcfgthread.Base.{
  ℕ, zero, suc, ◌≤◌, ◌<◌, ◌≡◌, ◌≢◌, ◌⊎◌, inl, inr, refl, sym, ap, ◌∙◌, Bool, true, false, ℤ, arith,
  Option, none, some, if◌then◌else◌, Bool-cases,
}
use mcfgthread.Base.Family.{assign, weigh, weigh-assign, weigh-ge, weigh-assign_two}
use mcfgthread.Timeout.{is_zero}
use mcfgthread.Waitable.Machine.{
  Attempt, done, swap, hop, skip, sleep, Reply, refuse, wake, Ops, Frame, Pc, rest, at, tried,
  checking, waiting, expired, leaving, woken, signalling, committing, releasing, terminated, Env,
  cmpxchg, try_attempt, try_leave, try_commit, exchange, resume, load, release, advance,
}
use mcfgthread.Waitable.System.{System, Step, run, enter, call_signal, handoff}
use mcfgthread.Waitable.Ledger.{Reading}

module _ {W L R C S : Type 0} (o : Ops W L R C S) (v : Reading W R) (is_free : W → Bool) where
  abbrev pub AttemptTakes : W → Attempt W L → Type 0
  AttemptTakes old (done x) = is_free old ≡ false
  AttemptTakes old (swap new x) = is_free new ≡ false
  AttemptTakes old (hop new l) = is_free new ≡ false
  AttemptTakes old (skip l) = Unit
  AttemptTakes old (sleep new) = is_free new ≡ false

  abbrev pub LeaveKeeps : W → Option (W × ℤ) → Type 0
  LeaveKeeps old none = Unit
  LeaveKeeps old (some (new, x)) =
      (is_free new ≡ is_free old) × (0 < v.sleepers new → 0 < v.sleepers old)

  abbrev pub ReplyReleases : Reply W R → Type 0
  ReplyReleases (refuse x) = Unit
  ReplyReleases (wake new k x r') = is_free new ≡ true → 0 < v.sleepers new → 0 < k

  -- Whoever finds the object free takes it, nobody sleeps on a free object, and whoever frees it
  -- releases a sleeper if there is one.
  pub record Handover : Type 0 where
    pub restarts : o.restarts ≡ true
    pub attempt_takes :
        (c : C) (l : L) (z : Bool) (old : W) → AttemptTakes old (o.attempt c l z old)
    pub leave_keeps : (old : W) → v.Good old → LeaveKeeps old (o.leave old)
    pub reply_releases : (g : S) (r : R) (old : W) → v.Good old → ReplyReleases (o.signal g r old)

  -- The thread will look at the object again, or is about to take it, or owes a release.
  abbrev pub active : Pc W L R C S → ℕ
  active (at f l) = 1
  active (tried f l old) = if is_free old then 1 else 0
  active (woken f) = 1
  active (releasing (suc k) r x) = 1
  active _ = 0

  abbrev pub Owed : W → Type 0
  Owed word = (is_free word ≡ true) × (0 < v.sleepers word)

  -- If a wake-up is owed after the step, then the thread is active, or it was owed before and the
  -- thread was not.
  record Forward (word : W) (p : Pc W L R C S) (t : W × Pc W L R C S) : Type 0 where
    forward : Owed t.0 → (0 < active t.1) ⊎ ((active p ≡ 0) × Owed word)

  -- A step that leaves the word alone, of a thread that is not active.
  idle : (word : W) (p q : Pc W L R C S) → active p ≡ 0 → Forward word p (word, q)
  idle word p q e = record { forward = λ owed. inr (e, owed) }

  -- A step to a place where the thread is active.
  busy : (word new : W) (p q : Pc W L R C S) → 0 < active q → Forward word p (new, q)
  busy word new p q h = record { forward = λ owed. inl h }

  cmpxchg-Forward :
      (e : Env) (word old new : W) (won : Pc W L R C S) (lost : W → Pc W L R C S) (p : Pc W L R C S)
      → (word ≡ old → Forward old p (new, won))
      → Forward word p (word, lost word)
      → Forward word p (cmpxchg o e word old new won lost)
  unfolding cmpxchg
  cmpxchg-Forward e word old new won lost p h k = elim (Bool-cases e.spurious) [
    | inl s ↦ rw s k
    | inr s ↦ elim (o.word_discrete word old) [
      | yes same ↦ rw (s, if_pos _ same) (rw same (h same))
      | no differ ↦ rw (s, if_neg _ differ) k
    ]
  ]

  attempt-Forward :
      (e : Env) (word : W) (f : Frame R C) (l : L) (old : W) (a : Attempt W L)
      → AttemptTakes old a
      → Forward word (tried f l old) (try_attempt o e word f l old a)
  unfolding try_attempt
  attempt-Forward e word f l old (done x) h = record { forward = λ owed. ground arith }
  attempt-Forward e word f l old (swap new x) h =
      cmpxchg-Forward e word old new (rest (o.role_after f.call x f.role) x) (tried f l) _
        (λ same. record { forward = λ owed. cc }) (record { forward = λ owed. ground arith })
  attempt-Forward e word f l old (hop new l') h =
      cmpxchg-Forward e word old new (at f l') (tried f l) _
        (λ same. record { forward = λ owed. cc }) (record { forward = λ owed. ground arith })
  attempt-Forward e word f l old (skip l') h = busy _ _ _ _ (omega arith)
  attempt-Forward e word f l old (sleep new) h =
      cmpxchg-Forward e word old new (checking f) (tried f l) _
        (λ same. record { forward = λ owed. cc }) (record { forward = λ owed. ground arith })

  leave-Forward :
      (e : Env) (word : W) (f : Frame R C) (old : W) (a : Option (W × ℤ))
      → (word ≡ old → LeaveKeeps old a)
      → Forward word (leaving f old) (try_leave o e word f old a)
  unfolding try_leave
  leave-Forward e word f old none h = idle _ _ _ refl
  leave-Forward e word f old (some (new, x)) h =
      cmpxchg-Forward e word old new (rest (o.role_after f.call x f.role) x) (leaving f) _
        (λ same.
          let k = h same in record { forward = λ owed. inr (refl, (sym k.0 ∙ owed.0, k.1 owed.1)) })
        (idle _ _ _ refl)

  commit-Forward :
      (e : Env) (word : W) (s : S) (r : R) (old : W) (a : Reply W R)
      → (word ≡ old → ReplyReleases a)
      → Forward word (committing s r old) (try_commit o e word s r old a)
  unfolding try_commit
  commit-Forward e word s r old (refuse x) h = idle _ _ _ refl
  commit-Forward e word s r old (wake new zero x r') h =
      cmpxchg-Forward e word old new (releasing zero r' x) (committing s r) _
        (λ same. record { forward = λ owed. absurd (omega (arith, h same owed.0 owed.1)) })
        (idle _ _ _ refl)
  commit-Forward e word s r old (wake new (suc k) x r') h =
      cmpxchg-Forward e word old new (releasing (suc k) r' x) (committing s r) _
        (λ same. busy _ _ _ _ (omega arith)) (idle _ _ _ refl)

  exchange-Forward :
      (word : W) (s : S) (r : R) (a : Reply W R)
      → ReplyReleases a
      → Forward word (signalling s r) (exchange o word r a)
  unfolding exchange
  exchange-Forward word s r (refuse x) h = idle _ _ _ refl
  exchange-Forward word s r (wake new zero x r') h = record {
    forward = λ owed. absurd (omega (arith, h owed.0 owed.1));
  }
  exchange-Forward word s r (wake new (suc k) x r') h = busy _ _ _ _ (omega arith)

  load-Forward :
      (word : W) (f : Frame R C) (l : L) (a : Option L)
      → Forward word (at f l) (word, load o word f l a)
  unfolding load
  load-Forward word f l none = record { forward = λ owed. ground arith }
  load-Forward word f l (some l') = busy _ _ _ _ (omega arith)

  release-Forward :
      (e : Env) (word : W) (k : ℕ) (r : R) (x : ℤ)
      → e.shutdown ≡ false
      → Forward word (releasing k r x) (word, release o e k r x)
  unfolding release
  release-Forward e word zero r x d = idle _ _ _ refl
  release-Forward e word (suc k) r x d = elim (Bool-cases e.timed_out) [
    | inl late ↦ rw (late, d) (busy _ _ _ _ (omega arith))
    | inr in_time ↦ rw in_time (busy _ _ _ _ (omega arith))
  ]

  advance-Forward :
      (e : Env) (word : W) (p : Pc W L R C S)
      → Handover
      → e.shutdown ≡ false
      → v.Good word
      → Forward word p (advance o e word p)
  unfolding advance resume
  advance-Forward e word (rest r x) k d g = idle _ _ _ refl
  advance-Forward e word (at f l) k d g = load-Forward word f l _
  advance-Forward e word (tried f l old) k d g =
      attempt-Forward e word f l old _ (k.attempt_takes f.call l (is_zero f.to) old)
  advance-Forward e word (checking f) k d g = idle _ _ _ refl
  advance-Forward e word (waiting f) k d g = idle _ _ _ refl
  advance-Forward e word (expired f) k d g = idle _ _ _ refl
  advance-Forward e word (leaving f old) k d g =
      leave-Forward e word f old _ (λ same. rw same at (k.leave_keeps word g))
  advance-Forward e word (woken f) k d g = simp (k.restarts) (busy _ _ _ _ (omega arith))
  advance-Forward e word (signalling s r) k d g = elim (Bool-cases (o.exchanges s)) [
    | inl at_once ↦ rw at_once (exchange-Forward word s r _ (k.reply_releases s r word g))
    | inr loaded ↦ rw loaded (idle _ _ _ refl)
  ]
  advance-Forward e word (committing s r old) k d g =
      commit-Forward e word s r old _ (λ same. rw same at (k.reply_releases s r word g))
  advance-Forward e word (releasing n r x) k d g = release-Forward e word n r x d
  advance-Forward e word terminated k d g = idle _ _ _ refl

  -- A wake-up that is owed is on its way.
  abbrev pub Delivers : ℕ → System W L R C S → Type 0
  Delivers n s = Owed s.word → 0 < weigh active n s.pc

  still_active :
      (n i : ℕ) (p : Pc W L R C S) (pc : ℕ → Pc W L R C S)
      → i < n
      → active (pc i) ≤ active p
      → 0 < weigh active n pc
      → 0 < weigh active n (assign i p pc)
  still_active n i p pc lt h a = omega (arith, weigh-assign active pc n i p lt)

  now_active :
      (n i : ℕ) (p : Pc W L R C S) (pc : ℕ → Pc W L R C S)
      → i < n
      → 0 < active p
      → 0 < weigh active n (assign i p pc)
  now_active n i p pc lt h =
      omega (arith, weigh-assign active pc n i p lt, weigh-ge active pc n i lt)

  pub Step-Delivers :
      {n : ℕ} {may : R → C → Bool} {may_signal : R → S → Bool} {s t : System W L R C S}
      → Handover
      → Step o may may_signal n s t
      → v.Good s.word
      → Delivers n s
      → Delivers n t
  Step-Delivers {n} {s} k (run i e lt d) g h owed =
      let p = (advance o e s.word (s.pc i)).1 in
      elim ((advance-Forward e s.word (s.pc i) k d g).forward owed) [
        | inl now ↦ now_active n i p s.pc lt now
        | inr (idle_before, owed_before) ↦ still_active n i p s.pc lt (omega arith) (h owed_before)
      ]
  Step-Delivers {n} {s} k (enter i r x c ms now lt q m) g h owed =
      now_active n i _ s.pc lt (omega arith)
  Step-Delivers {n} {s} k (call_signal i r x c lt q m) g h owed =
      still_active n i _ s.pc lt (rw q (omega arith)) (h owed)
  Step-Delivers {n} {s} k (handoff i j f m r x i_lt j_lt qi qj) g h owed =
      let apart : i ≢ j = λ e. cc (sym qi ∙ ap s.pc e ∙ qj) in
      omega (
        arith,
        weigh-assign_two active s.pc n i j (woken f) (releasing m r x) i_lt j_lt apart,
        weigh-ge active s.pc n j j_lt,
        ap active qi,
        ap active qj,
      )
