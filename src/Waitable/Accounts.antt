-- ===== src/Waitable/Accounts.antt =====
-- One step of a thread keeps the books between the word of the object and the threads.
use mathlib.Core.Logic.{if_pos, if_neg}
use mcfgthread.Base.{
  ℕ, zero, suc, ◌+◌, ◌≤◌, ◌<◌, ◌≡◌, refl, sym, inl, inr, Option, none, some, Bool, true, false, ℤ,
  arith, Bool-cases,
}
use mcfgthread.Timeout.{is_zero}
use mcfgthread.Timeout.Bounds.{check_wait_safety-running}
use mcfgthread.Waitable.Machine.{
  Attempt, done, swap, hop, skip, sleep, Reply, refuse, wake, Ops, Frame, Pc, rest, at, tried,
  checking, waiting, expired, leaving, woken, signalling, committing, releasing, terminated, Env,
  cmpxchg, try_attempt, try_leave, try_commit, exchange, resume, load, release, advance,
}
use mcfgthread.Waitable.Ledger.{
  Reading, AttemptIsSound, LeaveIsSound, ReplyIsSound, Laws, waits, pending, of_role, IsLegal,
}

module _ {W L R C S : Type 0} (o : Ops W L R C S) (v : Reading W R) {may : R → S → Bool}
    (laws : Laws o v may) where
  -- From the word `word` and the place `p` a step leads to the word and the place in the pair.
  pub record Balanced (word : W) (p : Pc W L R C S) (t : W × Pc W L R C S) : Type 0 where
    pub good : v.Good t.0
    pub counted :
        v.sleepers t.0 + pending o v t.1 + waits o v p
        ≡ v.sleepers word + pending o v p + waits o v t.1
    pub shared :
        of_role o v v.shares p + v.shared_by t.0 ≡ of_role o v v.shares t.1 + v.shared_by word
    pub owned : of_role o v v.owns p + v.owned_by t.0 ≡ of_role o v v.owns t.1 + v.owned_by word
    pub legal : IsLegal o v may t.1

  -- A step that leaves the word and the standing of the thread alone.
  unchanged :
      (word : W) (p q : Pc W L R C S)
      → v.Good word
      → waits o v p ≡ waits o v q
      → pending o v p ≡ pending o v q
      → of_role o v v.shares p ≡ of_role o v v.shares q
      → of_role o v v.owns p ≡ of_role o v v.owns q
      → IsLegal o v may q
      → Balanced word p (word, q)
  unchanged word p q g a b c d l = record {
    good = g;
    counted = omega arith;
    shared = omega arith;
    owned = omega arith;
    legal = l;
  }

  cmpxchg-Balanced :
      (e : Env) (word old new : W) (won : Pc W L R C S) (lost : W → Pc W L R C S) (p : Pc W L R C S)
      → (word ≡ old → Balanced old p (new, won))
      → Balanced word p (word, lost word)
      → Balanced word p (cmpxchg o e word old new won lost)
  unfolding cmpxchg
  cmpxchg-Balanced e word old new won lost p h k = elim (Bool-cases e.spurious) [
    | inl s ↦ rw s k
    | inr s ↦ elim (o.word_discrete word old) [
      | yes same ↦ rw (s, if_pos _ same) (rw same (h same))
      | no differ ↦ rw (s, if_neg _ differ) k
    ]
  ]

  attempt-Balanced :
      (e : Env) (word : W) (f : Frame R C) (l : L) (old : W) (a : Attempt W L)
      → v.Good word
      → o.attempt f.call l (is_zero f.to) old ≡ a
      → (word ≡ old → AttemptIsSound o v f.call f.role old a)
      → Balanced word (tried f l old) (try_attempt o e word f l old a)
  unfolding try_attempt
  attempt-Balanced e word f l old (done x) g q h =
      let k = laws.done_keeps_role f.call l _ f.role old x q in
      unchanged word _ _ g refl refl (sym k.0) (sym k.1) tt
  attempt-Balanced e word f l old (swap new x) g q h =
      cmpxchg-Balanced e word old new (rest (o.role_after f.call x f.role) x) (tried f l) _
        (λ same.
          let k = h same in
          record {
            good = k.0;
            counted = omega arith;
            shared = omega arith;
            owned = omega arith;
            legal = tt;
          })
        (unchanged word _ _ g refl refl refl refl tt)
  attempt-Balanced e word f l old (hop new l') g q h =
      cmpxchg-Balanced e word old new (at f l') (tried f l) _
        (λ same.
          let k = h same in
          record {
            good = k.0;
            counted = omega arith;
            shared = omega arith;
            owned = omega arith;
            legal = tt;
          })
        (unchanged word _ _ g refl refl refl refl tt)
  attempt-Balanced e word f l old (skip l') g q h = unchanged word _ _ g refl refl refl refl tt
  attempt-Balanced e word f l old (sleep new) g q h =
      cmpxchg-Balanced e word old new (checking f) (tried f l) _
        (λ same.
          let k = h same in
          record {
            good = k.0;
            counted = omega arith;
            shared = omega arith;
            owned = omega arith;
            legal = tt;
          })
        (unchanged word _ _ g refl refl refl refl tt)

  leave-Balanced :
      (e : Env) (word : W) (f : Frame R C) (old : W) (a : Option (W × ℤ))
      → v.Good word
      → (word ≡ old → LeaveIsSound o v f.call f.role old a)
      → Balanced word (leaving f old) (try_leave o e word f old a)
  unfolding try_leave
  leave-Balanced e word f old none g h = unchanged word _ _ g refl refl refl refl tt
  leave-Balanced e word f old (some (new, x)) g h =
      cmpxchg-Balanced e word old new (rest (o.role_after f.call x f.role) x) (leaving f) _
        (λ same.
          let k = h same in
          record {
            good = k.0;
            counted = omega arith;
            shared = omega arith;
            owned = omega arith;
            legal = tt;
          })
        (unchanged word _ _ g refl refl refl refl tt)

  commit-Balanced :
      (e : Env) (word : W) (s : S) (r : R) (old : W) (a : Reply W R)
      → v.Good word
      → may r s ≡ true
      → (word ≡ old → ReplyIsSound o v r old a)
      → Balanced word (committing s r old) (try_commit o e word s r old a)
  unfolding try_commit
  commit-Balanced e word s r old (refuse x) g m h = unchanged word _ _ g refl refl refl refl tt
  commit-Balanced e word s r old (wake new k x r') g m h =
      cmpxchg-Balanced e word old new (releasing k r' x) (committing s r) _
        (λ same.
          let b = h same in
          record {
            good = b.0;
            counted = omega arith;
            shared = omega arith;
            owned = omega arith;
            legal = tt;
          })
        (unchanged word _ _ g refl refl refl refl m)

  exchange-Balanced :
      (word : W) (s : S) (r : R) (a : Reply W R)
      → v.Good word
      → ReplyIsSound o v r word a
      → Balanced word (signalling s r) (exchange o word r a)
  unfolding exchange
  exchange-Balanced word s r (refuse x) g h = unchanged word _ _ g refl refl refl refl tt
  exchange-Balanced word s r (wake new k x r') g h = record {
    good = h.0;
    counted = omega arith;
    shared = omega arith;
    owned = omega arith;
    legal = tt;
  }

  resume-Balanced :
      (e : Env) (word : W) (f : Frame R C)
      → v.Good word
      → Balanced word (woken f) (word, resume o e f)
  unfolding resume
  resume-Balanced e word f g = elim (Bool-cases o.restarts) [
    | inl again ↦ rw again (unchanged word _ _ g refl refl refl refl tt)
    | inr ends ↦
        let k = laws.resume_keeps_role f.call f.role ends in
        rw ends (unchanged word _ _ g refl refl (sym k.0) (sym k.1) tt)
  ]

  load-Balanced :
      (word : W) (f : Frame R C) (l : L) (a : Option L)
      → v.Good word
      → Balanced word (at f l) (word, load o word f l a)
  unfolding load
  load-Balanced word f l none g = unchanged word _ _ g refl refl refl refl tt
  load-Balanced word f l (some l') g = unchanged word _ _ g refl refl refl refl tt

  release-Balanced :
      (e : Env) (word : W) (k : ℕ) (r : R) (x : ℤ)
      → e.shutdown ≡ false
      → v.Good word
      → Balanced word (releasing k r x) (word, release o e k r x)
  unfolding release
  release-Balanced e word zero r x d g = unchanged word _ _ g refl refl refl refl tt
  release-Balanced e word (suc k) r x d g = elim (Bool-cases e.timed_out) [
    | inl late ↦ rw (late, d) (unchanged word _ _ g refl refl refl refl tt)
    | inr in_time ↦ rw in_time (unchanged word _ _ g refl refl refl refl tt)
  ]

  -- The books balance after any step of a thread, while the process is not shutting down.
  pub advance-Balanced :
      (e : Env) (word : W) (p : Pc W L R C S)
      → e.shutdown ≡ false
      → v.Good word
      → IsLegal o v may p
      → of_role o v v.shares p ≤ v.shared_by word
      → of_role o v v.owns p ≤ v.owned_by word
      → (waits o v p ≡ 0 → v.sleepers word < v.limit)
      → Balanced word p (advance o e word p)
  unfolding advance
  advance-Balanced e word (rest r x) d g m a b few = unchanged word _ _ g refl refl refl refl tt
  advance-Balanced e word (at f l) d g m a b few = load-Balanced word f l _ g
  advance-Balanced e word (tried f l old) d g m a b few =
      attempt-Balanced e word f l old _ g refl
        λ same. rw same at (laws.attempt_is_sound f.call l (is_zero f.to) f.role word g (few refl))
  advance-Balanced e word (checking f) d g m a b few =
      rw (d, check_wait_safety-running f.to e.utc) (unchanged word _ _ g refl refl refl refl tt)
  advance-Balanced e word (waiting f) d g m a b few = elim (Bool-cases e.timed_out) [
    | inl late ↦ rw late (unchanged word _ _ g refl refl refl refl tt)
    | inr in_time ↦ rw in_time (unchanged word _ _ g refl refl refl refl tt)
  ]
  advance-Balanced e word (expired f) d g m a b few = unchanged word _ _ g refl refl refl refl tt
  advance-Balanced e word (leaving f old) d g m a b few =
      leave-Balanced e word f old _ g
        (λ same. rw same at (laws.leave_is_sound f.call f.role word g))
  advance-Balanced e word (woken f) d g m a b few = resume-Balanced e word f g
  advance-Balanced e word (signalling s r) d g m a b few = elim (Bool-cases (o.exchanges s)) [
    | inl at_once ↦
        rw at_once (exchange-Balanced word s r _ g (laws.signal_is_sound s r word g m (a, b)))
    | inr loaded ↦ rw loaded (unchanged word _ _ g refl refl refl refl m)
  ]
  advance-Balanced e word (committing s r old) d g m a b few =
      commit-Balanced e word s r old _ g m
        (λ same. rw same at (laws.signal_is_sound s r word g m (a, b)))
  advance-Balanced e word (releasing k r x) d g m a b few = release-Balanced e word k r x d g
  advance-Balanced e word terminated d g m a b few = elim m [ ]
