-- ===== src/Waitable/Ledger.antt =====
-- What the word of an object says of the threads that use it, and the laws that the object's
-- operations satisfy: the interface between the shared protocol and the six objects.
use mcfgthread.Base.{ℕ, suc, ◌+◌, ◌≤◌, ◌<◌, ◌≡◌, Option, none, some, Bool, true, false, ℤ}
use mcfgthread.Waitable.Machine.{
  Attempt, done, swap, hop, skip, sleep, Reply, refuse, wake, Ops, Pc, rest, at, tried, checking,
  waiting, expired, leaving, woken, signalling, committing, releasing, terminated,
}

-- `sleepers` is the count of sleeping threads in the word, `limit` the largest that its field
-- holds; `shared_by` and `owned_by` say how many shared and exclusive holds the word records.
pub record Reading (W R : Type 0) : Type 1 where
  pub Good : W → Type 0
  pub sleepers : W → ℕ
  pub limit : ℕ
  pub shared_by : W → ℕ
  pub owned_by : W → ℕ
  pub shares : R → ℕ
  pub owns : R → ℕ

module _ {W L R C S : Type 0} (o : Ops W L R C S) (v : Reading W R) where
  -- The word moves from `old` to `new` while the role of the thread goes from `r` to `r'`.
  abbrev pub Settles : W → W → R → R → Type 0
  Settles old new r r' =
      (v.shares r + v.shared_by new ≡ v.shares r' + v.shared_by old)
      × (v.owns r + v.owned_by new ≡ v.owns r' + v.owned_by old)

  abbrev pub Held : W → R → Type 0
  Held word r = (v.shares r ≤ v.shared_by word) × (v.owns r ≤ v.owned_by word)

  abbrev pub AttemptIsSound : C → R → W → Attempt W L → Type 0
  AttemptIsSound c r old (done x) = Unit
  AttemptIsSound c r old (swap new x) =
      v.Good new × (v.sleepers new ≡ v.sleepers old) × Settles old new r (o.role_after c x r)
  AttemptIsSound c r old (hop new l) =
      v.Good new × (v.sleepers new ≡ v.sleepers old) × Settles old new r r
  AttemptIsSound c r old (skip l) = Unit
  AttemptIsSound c r old (sleep new) =
      v.Good new × (v.sleepers new ≡ suc (v.sleepers old)) × Settles old new r r

  abbrev pub LeaveIsSound : C → R → W → Option (W × ℤ) → Type 0
  LeaveIsSound c r old none = Unit
  LeaveIsSound c r old (some (new, x)) =
      v.Good new × (suc (v.sleepers new) ≡ v.sleepers old) × Settles old new r (o.role_after c x r)

  -- Every count that leaves the word is a thread that is released.
  abbrev pub ReplyIsSound : R → W → Reply W R → Type 0
  ReplyIsSound r old (refuse x) = Unit
  ReplyIsSound r old (wake new k x r') =
      v.Good new × (v.sleepers new + k ≡ v.sleepers old) × Settles old new r r'

  pub record Laws (MaySignal : R → S → Bool) : Type 0 where
    pub attempt_is_sound :
        (c : C) (l : L) (z : Bool) (r : R) (old : W)
        → v.Good old
        → v.sleepers old < v.limit
        → AttemptIsSound c r old (o.attempt c l z old)
    pub done_keeps_role :
        (c : C) (l : L) (z : Bool) (r : R) (old : W) (x : ℤ)
        → o.attempt c l z old ≡ done x
        → (v.shares (o.role_after c x r) ≡ v.shares r) × (v.owns (o.role_after c x r) ≡ v.owns r)
    pub leave_is_sound : (c : C) (r : R) (old : W) → v.Good old → LeaveIsSound c r old (o.leave old)
    pub resume_keeps_role :
        (c : C) (r : R)
        → o.restarts ≡ false
        → (v.shares (o.role_after c (ℤ.pos 0) r) ≡ v.shares r)
          × (v.owns (o.role_after c (ℤ.pos 0) r) ≡ v.owns r)
    pub signal_is_sound :
        (g : S) (r : R) (old : W)
        → v.Good old
        → MaySignal r g ≡ true
        → Held old r
        → ReplyIsSound r old (o.signal g r old)

  -- Whether the thread is counted as a sleeper, by the word or by a release that is due.
  abbrev pub waits : Pc W L R C S → ℕ
  waits (checking f) = 1
  waits (waiting f) = 1
  waits (expired f) = 1
  waits (leaving f old) = 1
  waits _ = 0

  -- The releases that are due from the thread.
  abbrev pub pending : Pc W L R C S → ℕ
  pending (releasing k r x) = k
  pending _ = 0

  -- The role in which the thread stands towards the object.
  abbrev pub of_role : (R → ℕ) → Pc W L R C S → ℕ
  of_role g (rest r x) = g r
  of_role g (at f l) = g f.role
  of_role g (tried f l old) = g f.role
  of_role g (checking f) = g f.role
  of_role g (waiting f) = g f.role
  of_role g (expired f) = g f.role
  of_role g (leaving f old) = g f.role
  of_role g (woken f) = g f.role
  of_role g (signalling s r) = g r
  of_role g (committing s r old) = g r
  of_role g (releasing k r x) = g r
  of_role g terminated = 0

  -- A thread that signals may do so.
  abbrev pub IsLegal : (R → S → Bool) → Pc W L R C S → Type 0
  IsLegal may (signalling g r) = may r g ≡ true
  IsLegal may (committing g r old) = may r g ≡ true
  IsLegal may terminated = ⊥
  IsLegal may _ = Unit
