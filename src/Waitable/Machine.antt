-- ===== src/Waitable/Machine.antt =====
-- The slow paths of `_MCF_mutex_lock_slow`, `_MCF_once_wait_slow`, `do_lock_common`,
-- `do_unlock_and_wait`, `_MCF_event_await_change_slow`, `_MCF_sem_wait` and of the functions that
-- signal them, one shared access at a time. What the objects do differently is a record `Ops`.
use mathlib.Core.Logic.{ite}
use mcfgthread.Base.{ℕ, zero, suc, Option, none, some, Bool, ◌&&◌, if◌then◌else◌, ℤ, pos}
use mcfgthread.Timeout.{WinntTimeout, is_zero, adjust_winnt_timeout, check_wait_safety}

-- What one pass of a waiting function's `for(;;)` does with the word that it has loaded.
pub data Attempt (W L : Type 0) : Type 0 where
  done : ℤ → Attempt W L  -- return without a write
  swap : W → ℤ → Attempt W L  -- compare-exchange, then return
  hop : W → L → Attempt W L  -- compare-exchange, then go on in another phase
  skip : L → Attempt W L  -- go on in another phase
  sleep : W → Attempt W L  -- compare-exchange, then wait for the keyed event

-- The word with which the pass returns, if it does so after a compare-exchange.
abbrev pub written : {W L : Type 0} → Attempt W L → Option W
written (swap new r) = some new
written _ = none

-- What one pass of a signalling function's `for(;;)` does with the word that it has loaded.
pub data Reply (W R : Type 0) : Type 0 where
  refuse : ℤ → Reply W R  -- return without a write
  wake : W → ℕ → ℤ → R → Reply W R  -- compare-exchange, release as many threads, then return

-- An object: `W` is its word, `L` the phases of its waiting function, `R` the role of a thread
-- towards it (an owner, a reader), `C` the calls that wait and `S` the calls that signal.
pub record Ops (W L R C S : Type 0) : Type 0 where
  pub word_discrete : Discrete W
  pub first : L
  -- A phase that does something else before it loads the word; `true` is a spin byte that was set.
  pub poll : Bool → L → Option L
  -- The `Bool` is `nt_timeout.li.QuadPart == 0`.
  pub attempt : C → L → Bool → W → Attempt W L
  -- The wait has timed out: the compare-exchange that gives the count back, and the result;
  -- `none` when the count is gone, and the thread waits again.
  pub leave : W → Option (W × ℤ)
  -- Whether the function goes to its start when it is notified, or returns 0.
  pub restarts : Bool
  -- The role of a thread after its call has returned the value.
  pub role_after : C → ℤ → R → R
  pub signal : S → R → W → Reply W R
  -- Whether the signalling function exchanges the word without a look at it.
  pub exchanges : S → Bool

pub record Frame (R C : Type 0) : Type 0 where
  pub call : C
  pub role : R
  pub to : WinntTimeout

-- Where a thread stands, with the local variables that are live there.
pub data Pc (W L R C S : Type 0) : Type 0 where
  rest : R → ℤ → Pc W L R C S  -- outside, with the result of its last call
  at : Frame R C → L → Pc W L R C S  -- before the load of the word
  tried : Frame R C → L → W → Pc W L R C S  -- before the compare-exchange
  checking : Frame R C → Pc W L R C S  -- the count is taken
  waiting : Frame R C → Pc W L R C S  -- in `NtWaitForKeyedEvent`
  expired : Frame R C → Pc W L R C S  -- `STATUS_TIMEOUT`
  leaving : Frame R C → W → Pc W L R C S  -- before the compare-exchange that gives the count back
  woken : Frame R C → Pc W L R C S  -- `STATUS_WAIT_0`
  signalling : S → R → Pc W L R C S  -- before the load of the word
  committing : S → R → W → Pc W L R C S  -- before the compare-exchange
  releasing : ℕ → R → ℤ → Pc W L R C S  -- in `__MCF_batch_release_common`
  terminated : Pc W L R C S  -- in `do_fail_fast`

-- What the system decides in one step of a thread.
pub record Env : Type 0 where
  pub spurious : Bool  -- a weak compare-exchange fails for no reason
  pub polled : Bool  -- the spin byte was set
  pub timed_out : Bool  -- a wait or a release ends with `STATUS_TIMEOUT`
  pub shutdown : Bool  -- `RtlDllShutdownInProgress()`
  pub now : ℕ  -- `__MCF_crt_QueryUnbiasedInterruptTimePrecise`
  pub utc : ℕ  -- `GetSystemTimeAsFileTime`

module _ {W L R C S : Type 0} (o : Ops W L R C S) where
  -- `_MCF_atomic_cmpxchg_weak_pptr`: on success the word is `new` and the thread goes to `won`;
  -- otherwise the thread has the current word for `old`.
  unfoldable pub cmpxchg : Env → W → W → W → Pc W L R C S → (W → Pc W L R C S) → W × Pc W L R C S
  cmpxchg e word old new won lost =
      if e.spurious
      then (word, lost word)
      else ite (o.word_discrete word old) (new, won) (word, lost word)

  unfoldable pub try_attempt : Env → W → Frame R C → L → W → Attempt W L → W × Pc W L R C S
  unfolding cmpxchg
  try_attempt e word f l old (done r) = (word, rest (o.role_after f.call r f.role) r)
  try_attempt e word f l old (swap new r) =
      cmpxchg e word old new (rest (o.role_after f.call r f.role) r) (tried f l)
  try_attempt e word f l old (hop new l') = cmpxchg e word old new (at f l') (tried f l)
  try_attempt e word f l old (skip l') = (word, at f l')
  try_attempt e word f l old (sleep new) = cmpxchg e word old new (checking f) (tried f l)

  unfoldable pub try_leave : Env → W → Frame R C → W → Option (W × ℤ) → W × Pc W L R C S
  unfolding cmpxchg
  try_leave e word f old none = (word, waiting f)
  try_leave e word f old (some (new, r)) =
      cmpxchg e word old new (rest (o.role_after f.call r f.role) r) (leaving f)

  unfoldable pub try_commit : Env → W → S → R → W → Reply W R → W × Pc W L R C S
  unfolding cmpxchg
  try_commit e word s r old (refuse x) = (word, rest r x)
  try_commit e word s r old (wake new n x r') =
      cmpxchg e word old new (releasing n r' x) (committing s r)

  unfoldable pub exchange : W → R → Reply W R → W × Pc W L R C S
  exchange word r (refuse x) = (word, rest r x)
  exchange word r (wake new n x r') = (new, releasing n r' x)

  unfoldable pub resume : Env → Frame R C → Pc W L R C S
  resume e f =
      if o.restarts
      then at (record f { to = adjust_winnt_timeout f.to e.now }) o.first
      else rest (o.role_after f.call (pos 0) f.role) (pos 0)

  unfoldable pub load : W → Frame R C → L → Option L → Pc W L R C S
  load word f l none = tried f l word
  load word f l (some l') = at f l'

  -- `remaining` releases are due. A release that times out is tried again, unless the process is
  -- shutting down. A release that succeeds is a step of two threads: `handoff` in `System`.
  unfoldable pub release : Env → ℕ → R → ℤ → Pc W L R C S
  release e zero r x = rest r x
  release e (suc n) r x = if e.timed_out && e.shutdown then rest r x else releasing (suc n) r x

  -- One step of a thread on its own.
  unfoldable pub advance : Env → W → Pc W L R C S → W × Pc W L R C S
  unfolding try_attempt try_leave try_commit exchange resume load release
  advance e word (rest r x) = (word, rest r x)
  advance e word (at f l) = (word, load word f l (o.poll e.polled l))
  advance e word (tried f l old) =
      try_attempt e word f l old (o.attempt f.call l (is_zero f.to) old)
  advance e word (checking f) =
      (word, if check_wait_safety f.to e.shutdown e.utc then waiting f else terminated)
  advance e word (waiting f) = (word, if e.timed_out then expired f else waiting f)
  advance e word (expired f) = (word, leaving f word)
  advance e word (leaving f old) = try_leave e word f old (o.leave old)
  advance e word (woken f) = (word, resume e f)
  advance e word (signalling s r) =
      if o.exchanges s then exchange word r (o.signal s r word) else (word, committing s r word)
  advance e word (committing s r old) = try_commit e word s r old (o.signal s r old)
  advance e word (releasing n r x) = (word, release e n r x)
  advance e word terminated = (word, terminated)
