-- ===== src/Waitable/System.antt =====
-- `n` threads over one object, interleaved in any order.
use mcfgthread.Base.{ℕ, suc, ◌<◌, ◌≡◌, Option, Bool, true, false, ℤ}
use mcfgthread.Base.Family.{assign}
use mcfgthread.Timeout.{start_timeout}
use mcfgthread.Waitable.Machine.{
  Ops, Frame, Pc, rest, at, waiting, woken, signalling, releasing, Env, advance,
}

pub record System (W L R C S : Type 0) : Type 0 where
  pub word : W
  pub pc : ℕ → Pc W L R C S

-- A thread takes a step, calls a function, or two threads meet at the keyed event: the kernel
-- pairs a thread that waits for the key with one that releases it.
-- `May` and `MaySignal` say which calls the users of the object make in which role.
pub data Step {W L R C S : Type 0} (o : Ops W L R C S) (May : R → C → Bool)
    (MaySignal : R → S → Bool) (n : ℕ) (s : System W L R C S) : System W L R C S → Type 0 where
  run :
      (i : ℕ) (e : Env)
      → i < n
      → e.shutdown ≡ false
      → Step o May MaySignal n s (record {
        word = (advance o e s.word (s.pc i)).0;
        pc = assign i (advance o e s.word (s.pc i)).1 s.pc;
      })
  enter :
      (i : ℕ) (r : R) (x : ℤ) (c : C) (ms : Option ℤ) (now : ℕ)
      → i < n
      → s.pc i ≡ rest r x
      → May r c ≡ true
      → Step o May MaySignal n s (record s {
        pc = assign i (at (record { call = c; role = r; to = start_timeout ms now }) o.first) s.pc;
      })
  call_signal :
      (i : ℕ) (r : R) (x : ℤ) (g : S)
      → i < n
      → s.pc i ≡ rest r x
      → MaySignal r g ≡ true
      → Step o May MaySignal n s (record s { pc = assign i (signalling g r) s.pc })
  handoff :
      (i j : ℕ) (f : Frame R C) (k : ℕ) (r : R) (x : ℤ)
      → i < n
      → j < n
      → s.pc i ≡ waiting f
      → s.pc j ≡ releasing (suc k) r x
      → Step o May MaySignal n s
          (record s { pc = assign j (releasing k r x) (assign i (woken f) s.pc) })

-- The states that threads in role `r` reach from a word.
pub data Reach {W L R C S : Type 0} (o : Ops W L R C S) (May : R → C → Bool)
    (MaySignal : R → S → Bool) (n : ℕ) (word : W) (r : R) : System W L R C S → Type 0 where
  start : Reach o May MaySignal n word r (record { word = word; pc = λ _. rest r (ℤ.pos 0) })
  later :
      {s t : System W L R C S}
      → Reach o May MaySignal n word r s
      → Step o May MaySignal n s t
      → Reach o May MaySignal n word r t
