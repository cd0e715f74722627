-- ===== src/Thread/Starting/Migration.antt =====
-- What a thread begins with, where it has been used before its start or not.
use mcfgthread.Base.{ℕ, ◌≡◌, ◌≢◌, true, false, not, ◌&&◌, ◌==◌, if◌then◌else◌}
use mcfgthread.DtorQueue
use mcfgthread.Tls
use mcfgthread.Thread.{ThreadBase, zeroes, Threads}
use mcfgthread.Thread.Starting.{Started}

-- The structure of a new thread that has not begun.
pub record IsNew (thrd : ℕ) (w : Threads) : Type 0 where
  pub known : (w.thread thrd).tid ≢ 0
  pub opened : (w.thread thrd).handle ≢ 0
  pub no_callbacks : (w.thread thrd).atexit_queue ≡ DtorQueue.empty
  pub no_values : (w.thread thrd).tls_table ≡ Tls.empty

-- Another structure for the same thread, with one reference.
pub record IsForeign (thrd foreign : ℕ) (w : Threads) : Type 0 where
  pub exists : foreign ≢ 0
  pub other : foreign ≢ thrd
  pub same_thread : (w.thread foreign).tid ≡ (w.thread thrd).tid
  pub unshared : (w.thread foreign).nref ≡ 1
  pub not_main : foreign ≢ w.main_thread

-- The structure whose callbacks and values the thread goes on with.
abbrev pub source : ℕ → ℕ → Threads → ThreadBase
source thrd slot w = w.thread (if slot == 0 then thrd else slot)

-- The thread has begun with what the source had. The other structure, if there is one, is given back:
-- it is deallocated, or clear and free if it is the backup. Nothing else has changed.
pub record HasBegun (thrd slot : ℕ) (w : Threads) (s : Started) : Type 0 where
  pub called : s.is_called ≡ true
  pub in_slot : s.slot ≡ thrd
  pub carried : s.threads.thread thrd ≡ record (w.thread thrd) {
    atexit_queue = (source thrd slot w).atexit_queue;
    tls_table = (source thrd slot w).tls_table;
  }
  pub allocated :
      (x : ℕ)
      → s.threads.allocated x ≡ (
          if not (slot == 0) && (x == slot) && not (slot == w.oom_self)
          then false
          else w.allocated x)
  pub backup :
      slot ≢ 0
      → slot ≡ w.oom_self
      → (s.threads.thread slot ≡ zeroes) × (s.threads.oom_locked ≡ false)
  pub others : (x : ℕ) → x ≢ thrd → x ≢ slot → s.threads.thread x ≡ w.thread x
