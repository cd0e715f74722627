-- ===== src/Cpp/Starting.antt =====
-- The constructor, `join` and `detach` of the class `thread` of mcfgthread/cxx11.hpp, from where the new
-- thread exists: the thread that constructs the object, and the new thread, which waits for the event
-- `_M_ctor_status` in the data that they share. Each step is one access of what is shared. The wait of
-- the event is a step that is possible when its value is not that which is waited for.
pub mod Lifetime
use mcfgthread.Base.{ℕ, zero, suc, ◌+◌, ◌-◌, ◌<◌, ◌≡◌, ◌≢◌, Bool, true, false}

-- `_St_zero`, `_St_constructed` and `_St_cancelled`
pub data Status : Type 0 where
  zero_status : Status
  constructed : Status
  cancelled : Status

-- Where the constructing thread is: at the construction of `_M_tuple`; at the destructor of `__sentry`
-- with `__complete_thread`, or with `__cancel_thread`, before the event is set and before the
-- reference is dropped; behind an exception; with a joinable thread; in `join`, before and behind the
-- wait; or done with the thread.
pub data Creator : Type 0 where
  constructing : Creator
  completing : Creator
  cancelling : Creator
  dropping : Creator
  thrown : Creator
  joinable : Creator
  joining : Creator
  waited : Creator
  finished : Creator

-- Where the new thread is in `__thread_fn`: at the wait for the event; behind it, with the status;
-- in the user's procedure; and behind the function, before and after it drops its reference.
pub data Worker : Type 0 where
  waiting : Worker
  woken : Status → Worker
  invoking : Worker
  returned : Worker
  exited : Worker

pub record World : Type 0 where
  pub creator : Creator
  pub worker : Worker
  pub status : Status
  pub tuple : Bool  -- whether `_M_tuple` is constructed
  pub nref : ℕ  -- the reference count of the thread
  pub runs : ℕ  -- how often the procedure has been called

-- `_MCF_thread_p_new` has returned, with two references.
abbrev pub start : World
start = record {
  creator = constructing;
  worker = waiting;
  status = zero_status;
  tuple = false;
  nref = 2;
  runs = 0;
}

pub data Step : World → World → Type 0 where
  construct :
      (w : World)
      → w.creator ≡ constructing
      → Step w (record w { creator = completing; tuple = true })
  throw : (w : World) → w.creator ≡ constructing → Step w (record w { creator = cancelling })
  complete :
      (w : World)
      → w.creator ≡ completing
      → Step w (record w { creator = joinable; status = constructed })
  cancel :
      (w : World)
      → w.creator ≡ cancelling
      → Step w (record w { creator = dropping; status = cancelled })
  drop :
      (w : World) → w.creator ≡ dropping → Step w (record w { creator = thrown; nref = w.nref - 1 })
  detach :
      (w : World)
      → w.creator ≡ joinable
      → Step w (record w { creator = finished; nref = w.nref - 1 })
  join : (w : World) → w.creator ≡ joinable → Step w (record w { creator = joining })
  join_wait :
      (w : World) → w.creator ≡ joining → w.worker ≡ exited → Step w (record w { creator = waited })
  join_drop :
      (w : World) → w.creator ≡ waited → Step w (record w { creator = finished; nref = w.nref - 1 })
  await :
      (w : World)
      → w.worker ≡ waiting
      → w.status ≢ zero_status
      → Step w (record w { worker = woken w.status })
  leave : (w : World) → w.worker ≡ woken cancelled → Step w (record w { worker = returned })
  invoke :
      (w : World)
      → w.worker ≡ woken constructed
      → Step w (record w { worker = invoking; runs = w.runs + 1 })
  destroy :
      (w : World) → w.worker ≡ invoking → Step w (record w { worker = returned; tuple = false })
  exit :
      (w : World) → w.worker ≡ returned → Step w (record w { worker = exited; nref = w.nref - 1 })

pub data Reach : World → Type 0 where
  begin : Reach start
  next : {w w1 : World} → Reach w → Step w w1 → Reach w1
