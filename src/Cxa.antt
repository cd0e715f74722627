-- ===== src/Cxa.antt =====
-- Callbacks at the end of a thread and of the process: mcfgthread/src/cxa.c, mcfgthread/src/exit.c and
-- `do_pop_dtor` of mcfgthread/src/xglobals.c.
pub mod Finalizing
use mcfgthread.Base.{ℕ, Option, none, some, Bool, ℤ, List, [], ◌∷◌, ◌++◌}
use mcfgthread.DtorQueue.{Element, Queue, push, pop, remove, run_dtors}

-- `self->__atexit_queue` of the calling thread, which is empty where the thread has no `self`, and
-- `__MCF_G(exit_queue)` and `__MCF_G(quick_exit_queue)`. Each queue of the process is read and
-- written under its own mutex, so one such access is one step.
pub record Process : Type 0 where
  pub thread_queue : Queue
  pub exit_queue : Queue
  pub quick_exit_queue : Queue

abbrev pub element : ℕ → ℕ → ℕ → Option Element
element dtor this dso = some (record { dtor = dtor; this = this; dso = dso })

-- `__MCF_cxa_atexit`; `has_memory` is whether an allocation succeeds.
unfoldable pub cxa_atexit : Bool → ℕ → ℕ → ℕ → Process → ℤ × Process
unfolding push
cxa_atexit has_memory dtor this dso p =
    let (err, q) = push has_memory (element dtor this dso) p.exit_queue in
    (err, record p { exit_queue = q })

-- `__MCF_cxa_at_quick_exit`
unfoldable pub cxa_at_quick_exit : Bool → ℕ → ℕ → ℕ → Process → ℤ × Process
unfolding push
cxa_at_quick_exit has_memory dtor this dso p =
    let (err, q) = push has_memory (element dtor this dso) p.quick_exit_queue in
    (err, record p { quick_exit_queue = q })

-- `__MCF_cxa_thread_atexit`
unfoldable pub cxa_thread_atexit : Bool → ℕ → ℕ → ℕ → Process → ℤ × Process
unfolding push
cxa_thread_atexit has_memory dtor this dso p =
    let (err, q) = push has_memory (element dtor this dso) p.thread_queue in
    (err, record p { thread_queue = q })

-- `__MCF_atexit`, `__MCF_at_quick_exit` and `__MCF_thread_atexit`
unfoldable pub atexit : Bool → ℕ → Process → ℤ × Process
unfolding cxa_atexit
atexit has_memory func p = cxa_atexit has_memory func 0 0 p

unfoldable pub at_quick_exit : Bool → ℕ → Process → ℤ × Process
unfolding cxa_at_quick_exit
at_quick_exit has_memory func p = cxa_at_quick_exit has_memory func 0 0 p

unfoldable pub thread_atexit : Bool → ℕ → Process → ℤ × Process
unfolding cxa_thread_atexit
thread_atexit has_memory func p = cxa_thread_atexit has_memory func 0 0 p

-- `__MCF_dtor_queue_pop` on the thread's queue, and `do_pop_dtor` on the others.
unfoldable pub pop_thread : ℕ → Process → Option Element × Process
unfolding pop
pop_thread dso p = let (e, q) = pop dso p.thread_queue in (e, record p { thread_queue = q })

unfoldable pub pop_exit : ℕ → Process → Option Element × Process
unfolding pop
pop_exit dso p = let (e, q) = pop dso p.exit_queue in (e, record p { exit_queue = q })

unfoldable pub pop_quick_exit : ℕ → Process → Option Element × Process
unfolding pop
pop_quick_exit dso p =
    let (e, q) = pop dso p.quick_exit_queue in (e, record p { quick_exit_queue = q })

-- Callbacks that were called before.
abbrev pub after : List Element → Option (List Element × Process) → Option (List Element × Process)
after calls none = none
after calls (some (later, p)) = some (calls ++ later, p)

abbrev pub and_then :
    Option (List Element × Process)
    → (Process → Option (List Element × Process))
    → Option (List Element × Process)
and_then none f = none
and_then (some (calls, p)) f = after calls (f p)

-- `__MCF_dtor_queue_remove` on the quick exit callbacks
unfoldable pub remove_quick_exit : ℕ → Process → Process
unfolding remove
remove_quick_exit dso p = record p { quick_exit_queue = (remove dso p.quick_exit_queue).1 }

-- `__MCF_cxa_finalize`: the callbacks in the order of their calls. `fuel` is for each loop.
unfoldable pub cxa_finalize :
    (Element → Process → Process) → ℕ → ℕ → Process → Option (List Element × Process)
unfolding run_dtors pop_thread pop_exit remove_quick_exit
cxa_finalize invoke fuel dso p = and_then (run_dtors (pop_thread dso) invoke fuel p) (λ p1.
    and_then (run_dtors (pop_exit dso) invoke fuel p1) (λ p2. some ([], remove_quick_exit dso p2)))

-- `__MCF_exit` and `__MCF_quick_exit`, up to the termination of the process.
unfoldable pub exit : (Element → Process → Process) → ℕ → Process → Option (List Element × Process)
unfolding cxa_finalize
exit invoke fuel p = cxa_finalize invoke fuel 0 p

unfoldable pub quick_exit :
    (Element → Process → Process) → ℕ → Process → Option (List Element × Process)
unfolding run_dtors pop_quick_exit
quick_exit invoke fuel p = run_dtors (pop_quick_exit 0) invoke fuel p
