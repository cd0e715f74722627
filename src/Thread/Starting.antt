-- ===== src/Thread/Starting.antt =====
-- The start of a thread: `do_win32_thread_routine` of mcfgthread/src/thread.c, up to the call of the
-- thread's procedure. Callbacks of other modules, which the system calls before it, may have used
-- thread-local variables, so that there is another structure for the same thread, whose data move. `none`
-- is a failed assertion.
pub mod Migration
use mcfgthread.Base.{
  ℕ, ◌+◌, ◌-◌, Option, none, some, Bool, true, false, not, ◌&&◌, ◌==◌, if◌then◌else◌, length,
}
use mcfgthread.Base.Family.{assign}
use mcfgthread.DtorQueue
use mcfgthread.DtorQueue.{Queue}
use mcfgthread.Tls
use mcfgthread.Tls.{Table}
use mcfgthread.Thread.{ThreadBase, Threads, thread_drop_ref_nonnull}

-- `init_st_success`
abbrev pub init_st_success : ℕ
init_st_success = 1

-- Whether the procedure is called, the slot of the thread, and the structures.
pub record Started : Type 0 where
  pub is_called : Bool
  pub slot : ℕ
  pub threads : Threads

-- The assertions that the structure is fresh.
unfoldable pub is_fresh : ThreadBase → Bool
is_fresh t =
    not (t.tid == 0)
    && not (t.handle == 0)
    && (length t.atexit_queue.block == 0)
    && (t.tls_table.size_hint == 0)

abbrev pub set_queue : ℕ → Queue → Threads → Threads
set_queue thrd queue w = record w {
  thread = assign thrd (record (w.thread thrd) { atexit_queue = queue }) w.thread;
}

abbrev pub set_table : ℕ → Table → Threads → Threads
set_table thrd table w = record w {
  thread = assign thrd (record (w.thread thrd) { tls_table = table }) w.thread;
}

-- The copies of the queue and of the table, each followed by the zeroes where it was.
abbrev pub move_data : ℕ → ℕ → Threads → Threads
move_data thrd foreign w =
    let w1 = set_queue foreign DtorQueue.empty (set_queue thrd (w.thread foreign).atexit_queue w) in
    set_table foreign Tls.empty (set_table thrd (w1.thread foreign).tls_table w1)

-- What is done with the other structure. A copy to itself fails an assertion.
unfoldable pub migrate : ℕ → ℕ → Threads → Option Threads
unfolding thread_drop_ref_nonnull
migrate thrd foreign w =
    if not ((w.thread foreign).tid == (w.thread thrd).tid)
    then none
    else if thrd == foreign
    then none
    else thread_drop_ref_nonnull foreign (move_data thrd foreign w)

-- The structure is stored into the slot, if the system accepts it.
abbrev pub then_set : Bool → ℕ → Option Threads → Option Started
then_set slot_set thrd none = none
then_set slot_set thrd (some w) =
    if slot_set then some (record { is_called = true; slot = thrd; threads = w }) else none

-- `do_win32_thread_routine`; `status` is what `__init_done` changes to, and `slot` what TlsGetValue2
-- returns.
unfoldable pub win32_thread_routine : ℕ → Bool → ℕ → ℕ → Threads → Option Started
unfolding is_fresh migrate
win32_thread_routine status slot_set slot thrd w =
    if not (status == init_st_success)
    then some (record { is_called = false; slot = slot; threads = w })
    else if not (is_fresh (w.thread thrd))
    then none
    else then_set slot_set thrd (if slot == 0 then some w else migrate thrd slot w)
