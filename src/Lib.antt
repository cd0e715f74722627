-- ===== src/Lib.antt =====
-- A model of mcfgthread, a threading library for Windows: its synchronization core, thread-local
-- storage, threads, recursive mutexes with the interfaces to them, and smaller parts, with the theorems
-- that make them correct. Pointers have 64 bits.
--
-- The library's six waitable objects are a word each, which threads change by compare-exchange; a
-- thread that has to wait counts itself in the word and sleeps on a keyed event of the system, and
-- a thread that signals the object takes sleepers off the count and releases as many.
--
-- Base: shared names, Boolean tests, integers (Base/Int), lists (Base/Lists), bits (Base/Bits and
-- Base/Digits), sums over families of threads (Base/Family), and searches round an array (Base/Round).
-- Timeout: mcfgthread/src/xglobals.c, how timeouts are computed, adjusted and checked.
-- Waitable: the slow paths that the objects share. Waitable/Machine is one thread, one shared
-- access at a time: `advance` is a step of it. What the objects do differently is a record `Ops`:
-- `attempt` is a pass of the waiting function's loop, `leave` the pass after a timeout, `signal` a
-- pass of the signalling function. Waitable/System has any number of threads over one word, with
-- `Step` and `Reach`; a wait and a release of the keyed event meet in `handoff`. The laws that an
-- object has to satisfy are the records `Laws` (Waitable/Ledger), `Keeps` (Waitable/Stable) and
-- `Handover` (Waitable/Progress); the invariants follow from them for every object at once.
-- Waitable/Schedule computes reachable states from a list of actions.
-- Mutex, Once, SharedMutex, Event, Sem, Cond: mcfgthread/src/mutex.c, once.c, shared_mutex.c,
-- event.c, sem.c and cond.c, each with the inline functions of its header mcfgthread/*.h. A record
-- of the struct's bit-fields is the word; `attempt`, `leave`, `signal` and `ops` instantiate
-- Waitable; the callbacks of a wait for a condition variable are parameters of `cond_wait`, and no
-- steps of the threads. The inline functions work on the raw integer, as `pack` lays it out.
-- DtorQueue: mcfgthread/src/dtor_queue.c, and `__MCF_run_static_dtors` of xglobals.c.
-- Cxa: mcfgthread/src/cxa.c and exit.c, the callbacks at the end of a thread and of the process.
-- Clock: mcfgthread/src/clock.c, the clocks that return whole milliseconds.
-- CpuCollection: the lookup, the selection and the sorted insertion of processors in
-- mcfgthread/src/cpu_collection.c. The elements of the array are a function of their index.
-- CpuCollection/Masks has the branches of the same functions, and of the affinities in thread.c, for
-- systems without CPU sets, where the processors are the bits of a mask.
-- Tls: mcfgthread/src/tls.c and tls.h. A key is its address; `xset` and `get` are the table's
-- functions, with `linear_probe` and, for the larger table, `grow` and `relocate_all`. Tls/Pop has `pop`
-- and the loop `drain` over it. Probing, Putting, Moving, Growing, Larger, Setting and Mapping lead from
-- one probe to the table as a map from keys to values; Popping and Draining take it apart.
-- Thread: mcfgthread/src/thread.c and thread.h. `thread_p_new` with its checks, sizes and layout, the
-- reference counts, and the backup structure for when there is no memory. Thread/Starting is the routine
-- of a new thread, up to its procedure. Thread/Exit puts together
-- DtorQueue and Tls as `__MCF_gthread_on_thread_exit` of xglobals.c does; Thread/Affinity has the
-- affinities of threads, over CpuCollection.
-- RecursiveMutex: mcfgthread/gthr_aux.h and src/gthr_aux.c. RecursiveMutex/System has any number of
-- threads that take the steps of these functions one at a time; `act` is a step, `Reachable` the states.
-- IsoC, Gthr and Cpp: the interfaces to it, mcfgthread/c11.h, gthr.h and cxx11.hpp, and to keys and
-- threads.
-- Cpp/Starting has the constructor of `thread`, `join` and `detach`, as steps of the thread that
-- creates and of the one that is created; Cpp/AtExit has `notify_all_at_thread_exit` over DtorQueue;
-- Cpp/Times has the waits for a duration and for a point in time.
-- Wrappers: the functions of gthr.h, gthr_libobjc.h, libcxx.h and cxx11.hpp for mutexes and read-write
-- locks. The lock that they call is a record, `Locks`; Wrappers/Filling fills it with SharedMutex,
-- and Wrappers/Plain and Wrappers/Locking with Mutex.
-- CallOnce: `__MCF_gthr_call_once_seh` of gthr_aux.h with its exception handler in xglobals.c, and
-- `call_once` of cxx11.hpp, over Once, for calls that come one after another.
-- Memory: the functions for blocks of memory in mcfgthread/src/xglobals.h and xglobals.c. The memory
-- is a function of the address; a failed assertion is `none`.
-- SectionName and Globals: the name of the shared section in mcfgthread/src/xglobals.c, and its
-- initialization and extension by the copies of the library in a process.
-- LoadedDlls: `__MCF_get_function_from_loaded_dlls` of xglobals.c.
-- FailureMessage: how `do_notify_runtime_failure` of xglobals.c composes a message.
-- Tests: runs of the model, and the theorems applied to them.
--
-- Bounds. A sleeping count has 55 bits (50 in the shared mutex, 63 in the semaphore), so the number
-- of threads is taken to be below that; Windows has far fewer. The invariants then show that no
-- bit-field wraps around. The loops that run callbacks have fuel; one unit for each matching
-- callback and one more is enough, where callbacks register no others. The binary search of a CPU
-- collection has the number of processors plus one for fuel, which its theorem shows to be enough.
-- The end of a thread has fuel for one step more than there are callbacks and values. The loop over
-- a mask has 64 rounds, one for each bit, and those over a localized text have 127, one more than
-- it has characters. A wait by another clock ends when a round comes that begins late enough, for
-- which the fuel is an argument. A reallocated table has what was asked for and any number `spare`
-- of elements more, as `__MCF_msize` may report.
--
-- Assumptions. Accesses of a word are sequentially consistent, and weak compare-exchanges may fail at
-- any time; the memory orders that the source names are not modelled. Whether a poll of a spin byte
-- finds it set is the environment's choice. A thread unlocks only what it holds. The steps of
-- Waitable/System are those before the process shuts down. The keyed event, the clocks and the
-- callbacks are not part of the library: they are steps, arguments and parameters here.
-- Reference counts of keys and threads are natural numbers, which agree with the 32-bit counters of
-- the source below 2 ^ 31. The wrappers' calls come one after another, outside of shutdown.
--
-- Not modelled: the priorities of threads (thread.c), the reference counts of CPU collections, the
-- functions of gthr.h, c11.h and cxx11.hpp that only pass calls on to condition variables, keys and
-- threads, as those of libcxx.h and gthr_libobjc.h do, clocks and durations that are floating-point
-- numbers, the heap, and the rest of the start of the process with the handlers of exceptions,
-- which are calls of the system, assembly, or pass calls on.
pub mod Base
pub mod Timeout
pub mod Waitable
pub mod Mutex
pub mod Once
pub mod SharedMutex
pub mod Event
pub mod Sem
pub mod Cond
pub mod DtorQueue
pub mod Cxa
pub mod Clock
pub mod CpuCollection
pub mod Tls
pub mod Thread
pub mod RecursiveMutex
pub mod IsoC
pub mod Gthr
pub mod Cpp
pub mod SectionName
pub mod Memory
pub mod Globals
pub mod LoadedDlls
pub mod FailureMessage
pub mod CallOnce
pub mod Wrappers
pub mod Tests
