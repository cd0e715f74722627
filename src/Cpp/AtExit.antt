-- ===== src/Cpp/AtExit.antt =====
-- `notify_all_at_thread_exit` of mcfgthread/cxx11.hpp, over the queue of callbacks of a thread.
pub mod Order
use mcfgthread.Base.{ℕ, Bool, Option, none, some, ℤ, pos, eqb_ℤ, if◌then◌else◌}
use mcfgthread.DtorQueue.{Element, Queue, reserve_and_push, push}

-- The addresses of `_MCF_cond_signal_all`, `_MCF_mutex_unlock` and `__dso_handle`.
pub record Program : Type 0 where
  pub signal_all : ℕ
  pub unlock : ℕ
  pub dso_handle : ℕ

abbrev pub signal_element : Program → ℕ → Element
signal_element p cnd = record { dtor = p.signal_all; this = cnd; dso = p.dso_handle }

abbrev pub unlock_element : Program → ℕ → Element
unlock_element p mtx = record { dtor = p.unlock; this = mtx; dso = p.dso_handle }

-- The queue, or `none` if `not_enough_memory` is thrown and the lock stays with the caller. The two
-- flags are whether there is memory for a block, for each of the pushes.
unfoldable pub notify_all_at_thread_exit :
    Program → Bool → Bool → (cnd mtx : ℕ) → Queue → Option Queue
notify_all_at_thread_exit p memory memory2 cnd mtx queue =
    let (err, reserved) = reserve_and_push memory 2 (some (signal_element p cnd)) queue in
    if eqb_ℤ err (pos 0) then some (push memory2 (some (unlock_element p mtx)) reserved).1 else none
