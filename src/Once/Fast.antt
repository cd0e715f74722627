-- ===== src/Once/Fast.antt =====
-- The inline functions of mcfgthread/once.h, and the guards of mcfgthread/src/cxa.c.
use mcfgthread.Base.{◌≡◌, ◌↔◌, Bool, true, arith, pos}
use mcfgthread.Waitable.Machine.{done}
use mcfgthread.Once.{Once, lock_loop, wait, attempt, pack, wait_fast}
use mcfgthread.Once.Laws.{IsWord}

-- For any word, the inline waiting functions return at once exactly when a pass of
-- `_MCF_once_wait_slow` finds the flag ready and returns zero, whatever the timeout.
pub wait_fast-attempt :
    (w : Once) (no_wait : Bool)
    → IsWord w
    → (wait_fast (pack w) ≡ true) ↔ (attempt wait lock_loop no_wait w ≡ done (pos 0))
unfolding wait_fast pack attempt
wait_fast-attempt w no_wait g = (λ e. ground arith, λ e. ground arith)
