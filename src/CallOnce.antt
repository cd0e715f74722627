-- ===== src/CallOnce.antt =====
-- Functions that are called once: `__MCF_gthr_call_once_seh` of mcfgthread/gthr_aux.h with
-- `__MCF_gthr_call_once_seh_take_over` and its handler in mcfgthread/src/xglobals.c, on which the
-- functions of gthr.h, c11.h and libcxx.h rest, and `call_once` of mcfgthread/cxx11.hpp. The calls come
-- one after another; a call that would have to wait for another is `none`.
pub mod Running
use mcfgthread.Base.{
  ℕ, zero, suc, ◌+◌, Bool, true, false, Option, none, some, ℤ, pos, negsuc, List, [], ◌∷◌, eqb_ℤ,
  if◌then◌else◌,
}
use mcfgthread.Waitable.Machine.{Attempt, done, swap, hop, skip, sleep}
use mcfgthread.Once.{Once, Phase, wait, lock_loop, attempt, abort_word, release_word}

-- A pass of `_MCF_once_wait` without a timeout: the result, and the flag.
abbrev pub passed : Once → Attempt Once Phase → Option (ℤ × Once)
passed old (done r) = some (r, old)
passed old (swap new r) = some (r, new)
passed old (hop new phase) = none
passed old (skip phase) = none
passed old (sleep new) = none

unfoldable pub once_wait : Once → Option (ℤ × Once)
once_wait once = passed once (attempt wait lock_loop false once)

-- How the function ends: it returns, or it raises an exception. The system then calls the handlers of
-- the frames, first to look for a handler and, if there is one, to unwind the stack.
pub data Init : Type 0 where
  returns : Init
  raises : (caught : Bool) → Init

-- Whether `EXCEPTION_UNWINDING` is set in the calls of the handler.
abbrev pub handler_calls : Bool → List Bool
handler_calls false = false ∷ []
handler_calls true = false ∷ true ∷ []

-- `do_call_once_seh_unwind`
unfoldable pub call_once_seh_unwind : Bool → Once → Once
call_once_seh_unwind unwinding once = if unwinding then (abort_word once).0 else once

unfoldable pub handle_all : List Bool → Once → Once
unfolding call_once_seh_unwind
handle_all [] once = once
handle_all (unwinding ∷ calls) once = handle_all calls (call_once_seh_unwind unwinding once)

-- `__MCF_gthr_call_once_seh_take_over`
unfoldable pub call_once_seh_take_over : Init → Once → Once
unfolding handle_all
call_once_seh_take_over returns once = (release_word once).0
call_once_seh_take_over (raises caught) once = handle_all (handler_calls caught) once

-- What a call does: nothing, since the function has been called; or it calls the function. `broken`
-- is a failed assertion.
pub data Effect : Type 0 where
  passive : Effect
  active : Effect
  broken : Effect

unfoldable pub effect_of : ℤ → Effect
effect_of err = if eqb_ℤ err (pos 0) then passive else if eqb_ℤ err (pos 1) then active else broken

abbrev pub if_active : Effect → Once → Once → Once
if_active passive once taken = once
if_active active once taken = taken
if_active broken once taken = once

-- `__MCF_gthr_call_once_seh`
unfoldable pub gthr_call_once_seh : Init → Once → Option (Effect × Once)
gthr_call_once_seh init_proc once = elim (once_wait once) [
  | none ↦ none
  | some (err, waited) ↦
      some
        (effect_of err, if_active (effect_of err) waited (call_once_seh_take_over init_proc waited))
]

-- The deleter of `__sentry`, which is `_MCF_once_abort` until the function has returned. An exception
-- that is not caught ends the process, and the sentry need not be destroyed.
unfoldable pub sentry : Init → Once → Once
sentry returns once = (release_word once).0
sentry (raises true) once = (abort_word once).0
sentry (raises false) once = once

-- `std::call_once`
unfoldable pub cpp_call_once : Init → Once → Option (Effect × Once)
unfolding sentry
cpp_call_once callable once = elim (once_wait once) [
  | none ↦ none
  | some (err, waited) ↦
      some (effect_of err, if_active (effect_of err) waited (sentry callable waited))
]

-- Calls through one of the two, one after another, with what each does.
unfoldable pub call_all :
    (Init → Once → Option (Effect × Once)) → List Init → Once → Option (List Effect × Once)
call_all call_once [] once = some ([], once)
call_all call_once (i ∷ inits) once = elim (call_once i once) [
  | none ↦ none
  | some (effect, once1) ↦ elim (call_all call_once inits once1) [
    | none ↦ none
    | some (effects, once2) ↦ some (effect ∷ effects, once2)
  ]
]
