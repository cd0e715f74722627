-- ===== src/CallOnce/Running.antt =====
-- A function is called until it has returned once: mcfgthread/src/xglobals.c, gthr_aux.h and cxx11.hpp.
use mcfgthread.Base.{◌≡◌, true, Option, some, List, [], ◌∷◌}
use mcfgthread.Once.{Once, init}
use mcfgthread.CallOnce.{Init, returns, raises, Effect, passive, active}

abbrev pub ready : Once
ready = record { ready = 1; locked = 0; nsleep = 0 }

-- No exception ends the process.
abbrev pub Caught : List Init → Type 0
Caught [] = Unit
Caught (returns ∷ inits) = Caught inits
Caught (raises caught ∷ inits) = (caught ≡ true) × Caught inits

abbrev pub all_passive : List Init → List Effect
all_passive [] = []
all_passive (i ∷ inits) = passive ∷ all_passive inits

-- What calls should do: call the function, until a call has returned.
abbrev pub expected : List Init → List Effect
expected [] = []
expected (returns ∷ inits) = active ∷ all_passive inits
expected (raises caught ∷ inits) = active ∷ expected inits

abbrev pub flag_after : List Init → Once
flag_after [] = init
flag_after (returns ∷ inits) = ready
flag_after (raises caught ∷ inits) = flag_after inits

-- What a call has to do for a flag that no thread holds.
record IsCallOnce (call_once : Init → Once → Option (Effect × Once)) : Type 0 where
  when_ready : (i : Init) → call_once i ready ≡ some (passive, ready)
  when_returns : call_once returns init ≡ some (active, ready)
  when_raises : call_once (raises true) init ≡ some (active, init)
