-- ===== src/Tests/Actions.antt =====
-- Ways of writing the order in which threads act.
use mcfgthread.Base.{ℕ, zero, suc, false, List, [], ◌∷◌}
use mcfgthread.Waitable.Machine.{Env}
use mcfgthread.Waitable.Schedule.{Action, steps}

-- No wait times out, no comparison fails spuriously, and no spin byte is set.
abbrev pub smooth : Env
smooth = record {
  spurious = false;
  polled = false;
  timed_out = false;
  shutdown = false;
  now = 0;
  utc = 0;
}

abbrev pub go : {C S : Type 0} → ℕ → ℕ × Action C S
go i = (i, steps smooth)

abbrev pub times : {C S : Type 0} → ℕ → ℕ × Action C S → List (ℕ × Action C S)
times zero a = []
times (suc k) a = a ∷ times k a
