-- ===== src/Simulator/Fault/Log.antt =====
-- Calls on the fault engine one after another, and fault_events as a history of it.
use monitower.Prelude.{
  ℕ, String, List, [], ◌∷◌, Option, none, some, ◌==◌, if◌then◌else◌, string_eq, true,
}
use monitower.Simulator.Fault.{FaultType, FaultEventRow, FaultEngine, Exec, activate, deactivate}
use monitower.Simulator.Fault.Api.{handle_inject, handle_stop, handle_reset}

-- The origin of a fault after the rows, `none` if it is not active: the last row about it decides.
abbrev pub after_row : FaultType → Option String → FaultEventRow → Option String
after_row f before row =
    if row.fault_type == f
    then (if row.action == "start" then some row.origin else none)
    else before

abbrev pub replay_from : FaultType → Option String → List FaultEventRow → Option String
replay_from f before [] = before
replay_from f before (row ∷ rows) = replay_from f (after_row f before row) rows

abbrev pub replay : FaultType → List FaultEventRow → Option String
replay f = replay_from f none

abbrev pub ok_at : ℕ → Exec
ok_at t = record { now = t; accepted = true }

abbrev pub row_of : ℕ → FaultType → String → String → FaultEventRow
row_of t fault action origin = record {
  ts = t;
  fault_type = fault;
  action = action;
  origin = origin;
}

-- The calls that change the engine, each with the clock at its inserts.
pub data Call : Type 0 where
  activates : ℕ → FaultType → String → Call
  deactivates : ℕ → FaultType → Call
  injects : ℕ → Option String → Call
  stops resets : (FaultType → ℕ) → Call

unfoldable pub step : FaultEngine → Call → FaultEngine
step e (activates t fault origin) = activate (ok_at t) fault origin e
step e (deactivates t fault) = deactivate (ok_at t) fault e
step e (injects t request) = (handle_inject (ok_at t) request e).0
step e (stops t) = (handle_stop (λ f. ok_at (t f)) e).0
step e (resets t) = (handle_reset (λ f. ok_at (t f)) e).0

unfoldable pub run : FaultEngine → List Call → FaultEngine
unfolding step
run e [] = e
run e (c ∷ cs) = run (step e c) cs
