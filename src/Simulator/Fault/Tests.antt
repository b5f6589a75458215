-- ===== src/Simulator/Fault/Tests.antt =====
-- The fault engine and its API at work on small inputs.
use monitower.Prelude.{
  List, [], ◌∷◌, none, some, ◌≡◌, refl, string_eq, ap, true, arith, ==_iff, String,
}
use monitower.Float64.Hundredths.{Hundredths, hundredths_float}
use monitower.Simulator.Fault.{
  FaultEngine, FaultContext, fault_poison_pill, fault_cascading_failure, new_fault_engine,
  get_fault_context, activate, deactivate, activate_locked, deactivate_locked, write_change,
}
use monitower.Simulator.Fault.Api.{handle_inject, handle_stop, fault_origins}
use monitower.Simulator.Fault.Log.{
  Call, injects, activates, deactivates, run, ok_at, row_of, replay,
}
use monitower.Simulator.Fault.Interleaved.{
  System, Reach, here, then_step, activates as locks_active, deactivates as locks_inactive, inserts,
  IsLogged, Reach-IsLogged,
}
use monitower.Simulator.Fault.Handlers.{Injected, handle_stop_lem, handle_inject_cases}
use monitower.Simulator.Fault.Context.{get_fault_context_fields}

abbrev calls : List Call
calls =
    injects 5 (some "poison-pill")
    ∷ injects 6 (some "no-such-fault")
    ∷ injects 7 none
    ∷ activates 8 fault_cascading_failure "payment"
    ∷ deactivates 9 fault_poison_pill
    ∷ []

calls_leave : (run new_fault_engine calls).active ≡ ("cascading-failure", "payment") ∷ []
unfolding run new_fault_engine activate deactivate handle_inject fault_origins
calls_leave = refl

-- The insert of the second fault overtakes that of the first, which is being stopped.
abbrev overlapping : System
overlapping = record {
  engine = record {
    active = ("cascading-failure", "payment") ∷ [];
    fault_events = row_of 4 "cascading-failure" "start" "payment" ∷ [];
  };
  pending =
      record { fault_type = "poison-pill"; action = "start"; origin = "order" }
      ∷ record { fault_type = "poison-pill"; action = "stop"; origin = "order" }
      ∷ [];
}

overlapping-Reach : Reach overlapping
unfolding new_fault_engine activate_locked deactivate_locked write_change
overlapping-Reach =
    then_step
      (then_step
        (then_step (then_step here (locks_active "poison-pill" "order"))
          (locks_active "cascading-failure" "payment"))
        (inserts 4 (record { fault_type = "poison-pill"; action = "start"; origin = "order" } ∷ [])
          (record { fault_type = "cascading-failure"; action = "start"; origin = "payment" }) []
          refl ((λ e. ground (arith, ==_iff {K = String} "poison-pill" "cascading-failure")), tt)))
      (locks_inactive "poison-pill")

Reach-IsLogged_example : IsLogged overlapping
Reach-IsLogged_example = Reach-IsLogged overlapping overlapping-Reach

-- Where the insert of a stop overtakes that of the start, the table says that a fault is active which
-- is not.
abbrev overtaken : FaultEngine
overtaken =
    let (started, start_change) = activate_locked "poison-pill" "order" new_fault_engine in
    let (stopped, stop_change) = deactivate_locked "poison-pill" started in
    write_change (ok_at 2) start_change (write_change (ok_at 1) (some stop_change) stopped)

table_wrong : (overtaken.active ≡ []) × (replay "poison-pill" overtaken.fault_events ≡ some "order")
unfolding new_fault_engine activate_locked deactivate_locked write_change
table_wrong = (refl, refl)

abbrev two_faults : FaultEngine
two_faults = record {
  active = ("poison-pill", "order") ∷ ("cascading-failure", "payment") ∷ [];
  fault_events = [];
}

handle_stop_lem_example : (handle_stop (λ f. ok_at 7) two_faults).0.active ≡ []
handle_stop_lem_example =
    ap (λ r. r.0.active) (handle_stop_lem (λ f. 7) two_faults (refl, (refl, tt))).0

handle_inject_cases_example :
    Injected
      (some "traffic-spike")
      two_faults
      (handle_inject (ok_at 3) (some "traffic-spike") two_faults)
handle_inject_cases_example = handle_inject_cases (ok_at 3) (some "traffic-spike") two_faults

get_fault_context_fields_example :
    (get_fault_context {W = Hundredths} (fault_cascading_failure ∷ []) "payment").should_crash
    ≡ true
get_fault_context_fields_example =
    (get_fault_context_fields "payment" (fault_cascading_failure ∷ [])).1

abbrev told : FaultContext Hundredths
told = get_fault_context ("intermittent-errors" ∷ "poison-pill" ∷ []) "payment"
