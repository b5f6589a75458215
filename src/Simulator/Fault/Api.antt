-- ===== src/Simulator/Fault/Api.antt =====
-- The simulator's HTTP API: internal/simulator/api.go.
use monitower.Prelude.{ℕ, String, List, [], ◌∷◌, Option, none, some, ◌==◌, if◌then◌else◌, string_eq}
use monitower.Prelude.Dict.{lookup}
use monitower.Simulator.Fault.{
  FaultType, ActiveFault, FaultEngine, Exec, activate, deactivate, get_active_faults,
  fault_poison_pill, fault_downstream_timeout, fault_traffic_spike, fault_cascading_failure,
  fault_intermittent_errors, fault_notification_failure,
}

unfoldable pub fault_origins : List (FaultType × String)
fault_origins =
    (fault_poison_pill, "order")
    ∷ (fault_downstream_timeout, "payment")
    ∷ (fault_traffic_spike, "api-gateway")
    ∷ (fault_cascading_failure, "payment")
    ∷ (fault_intermittent_errors, "payment")
    ∷ (fault_notification_failure, "notification")
    ∷ []

pub data Body : Type 0 where
  error_text : String → Body
  status_ok : Body
  faults : List ActiveFault → Body

pub record Response : Type 0 where
  pub status : ℕ
  pub body : Body

abbrev pub bad_request : String → Response
bad_request message = record { status = 400; body = error_text message }

abbrev pub done : Response
done = record { status = 200; body = status_ok }

unfoldable pub inject_known :
    Exec → FaultType → Option String → FaultEngine → FaultEngine × Response
inject_known x fault none e = (e, bad_request "unknown faultType")
inject_known x fault (some origin) e = (activate x fault origin e, done)

-- The request is the decoded field faultType, or `none` if the body is no such JSON object.
unfoldable pub handle_inject : Exec → Option String → FaultEngine → FaultEngine × Response
unfolding inject_known
handle_inject x none e = (e, bad_request "faultType is required")
handle_inject x (some fault) e =
    if fault == ""
    then (e, bad_request "faultType is required")
    else inject_known x fault (lookup fault fault_origins) e

-- `for _, af := range engine.GetActiveFaults()`, over the snapshot.
unfoldable pub deactivate_all : (FaultType → Exec) → List ActiveFault → FaultEngine → FaultEngine
deactivate_all x [] e = e
deactivate_all x (af ∷ snapshot) e =
    deactivate_all x snapshot (deactivate (x af.fault_type) af.fault_type e)

unfoldable pub handle_stop : (FaultType → Exec) → FaultEngine → FaultEngine × Response
unfolding deactivate_all
handle_stop x e = (deactivate_all x (get_active_faults e) e, done)

unfoldable pub handle_active : FaultEngine → FaultEngine × Response
handle_active e = (e, record { status = 200; body = faults (get_active_faults e) })

unfoldable pub handle_reset : (FaultType → Exec) → FaultEngine → FaultEngine × Response
unfolding deactivate_all
handle_reset x e = (deactivate_all x (get_active_faults e) e, done)
