-- ===== src/Simulator/Fault.antt =====
-- The fault engine of internal/simulator/fault_engine.go.
-- The map of active faults is an association list; the mutex covers it, but not the insert
-- behind a change. A row written to fault_events is appended to `fault_events`, in the order of its id.
pub mod Log
pub mod Interleaved
pub mod Handlers
pub mod Context
pub mod Api
pub mod Names
pub mod Tests
use monitower.Prelude.{
  ℕ, Bool, true, false, ◌&&◌, ◌==◌, if◌then◌else◌, String, List, [], ◌∷◌, ◌++◌, map, Option, none,
  some, string_eq, is_some,
}
use monitower.Prelude.Dict.{lookup, insert, erase}
use monitower.Float64.{Float64, of_int, literal}

abbrev pub FaultType : Type 0
FaultType = String

abbrev pub fault_poison_pill : FaultType
fault_poison_pill = "poison-pill"

abbrev pub fault_downstream_timeout : FaultType
fault_downstream_timeout = "downstream-timeout"

abbrev pub fault_traffic_spike : FaultType
fault_traffic_spike = "traffic-spike"

abbrev pub fault_cascading_failure : FaultType
fault_cascading_failure = "cascading-failure"

abbrev pub fault_intermittent_errors : FaultType
fault_intermittent_errors = "intermittent-errors"

abbrev pub fault_notification_failure : FaultType
fault_notification_failure = "notification-failure"

pub record FaultContext (W : Type 0) : Type 0 where
  pub should_drop_message : Bool
  pub processing_delay_ms : ℕ
  pub should_crash : Bool
  pub error_probability : W
  pub throughput_multiplier : W

pub record ActiveFault : Type 0 where
  pub fault_type : FaultType
  pub origin : String

-- A row of fault_events.
pub record FaultEventRow : Type 0 where
  pub ts : ℕ
  pub fault_type : FaultType
  pub action : String
  pub origin : String

pub record FaultEngine : Type 0 where
  pub active : List (FaultType × String)
  pub fault_events : List FaultEventRow

-- What the world gives one insert: the clock, and whether the database accepts the row. The code
-- drops the error of a refused insert.
pub record Exec : Type 0 where
  pub now : ℕ
  pub accepted : Bool

unfoldable pub new_fault_engine : FaultEngine
new_fault_engine = record { active = []; fault_events = [] }

unfoldable pub write_fault_event : Exec → FaultType → String → String → FaultEngine → FaultEngine
write_fault_event x fault action origin e =
    let row : FaultEventRow = record {
      ts = x.now;
      fault_type = fault;
      action = action;
      origin = origin;
    } in
    if x.accepted then record e { fault_events = e.fault_events ++ row ∷ [] } else e

-- The row that a call has to insert after it has released the mutex.
pub record Change : Type 0 where
  pub fault_type : FaultType
  pub action : String
  pub origin : String

-- The locked part of `Activate`, and the change if the fault was not active.
unfoldable pub activate_locked : FaultType → String → FaultEngine → FaultEngine × Option Change
activate_locked fault origin e = if is_some (lookup fault e.active) then (e, none) else (
  record e { active = insert fault origin e.active },
  some (record { fault_type = fault; action = "start"; origin = origin }),
)

-- The zero value of a missing key is the empty text.
abbrev pub origin_of : Option String → String
origin_of (some origin) = origin
origin_of none = ""

-- The locked part of `Deactivate`, and its change.
unfoldable pub deactivate_locked : FaultType → FaultEngine → FaultEngine × Change
deactivate_locked fault e = (
  record e { active = erase fault e.active },
  record { fault_type = fault; action = "stop"; origin = origin_of (lookup fault e.active) },
)

unfoldable pub write_change : Exec → Option Change → FaultEngine → FaultEngine
unfolding write_fault_event
write_change x none e = e
write_change x (some c) e = write_fault_event x c.fault_type c.action c.origin e

-- Whole calls, when no other call comes between the mutex and the insert.
unfoldable pub activate : Exec → FaultType → String → FaultEngine → FaultEngine
unfolding activate_locked write_change
activate x fault origin e =
    let (e', change) = activate_locked fault origin e in write_change x change e'

unfoldable pub deactivate : Exec → FaultType → FaultEngine → FaultEngine
unfolding deactivate_locked write_change
deactivate x fault e =
    let (e', change) = deactivate_locked fault e in write_change x (some change) e'

unfoldable pub is_fault_active : FaultEngine → FaultType → Bool
is_fault_active e fault = is_some (lookup fault e.active)

unfoldable pub get_active_faults : FaultEngine → List ActiveFault
get_active_faults e = map (λ (f, origin). record { fault_type = f; origin = origin }) e.active

module _ {W : Type 0} ⦃d : Float64 W⦄ where
  -- `var ctx FaultContext`
  unfoldable pub zero_context : FaultContext W
  zero_context = record {
    should_drop_message = false;
    processing_delay_ms = 0;
    should_crash = false;
    error_probability = of_int 0;
    throughput_multiplier = of_int 0;
  }

  unfoldable pub apply : FaultType → String → FaultContext W → FaultContext W
  apply fault service ctx =
      if fault == fault_poison_pill
      then (if service == "payment" then record ctx { error_probability = literal 10 1 } else ctx)
      else if fault == fault_downstream_timeout
      then (if service == "payment" then record ctx { processing_delay_ms = 8000 } else ctx)
      else if fault == fault_traffic_spike
      then (if service == "api-gateway"
          then record ctx { throughput_multiplier = literal 100 1 }
          else ctx)
      else if fault == fault_cascading_failure
      then (if service == "payment" then record ctx { should_crash = true } else ctx)
      else if fault == fault_intermittent_errors
      then record ctx { error_probability = literal 15 2 }
      else if fault == fault_notification_failure
      then (if service == "notification"
          then record ctx { error_probability = literal 10 1 }
          else ctx)
      else ctx

  -- The loop over the active faults, in the order in which `range` visits them.
  unfoldable pub apply_all : String → List FaultType → FaultContext W → FaultContext W
  unfolding apply
  apply_all service [] ctx = ctx
  apply_all service (fault ∷ order) ctx = apply_all service order (apply fault service ctx)

  -- `order` is the order of this `range` over the map: some permutation of its keys.
  unfoldable pub get_fault_context : List FaultType → String → FaultContext W
  unfolding apply_all zero_context
  get_fault_context order service = apply_all service order zero_context
