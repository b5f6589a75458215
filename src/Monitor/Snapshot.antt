-- ===== src/Monitor/Snapshot.antt =====
-- The state snapshot that the poller builds (buildSnapshot of internal/monitor/poller.go), with the
-- status of a service and of a queue (internal/monitor/incidents.go).
pub mod Latest
pub mod Statuses
pub mod Reports
pub mod FaultNames
pub mod Tests
use monitower.Prelude.{
  ℕ, Bool, true, false, not, ◌||◌, ◌==◌, ltb, if◌then◌else◌, String, List, [], ◌∷◌, Option, none,
  some, map, string_eq,
}
use monitower.Prelude.Dict.{lookup, insert}
use monitower.Prelude.Text.{split, trim_space}
use monitower.Float64.{Float64}
use monitower.Monitor.Signal.{AnomalySignal}
use monitower.Monitor.Baselines.{Baselines, service_metric_stats}
use monitower.Monitor.Detect.{ServiceRow, QueueRow}
use monitower.Monitor.Correlator.{Correlator, active_signals}
use monitower.Monitor.Incidents.{Incident}

pub record ServiceStatus (W : Type 0) : Type 0 where
  pub name : String
  pub throughput : W
  pub error_rate : W
  pub p50_latency : W
  pub p99_latency : W
  pub status : String
  pub active_faults : List String

pub record QueueStatus (W : Type 0) : Type 0 where
  pub name : String
  pub depth : W
  pub enqueue_rate : W
  pub dequeue_rate : W
  pub is_dlq : Bool

pub record StateSnapshot (W : Type 0) : Type 0 where
  pub ts : ℕ
  pub services : List (ServiceStatus W)
  pub queues : List (QueueStatus W)
  pub incidents : List Incident
  pub baseline_ready : Bool

-- The loop over the parts of the text: each is trimmed, and kept if something is left.
unfoldable pub trimmed_parts : List String → List String
unfolding trim_space
trimmed_parts [] = []
trimmed_parts (part ∷ parts) =
    let rest = trimmed_parts parts in
    let name = trim_space part in if name == "" then rest else name ∷ rest

unfoldable pub parse_faults : String → List String
unfolding trimmed_parts split
parse_faults active_faults =
    if active_faults == "" then [] else trimmed_parts (split 44 active_faults)

-- A missing key of a `map[string]bool` reads as false.
abbrev pub or_false : Option Bool → Bool
or_false none = false
or_false (some b) = b

module _ {W : Type 0} where
  unfoldable pub build_service_status : ServiceRow W → List (String × Bool) → ServiceStatus W
  unfolding parse_faults
  build_service_status row anomalous = record {
    name = row.service;
    throughput = row.throughput;
    error_rate = row.error_rate;
    p50_latency = row.p50_latency;
    p99_latency = row.p99_latency;
    status = if or_false (lookup row.service anomalous) then "degraded" else "healthy";
    active_faults = parse_faults row.active_faults;
  }

  unfoldable pub build_queue_status : QueueRow W → QueueStatus W
  build_queue_status row = record {
    name = row.queue;
    depth = row.depth;
    enqueue_rate = row.enqueue_rate;
    dequeue_rate = row.dequeue_rate;
    is_dlq = row.dlq;
  }

  -- The services with an active signal of their own.
  unfoldable pub mark_anomalous :
      List (AnomalySignal W) → List (String × Bool) → List (String × Bool)
  mark_anomalous [] anomalous = anomalous
  mark_anomalous (sig ∷ sigs) anomalous =
      mark_anomalous sigs
        (if sig.service == "" then anomalous else insert sig.service true anomalous)

  -- A row is kept if it is the first of its service, or newer than the one that is kept.
  abbrev pub is_newer : ℕ → Option (ServiceRow W) → Bool
  is_newer ts none = true
  is_newer ts (some existing) = ltb existing.ts ts

  unfoldable pub latest_service :
      List (ServiceRow W) → List (String × ServiceRow W) → List (String × ServiceRow W)
  latest_service [] latest = latest
  latest_service (r ∷ rows) latest =
      latest_service rows
        (if is_newer r.ts (lookup r.service latest) then insert r.service r latest else latest)

  abbrev pub is_newer_queue : ℕ → Option (QueueRow W) → Bool
  is_newer_queue ts none = true
  is_newer_queue ts (some existing) = ltb existing.ts ts

  unfoldable pub latest_queue :
      List (QueueRow W) → List (String × QueueRow W) → List (String × QueueRow W)
  latest_queue [] latest = latest
  latest_queue (r ∷ rows) latest =
      latest_queue rows
        (if is_newer_queue r.ts (lookup r.queue latest) then insert r.queue r latest else latest)

abbrev pub known_services : List String
known_services = "order" ∷ "payment" ∷ "fulfillment" ∷ "notification" ∷ []

module _ {W : Type 0} ⦃f : Float64 W⦄ where
  unfoldable pub some_baseline_valid : Baselines W → List String → Bool
  unfolding service_metric_stats
  some_baseline_valid bs [] = false
  some_baseline_valid bs (svc ∷ services) =
      (service_metric_stats svc "error_rate" bs).valid || some_baseline_valid bs services

  unfoldable pub build_snapshot :
      ℕ
      → List (ServiceRow W)
      → List (QueueRow W)
      → List Incident
      → Baselines W
      → Correlator W
      → StateSnapshot W
  unfolding build_service_status build_queue_status mark_anomalous latest_service latest_queue
      some_baseline_valid active_signals
  build_snapshot now service_rows queue_rows actives baselines correlator =
      let anomalous = mark_anomalous (active_signals correlator) [] in
      record {
        ts = now;
        services =
            map (λ (svc, r). build_service_status r anomalous) (latest_service service_rows []);
        queues = map (λ (name, r). build_queue_status r) (latest_queue queue_rows []);
        incidents = actives;
        baseline_ready = some_baseline_valid baselines known_services;
      }
