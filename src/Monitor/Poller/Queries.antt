-- ===== src/Monitor/Poller/Queries.antt =====
-- The reads of a cycle (the query helpers of internal/monitor/poller.go) over the tables that the
-- simulator writes.
-- `by_ts` stands for ORDER BY ts ASC; `answers` says of the three queries whether the database answers.
use monitower.Prelude.{
  ℕ, suc, ◌-◌, Bool, leb, ◌==◌, if◌then◌else◌, List, [], ◌∷◌, map, Option, none, some, nat_eq,
}
use monitower.Prelude.Int.{ℤ, pos, negsuc}
use monitower.Float64.{Float64, of_int}
use monitower.Simulator.Fault.{FaultEventRow}
use monitower.Simulator.Queue.{QueueMetricsRow}
use monitower.Simulator.Metrics.{ServiceMetricsRow}
use monitower.Monitor.Detect.{ServiceRow, QueueRow}
use monitower.Monitor.Correlator.{FaultEvent}
use monitower.Monitor.Poller.{Reads}

pub record Database (W : Type 0) : Type 0 where
  pub service_metrics : List (ServiceMetricsRow W)
  pub queue_metrics : List (QueueMetricsRow W)
  pub fault_events : List FaultEventRow

pub record Answers : Type 0 where
  pub services : Bool
  pub queues : Bool
  pub faults : Bool

-- `WHERE ts >= ?`
abbrev pub since {ℓ} : {A : Type ℓ} → (A → ℕ) → ℕ → List A → List A
since ts_of since_ts [] = []
since ts_of since_ts (x ∷ xs) =
    let rest = since ts_of since_ts xs in if leb since_ts (ts_of x) then x ∷ rest else rest

module _ {W : Type 0} where
  abbrev pub scan_service_row : ServiceMetricsRow W → ServiceRow W
  scan_service_row r = record {
    ts = r.ts;
    service = r.service;
    throughput = r.throughput;
    error_rate = r.error_rate;
    p50_latency = r.p50_latency;
    p99_latency = r.p99_latency;
    active_faults = r.active_faults;
  }

  unfoldable pub query_service_metrics :
      (List (ServiceMetricsRow W) → List (ServiceMetricsRow W))
      → Bool
      → ℕ
      → List (ServiceMetricsRow W)
      → Option (List (ServiceRow W))
  query_service_metrics by_ts answers since_ts table =
      if answers
      then some (map scan_service_row (by_ts (since (λ r. r.ts) since_ts table)))
      else none

module _ {W : Type 0} ⦃f : Float64 W⦄ where
  -- An INTEGER column that is scanned into a float64.
  abbrev pub float_of_ℤ : ℤ → W
  float_of_ℤ (pos n) = of_int n
  float_of_ℤ (negsuc n) = f.neg (of_int (suc n))

  abbrev pub scan_queue_row : QueueMetricsRow W → QueueRow W
  scan_queue_row r = record {
    ts = r.ts;
    queue = r.queue;
    depth = float_of_ℤ r.depth;
    enqueue_rate = r.enqueue_rate;
    dequeue_rate = r.dequeue_rate;
    dlq = r.dlq == 1;
  }

  unfoldable pub query_queue_metrics :
      (List (QueueMetricsRow W) → List (QueueMetricsRow W))
      → Bool
      → ℕ
      → List (QueueMetricsRow W)
      → Option (List (QueueRow W))
  query_queue_metrics by_ts answers since_ts table =
      if answers then some (map scan_queue_row (by_ts (since (λ r. r.ts) since_ts table))) else none

abbrev pub scan_fault_event : FaultEventRow → FaultEvent
scan_fault_event r = record {
  ts = r.ts;
  fault_type = r.fault_type;
  action = r.action;
  origin = r.origin;
}

unfoldable pub query_recent_fault_events :
    (List FaultEventRow → List FaultEventRow)
    → Bool
    → ℕ
    → List FaultEventRow
    → Option (List FaultEvent)
query_recent_fault_events by_ts answers since_ts table =
    if answers then some (map scan_fault_event (by_ts (since (λ r. r.ts) since_ts table))) else none

-- The orders that the three queries return their rows in.
pub record Orders (W : Type 0) : Type 0 where
  pub services : List (ServiceMetricsRow W) → List (ServiceMetricsRow W)
  pub queues : List (QueueMetricsRow W) → List (QueueMetricsRow W)
  pub faults : List FaultEventRow → List FaultEventRow

-- What a cycle at `now` reads: the metrics of 30 seconds and the fault events of 10.
unfoldable pub read_all :
    {W : Type 0} ⦃f : Float64 W⦄ → Orders W → Answers → ℕ → Database W → Reads W
unfolding query_service_metrics query_queue_metrics query_recent_fault_events
read_all by_ts answers now d = record {
  service_rows =
      query_service_metrics by_ts.services answers.services (now - 30000) d.service_metrics;
  queue_rows = query_queue_metrics by_ts.queues answers.queues (now - 30000) d.queue_metrics;
  fault_events = query_recent_fault_events by_ts.faults answers.faults (now - 10000) d.fault_events;
}
