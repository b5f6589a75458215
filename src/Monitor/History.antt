-- ===== src/Monitor/History.antt =====
-- The metrics history of internal/monitor/api.go: the handler and the query behind it.
-- `by_ts` stands for ORDER BY ts ASC, on what the query selects; `answers` says whether the database
-- answers the query.
pub mod Points
pub mod Tests
use monitower.Prelude.{
  ℕ, Bool, true, false, ◌&&◌, ◌||◌, ◌==◌, if◌then◌else◌, String, List, [], ◌∷◌, Option, none, some,
  string_eq,
}
use monitower.Prelude.Int.{ℤ, pos, ◌-ℤ◌, ◌*ℤ◌, leb_ℤ}
use monitower.Prelude.Decimal.{wrap_int64}
use monitower.Float64.{Float64}
use monitower.Simulator.Queue.{QueueMetricsRow}
use monitower.Simulator.Metrics.{ServiceMetricsRow}
use monitower.Monitor.Poller.Queries.{Database, float_of_ℤ}
use monitower.Monitor.Api.{
  Request, MetricPoint, Response, points, query_int, success, method_not_allowed, internal_error,
}

-- `WHERE service=? AND ts>=?`, without the first test if no service is asked for.
abbrev pub is_wanted : String → ℤ → String → ℕ → Bool
is_wanted service since_ts name ts = (service == "" || name == service) && leb_ℤ since_ts (pos ts)

abbrev pub metric_or_throughput : String → String
metric_or_throughput metric = if metric == "" then "throughput" else metric

-- `nowMs - int64(windowSec)*1000`, in int64
unfoldable pub since_of : ℕ → ℤ → ℤ
unfolding wrap_int64
since_of now window = wrap_int64 (pos now -ℤ wrap_int64 (window *ℤ pos 1000))

module _ {W : Type 0} where
  -- The column of a metric of a service, if it is one.
  unfoldable pub service_column : String → Option (ServiceMetricsRow W → W)
  service_column metric =
      if metric == "throughput"
      then some (λ r. r.throughput)
      else if metric == "error_rate"
      then some (λ r. r.error_rate)
      else if metric == "p50_latency"
      then some (λ r. r.p50_latency)
      else if metric == "p99_latency"
      then some (λ r. r.p99_latency)
      else none

  abbrev pub service_points :
      String → ℤ → (ServiceMetricsRow W → W) → List (ServiceMetricsRow W) → List (MetricPoint W)
  service_points service since_ts column [] = []
  service_points service since_ts column (r ∷ rows) =
      let rest = service_points service since_ts column rows in
      if is_wanted service since_ts r.service r.ts
      then record { ts = r.ts; value = column r } ∷ rest
      else rest

module _ {W : Type 0} ⦃f : Float64 W⦄ where
  unfoldable pub queue_column : String → Option (QueueMetricsRow W → W)
  queue_column metric =
      if metric == "depth"
      then some (λ r. float_of_ℤ r.depth)
      else if metric == "enqueue_rate"
      then some (λ r. r.enqueue_rate)
      else if metric == "dequeue_rate"
      then some (λ r. r.dequeue_rate)
      else none

  abbrev pub queue_points :
      String → ℤ → (QueueMetricsRow W → W) → List (QueueMetricsRow W) → List (MetricPoint W)
  queue_points service since_ts column [] = []
  queue_points service since_ts column (r ∷ rows) =
      let rest = queue_points service since_ts column rows in
      if is_wanted service since_ts r.queue r.ts
      then record { ts = r.ts; value = column r } ∷ rest
      else rest

  abbrev pub queue_history :
      String → ℤ → Option (QueueMetricsRow W → W) → Database W → Option (List (MetricPoint W))
  queue_history service since_ts none d = none
  queue_history service since_ts (some column) d =
      some (queue_points service since_ts column d.queue_metrics)

  abbrev pub history :
      String
      → ℤ
      → Option (ServiceMetricsRow W → W)
      → Option (QueueMetricsRow W → W)
      → Database W
      → Option (List (MetricPoint W))
  history service since_ts none queue d = queue_history service since_ts queue d
  history service since_ts (some column) queue d =
      some (service_points service since_ts column d.service_metrics)

  -- What the query selects, `none` for a metric that neither table has.
  unfoldable pub selected : String → String → ℤ → Database W → Option (List (MetricPoint W))
  unfolding service_column queue_column
  selected service metric since_ts d =
      history service since_ts (service_column metric) (queue_column metric) d

  -- The points, `none` for an error. Nothing is asked of the database for an unknown metric.
  abbrev pub answered :
      (List (MetricPoint W) → List (MetricPoint W))
      → Bool
      → Option (List (MetricPoint W))
      → Option (List (MetricPoint W))
  answered by_ts answers none = some []
  answered by_ts true (some chosen) = some (by_ts chosen)
  answered by_ts false (some chosen) = none

  unfoldable pub query_metrics_history :
      (List (MetricPoint W) → List (MetricPoint W))
      → Bool
      → String
      → String
      → ℤ
      → Database W
      → Option (List (MetricPoint W))
  unfolding selected
  query_metrics_history by_ts answers service metric since_ts d =
      answered by_ts answers (selected service metric since_ts d)

  abbrev pub points_or_error : Option (List (MetricPoint W)) → Response W
  points_or_error none = internal_error
  points_or_error (some ps) = success (points ps)

  unfoldable pub handle_metrics_history :
      (List (MetricPoint W) → List (MetricPoint W)) → Bool → ℕ → Request → Database W → Response W
  unfolding query_int query_metrics_history since_of
  handle_metrics_history by_ts answers now r d =
      if r.method == "GET"
      then points_or_error (
          query_metrics_history by_ts answers (r.query "service")
            (metric_or_throughput (r.query "metric"))
            (since_of now (query_int r "window" (pos 300))) d)
      else method_not_allowed
