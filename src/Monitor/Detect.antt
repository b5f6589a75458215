-- ===== src/Monitor/Detect.antt =====
-- The anomaly detectors of internal/monitor/anomaly.go.
-- The map of the best signals is an association list, whose order is one order of the `range` at the
-- end. `abs_float` stands for `math.Abs`: the two differ in the sign of a zero, which no comparison sees.
pub mod Best
pub mod Services
pub mod Queues
pub mod Tests
use Prim.Native.String.{◌++◌ as concat}
use monitower.Prelude.{
  ℕ, Bool, true, false, ◌&&◌, ◌==◌, if◌then◌else◌, String, List, [], ◌∷◌, map, Option, none, some,
  string_eq,
}
use monitower.Prelude.Dict.{lookup, insert}
use monitower.Float64.{Float64, lt, le, eq, of_int, literal, add, sub, mul, div, abs_float}
use monitower.Monitor.Signal.{AnomalySignal}
use monitower.Monitor.Baselines.{Baselines, Stats, service_metric_stats, queue_metric_stats}

pub record ServiceRow (W : Type 0) : Type 0 where
  pub ts : ℕ
  pub service : String
  pub throughput : W
  pub error_rate : W
  pub p50_latency : W
  pub p99_latency : W
  pub active_faults : String

pub record QueueRow (W : Type 0) : Type 0 where
  pub ts : ℕ
  pub queue : String
  pub depth : W
  pub enqueue_rate : W
  pub dequeue_rate : W
  pub dlq : Bool

module _ {W : Type 0} ⦃f : Float64 W⦄ where
  unfoldable pub deviation : W → W → W → W
  deviation value mean stddev =
      if eq stddev (of_int 0) then of_int 0 else div (sub value mean) stddev

  abbrev pub service_signal : ServiceRow W → String → W → Stats W → String → AnomalySignal W
  service_signal r metric value s direction = record {
    ts = r.ts;
    service = r.service;
    queue = "";
    metric = metric;
    value = value;
    baseline = s.mean;
    deviation = deviation value s.mean s.stddev;
    direction = direction;
  }

  -- Above the threshold and at least the floor.
  abbrev pub is_high : W → W → W → Stats W → Bool
  is_high floor sigmas value s = lt (add s.mean (mul sigmas s.stddev)) value && le floor value

  -- `switch metric`
  unfoldable pub signal_of : ServiceRow W → String → W → Stats W → Option (AnomalySignal W)
  unfolding deviation
  signal_of r metric value s =
      if metric == "error_rate"
      then (if is_high (literal 10 2) (of_int 3) value s
          then some (service_signal r metric value s "high")
          else none)
      else if metric == "p99_latency"
      then (if is_high (of_int 500) (of_int 3) value s
          then some (service_signal r metric value s "high")
          else none)
      else if metric == "throughput"
      then (if lt value (sub s.mean (mul (of_int 2) s.stddev)) && lt value (literal 5 1)
          then some (service_signal r metric value s "low")
          else none)
      else none

  abbrev pub is_stronger : AnomalySignal W → Option (AnomalySignal W) → Bool
  is_stronger sig none = true
  is_stronger sig (some existing) = lt (abs_float existing.deviation) (abs_float sig.deviation)

  -- `best[key] = sig`, unless there is one that deviates as much.
  unfoldable pub keep_best :
      String → AnomalySignal W → List (String × AnomalySignal W) → List (String × AnomalySignal W)
  keep_best key sig best = if is_stronger sig (lookup key best) then insert key sig best else best

  abbrev pub keep_if_some :
      String
      → Option (AnomalySignal W)
      → List (String × AnomalySignal W)
      → List (String × AnomalySignal W)
  keep_if_some key none best = best
  keep_if_some key (some sig) best = keep_best key sig best

  -- The closure `check` of one row.
  unfoldable pub check_metric :
      Baselines W
      → ServiceRow W
      → String
      → W
      → List (String × AnomalySignal W)
      → List (String × AnomalySignal W)
  unfolding signal_of keep_best
  check_metric bs r metric value best =
      let s = service_metric_stats r.service metric bs in
      let key = concat r.service (concat ":" metric) in
      if s.valid then keep_if_some key (signal_of r metric value s) best else best

  unfoldable pub check_row :
      Baselines W → ServiceRow W → List (String × AnomalySignal W) → List (String × AnomalySignal W)
  unfolding check_metric
  check_row bs r best = check_metric bs r "throughput" r.throughput (
      check_metric bs r "p99_latency" r.p99_latency
        (check_metric bs r "error_rate" r.error_rate best))

  unfoldable pub check_rows :
      Baselines W
      → List (ServiceRow W)
      → List (String × AnomalySignal W)
      → List (String × AnomalySignal W)
  unfolding check_row
  check_rows bs [] best = best
  check_rows bs (r ∷ rows) best = check_rows bs rows (check_row bs r best)

  unfoldable pub detect_service_anomalies :
      List (ServiceRow W) → Baselines W → List (AnomalySignal W)
  unfolding check_rows
  detect_service_anomalies rows bs = map (λ (key, s). s) (check_rows bs rows [])

  abbrev pub dlq_signal : QueueRow W → AnomalySignal W
  dlq_signal r = record {
    ts = r.ts;
    service = "";
    queue = r.queue;
    metric = "dlq_depth";
    value = r.depth;
    baseline = of_int 0;
    deviation = r.depth;
    direction = "high";
  }

  abbrev pub depth_signal : QueueRow W → Stats W → AnomalySignal W
  depth_signal r s = record {
    ts = r.ts;
    service = "";
    queue = r.queue;
    metric = "queue_depth";
    value = r.depth;
    baseline = s.mean;
    deviation = deviation r.depth s.mean s.stddev;
    direction = "high";
  }

  abbrev pub is_deeper : QueueRow W → Option (AnomalySignal W) → Bool
  is_deeper r none = true
  is_deeper r (some existing) = lt existing.value r.depth

  unfoldable pub check_queue :
      Baselines W → QueueRow W → List (String × AnomalySignal W) → List (String × AnomalySignal W)
  unfolding deviation keep_best
  check_queue bs r best =
      let dlq_key = concat r.queue ":dlq_depth" in
      let key = concat r.queue ":queue_depth" in
      let s = queue_metric_stats r.queue "depth" bs in
      if r.dlq && lt (of_int 0) r.depth
      then (if is_deeper r (lookup dlq_key best) then insert dlq_key (dlq_signal r) best else best)
      else if s.valid && is_high (of_int 20) (of_int 2) r.depth s
      then keep_best key (depth_signal r s) best
      else best

  unfoldable pub check_queues :
      Baselines W
      → List (QueueRow W)
      → List (String × AnomalySignal W)
      → List (String × AnomalySignal W)
  unfolding check_queue
  check_queues bs [] best = best
  check_queues bs (r ∷ rows) best = check_queues bs rows (check_queue bs r best)

  unfoldable pub detect_queue_anomalies : List (QueueRow W) → Baselines W → List (AnomalySignal W)
  unfolding check_queues
  detect_queue_anomalies rows bs = map (λ (key, s). s) (check_queues bs rows [])
