-- ===== src/Monitor/History/Tests.antt =====
-- Histories of concrete rows.
use mathlib.Core.List.{Permᴰ}
use monitower.Prelude.{
  ◌+◌, ◌*◌, ◌^◌, ◌-◌, true, List, [], ◌∷◌, some, Memᴰ, ◌≡◌, ◌↔◌, refl, arith, string_eq, nat_eq,
}
use monitower.Prelude.Int.{pos, negsuc, sub_ℕ}
use monitower.Float64.{of_int}
use monitower.Float64.Hundredths.{Hundredths, hundredths_float}
use monitower.Simulator.Metrics.{ServiceMetricsRow}
use monitower.Monitor.Poller.Queries.{Database}
use monitower.Monitor.Poller.Tests.{as_given}
use monitower.Monitor.Api.{MetricPoint}
use monitower.Monitor.History.{since_of, query_metrics_history}
use monitower.Monitor.History.Points.{
  IsPoint, ServiceMetric, since_of-exact, query_metrics_history-IsPoint,
}

abbrev row : ServiceMetricsRow Hundredths
row = record {
  ts = 5000;
  service = "order";
  throughput = of_int 4;
  error_rate = of_int 0;
  p50_latency = of_int 70;
  p99_latency = of_int 90;
  active_faults = "";
}

abbrev database : Database Hundredths
database = record {
  service_metrics = row ∷ record row { service = "payment" } ∷ record row { ts = 7000 } ∷ [];
  queue_metrics = [];
  fault_events = [];
}

abbrev point : MetricPoint Hundredths
point = record { ts = 7000; value = of_int 4 }

two_points :
    query_metrics_history as_given true "order" "throughput" (pos 5000) database
    ≡ some (record { ts = 5000; value = of_int 4 } ∷ point ∷ [])
unfolding query_metrics_history
two_points = refl

unknown_metric : query_metrics_history as_given true "order" "latency" (pos 5000) database ≡ some []
unfolding query_metrics_history
unknown_metric = refl

-- The product with 1000 wraps around to -1000, so the cutoff lies after the present.
huge_window : since_of 1700000000000 (pos (2 ^ 63 - 1)) ≡ pos 1700000001000
unfolding since_of
huge_window = refl

since_of-exact_example :
    (since_of 9000 (pos 300) ≡ sub_ℕ 9000 (300 * 1000))
    × (since_of 9000 (negsuc 300) ≡ pos (9000 + (300 + 1) * 1000))
since_of-exact_example = since_of-exact 9000 300 (omega arith) (omega arith)

query_metrics_history-IsPoint_example :
    (ps : List (MetricPoint Hundredths)) × (query_metrics_history as_given true "order" "throughput"
        (pos 6000)
        database
      ≡ some ps)
    × (Memᴰ point ps
        ↔ IsPoint "order" (pos 6000) (λ r. r.throughput) database.service_metrics point)
query_metrics_history-IsPoint_example =
    query_metrics_history-IsPoint as_given "order" "throughput" (pos 6000) database
      (λ r. r.throughput) point (Permᴰ.cons refl Permᴰ.nil) ServiceMetric.throughput
