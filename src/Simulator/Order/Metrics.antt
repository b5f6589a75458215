-- ===== src/Simulator/Order/Metrics.antt =====
-- The flush of the counters of the order service (writeMetrics of internal/simulator/order_service.go).
use monitower.Prelude.{ℕ, [], Option}
use monitower.Float64.{Float64}
use monitower.Simulator.Fault.{FaultEngine}
use monitower.Simulator.Metrics.{ServiceMetricsRow, metrics_row, force_elapsed}
use monitower.Simulator.Order.{OrderService}

module _ {W : Type 0} where
  unfoldable pub new_order_service : OrderService W
  new_order_service = record {
    enqueued = 0;
    errors = 0;
    total_reqs = 0;
    latencies = [];
    queue = [];
  }

  unfoldable pub reset_counters : OrderService W → OrderService W
  reset_counters s = record s { enqueued = 0; errors = 0; total_reqs = 0; latencies = [] }

module _ {W : Type 0} ⦃f : Float64 W⦄ where
  -- The service after the flush, and the row that it inserts; `none` if it panics after the reset.
  unfoldable pub write_metrics :
      FaultEngine → ℕ → ℕ → OrderService W → OrderService W × Option (ServiceMetricsRow W)
  unfolding reset_counters metrics_row
  write_metrics engine ts elapsed s = (
    reset_counters s,
    metrics_row engine ts "order" elapsed s.enqueued s.errors s.total_reqs s.latencies,
  )

  -- The flush on demand; `now` and `last_flush_at` are the times since some start.
  unfoldable pub force_write_metrics :
      FaultEngine → ℕ → ℕ → ℕ → OrderService W → OrderService W × Option (ServiceMetricsRow W)
  unfolding write_metrics force_elapsed
  force_write_metrics engine ts now last_flush_at s =
      write_metrics engine ts (force_elapsed now last_flush_at) s
