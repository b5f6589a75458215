-- ===== src/Simulator/Payment/Metrics.antt =====
-- The flush of the counters of the payment service (writeMetrics of internal/simulator/payment_service.go), and its restart.
use monitower.Prelude.{ℕ, false, [], Option}
use monitower.Float64.{Float64}
use monitower.Simulator.Fault.{FaultEngine}
use monitower.Simulator.Metrics.{ServiceMetricsRow, metrics_row, force_elapsed}
use monitower.Simulator.Payment.{PaymentService}

module _ {W : Type 0} where
  unfoldable pub new_payment_service : PaymentService W
  new_payment_service = record {
    crashed = false;
    processed = 0;
    errors = 0;
    total_msgs = 0;
    latencies = [];
    in_flight = [];
    payment_queue = [];
    dlq_queue = [];
  }

  unfoldable pub restart : PaymentService W → PaymentService W
  restart s = record s { crashed = false }

  unfoldable pub reset_counters : PaymentService W → PaymentService W
  reset_counters s = record s { processed = 0; errors = 0; total_msgs = 0; latencies = [] }

module _ {W : Type 0} ⦃f : Float64 W⦄ where
  -- The service after the flush, and the row that it inserts; `none` if it panics after the reset.
  unfoldable pub write_metrics :
      FaultEngine → ℕ → ℕ → PaymentService W → PaymentService W × Option (ServiceMetricsRow W)
  unfolding reset_counters metrics_row
  write_metrics engine ts elapsed s = (
    reset_counters s,
    metrics_row engine ts "payment" elapsed s.processed s.errors s.total_msgs s.latencies,
  )

  -- The flush on demand; `now` and `last_flush_at` are the times since some start.
  unfoldable pub force_write_metrics :
      FaultEngine → ℕ → ℕ → ℕ → PaymentService W → PaymentService W × Option (ServiceMetricsRow W)
  unfolding write_metrics force_elapsed
  force_write_metrics engine ts now last_flush_at s =
      write_metrics engine ts (force_elapsed now last_flush_at) s
