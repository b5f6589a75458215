-- ===== src/Simulator/Fulfillment/Metrics.antt =====
-- The flush of the counters of the fulfillment service (writeMetrics of internal/simulator/fulfillment_service.go), and its tick.
use monitower.Prelude.{ℕ, String, List, [], Option}
use monitower.Float64.{Float64}
use monitower.Simulator.Fault.{FaultEngine}
use monitower.Simulator.Metrics.{ServiceMetricsRow, metrics_row, force_elapsed}
use monitower.Simulator.Queue.{Queue}
use monitower.Simulator.Payment.{poll}
use monitower.Simulator.Fulfillment.{FulfillmentService}

module _ {W : Type 0} where
  unfoldable pub new_fulfillment_service : FulfillmentService W
  new_fulfillment_service = record { processed = 0; errors = 0; total_msgs = 0; latencies = [] }

  unfoldable pub reset_counters : FulfillmentService W → FulfillmentService W
  reset_counters s = record s { processed = 0; errors = 0; total_msgs = 0; latencies = [] }

module _ {W : Type 0} ⦃f : Float64 W⦄ where
  -- The service after the flush, and the row that it inserts; `none` if it panics after the reset.
  unfoldable pub write_metrics :
      FaultEngine
      → ℕ
      → ℕ
      → FulfillmentService W
      → FulfillmentService W × Option (ServiceMetricsRow W)
  unfolding reset_counters metrics_row
  write_metrics engine ts elapsed s = (
    reset_counters s,
    metrics_row engine ts "fulfillment" elapsed s.processed s.errors s.total_msgs s.latencies,
  )

  -- The flush on demand; `now` and `last_flush_at` are the times since some start.
  unfoldable pub force_write_metrics :
      FaultEngine
      → ℕ
      → ℕ
      → ℕ
      → FulfillmentService W
      → FulfillmentService W × Option (ServiceMetricsRow W)
  unfolding write_metrics force_elapsed
  force_write_metrics engine ts now last_flush_at s =
      write_metrics engine ts (force_elapsed now last_flush_at) s

-- A tick: the queue after it, and the messages whose processing it starts.
unfoldable pub process_tick : Queue → Queue × List String
unfolding poll
process_tick q = poll 3 q
