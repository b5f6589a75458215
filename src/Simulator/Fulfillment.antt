-- ===== src/Simulator/Fulfillment.antt =====
-- The fulfillment service of internal/simulator/fulfillment_service.go: one message with its retries.
-- `unmarshal` stands for json.Unmarshal into a paymentMessage; what an attempt meets in the world is an
-- argument, as for the payment service. The counters are under one lock.
pub mod Counts
pub mod Metrics
pub mod Tests
use monitower.Prelude.{
  ℕ, zero, suc, ◌+◌, ◌%◌, Bool, true, false, ◌&&◌, ◌==◌, not, ltb, if◌then◌else◌, String, List, [],
  ◌∷◌, ◌++◌, Option, none, some, string_eq,
}
use monitower.Float64.{Float64, of_int, lt}
use monitower.Simulator.Payment.{PaymentMessage}

pub record FulfillmentService (W : Type 0) : Type 0 where
  pub processed : ℕ
  pub errors : ℕ
  pub total_msgs : ℕ
  pub latencies : List W

pub record Attempt (W : Type 0) : Type 0 where
  pub random : ℕ
  pub overrun_ms : ℕ
  pub sleep_cancelled : Bool
  pub error_probability : W
  pub dice : W
  pub backoff_cancelled : Bool

abbrev pub max_attempts : ℕ
max_attempts = 3

module _ {W : Type 0} where
  -- The lines that count an error, at both places.
  unfoldable pub count_error : FulfillmentService W → FulfillmentService W
  count_error s = record s { errors = s.errors + 1; total_msgs = s.total_msgs + 1 }

  unfoldable pub count_declined : FulfillmentService W → FulfillmentService W
  count_declined s = record s { processed = s.processed + 1; total_msgs = s.total_msgs + 1 }

  abbrev pub latency_ms : Attempt W → ℕ
  latency_ms w = 30 + w.random % 51 + w.overrun_ms

module _ {W : Type 0} ⦃f : Float64 W⦄ where
  unfoldable pub is_failed : Attempt W → Bool
  is_failed w = lt (of_int 0) w.error_probability && lt w.dice w.error_probability

  unfoldable pub count_processed : Attempt W → FulfillmentService W → FulfillmentService W
  count_processed w s = record s {
    processed = s.processed + 1;
    total_msgs = s.total_msgs + 1;
    latencies = s.latencies ++ of_int (latency_ms w) ∷ [];
  }

  -- The loop over the attempts: the ones left, and the number of this one. A message whose last
  -- attempt fails is discarded with a line in the log.
  unfoldable pub attempt_loop :
      (ℕ → Attempt W) → ℕ → ℕ → FulfillmentService W → FulfillmentService W
  unfolding count_error count_processed is_failed
  attempt_loop world zero attempt s = s
  attempt_loop world (suc left) attempt s =
      let w = world attempt in
      let counted = count_error s in
      let rest = attempt_loop world left (suc attempt) counted in
      if w.sleep_cancelled
      then s
      else if not (is_failed w)
      then count_processed w s
      else if ltb attempt max_attempts
      then (if w.backoff_cancelled then counted else rest)
      else counted

  abbrev pub process_decoded :
      (ℕ → Attempt W) → Option (PaymentMessage W) → FulfillmentService W → FulfillmentService W
  process_decoded world none s = count_error s
  process_decoded world (some msg) s =
      if msg.status == "declined" then count_declined s else attempt_loop world max_attempts 1 s

  unfoldable pub process_message :
      (String → Option (PaymentMessage W))
      → (ℕ → Attempt W)
      → String
      → FulfillmentService W
      → FulfillmentService W
  unfolding count_error count_declined attempt_loop
  process_message unmarshal world raw s = process_decoded world (unmarshal raw) s
