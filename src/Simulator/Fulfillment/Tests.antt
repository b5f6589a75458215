-- ===== src/Simulator/Fulfillment/Tests.antt =====
-- The fulfillment service at work.
use monitower.Prelude.{
  ℕ, ◌==◌, ltb, if◌then◌else◌, false, String, [], Option, none, some, ◌≡◌, refl, string_eq,
}
use monitower.Float64.{of_int, literal}
use monitower.Float64.Hundredths.{Hundredths, hundredths_float}
use monitower.Simulator.Payment.{PaymentMessage}
use monitower.Simulator.Fulfillment.{FulfillmentService, Attempt, process_message, is_failed}
use monitower.Simulator.Fulfillment.Counts.{Fulfilled, first_success, process_message-Fulfilled}

abbrev payment : PaymentMessage Hundredths
payment = record {
  message_id = "m2";
  order_id = "o1";
  customer_id = "c1";
  total_amount = of_int 25;
  status = "approved";
  transaction_id = "x1";
  processed_at = 1003;
  trace_id = "t1";
  processing_ms = 71;
}

-- One text is a payment, no other is.
abbrev decode : String → Option (PaymentMessage Hundredths)
decode raw = if raw == "payment 1" then some payment else none

abbrev idle : FulfillmentService Hundredths
idle = record { processed = 0; errors = 0; total_msgs = 0; latencies = [] }

-- The first attempt fails.
abbrev flaky : ℕ → Attempt Hundredths
flaky n = record {
  random = 20;
  overrun_ms = 1;
  sleep_cancelled = false;
  error_probability = literal 15 2;
  dice = if ltb n 2 then literal 10 2 else literal 90 2;
  backoff_cancelled = false;
}

process_message-Fulfilled_example :
    Fulfilled flaky idle (process_message decode flaky "payment 1" idle) (first_success flaky)
process_message-Fulfilled_example =
    process_message-Fulfilled decode flaky "payment 1" payment idle refl refl
      (record { sleeps = λ n. refl; backs_off = λ n. refl })

second_attempt : first_success flaky ≡ some 2
unfolding is_failed
second_attempt = refl

two_counted : (process_message decode flaky "payment 1" idle).total_msgs ≡ 2
unfolding process_message
two_counted = refl
