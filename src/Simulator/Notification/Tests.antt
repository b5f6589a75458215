-- ===== src/Simulator/Notification/Tests.antt =====
-- The notification service at work.
use monitower.Prelude.{
  ℕ, ◌+◌, ◌==◌, if◌then◌else◌, false, String, [], Option, none, some, ◌≡◌, refl, string_eq,
}
use monitower.Float64.{of_int, literal}
use monitower.Float64.Hundredths.{Hundredths, hundredths_float}
use monitower.Simulator.Payment.{PaymentMessage}
use monitower.Simulator.Notification.{
  NotificationService, Attempt, process_message, is_failed, notif_type,
}
use monitower.Simulator.Notification.Delivery.{Delivered, first_success, process_message-Delivered}

abbrev payment : PaymentMessage Hundredths
payment = record {
  message_id = "m2";
  order_id = "o1";
  customer_id = "c1";
  total_amount = of_int 25;
  status = "approved";
  transaction_id = "x1";
  processed_at = 1003;
  trace_id = "t1";
  processing_ms = 71;
}

-- One text is a payment, no other is.
abbrev decode : String → Option (PaymentMessage Hundredths)
decode raw = if raw == "payment 1" then some payment else none

abbrev idle : NotificationService Hundredths
idle = record { processed = 0; errors = 0; total_msgs = 0; latencies = []; notif_dlq = [] }

-- Every attempt fails.
abbrev failing : ℕ → Attempt Hundredths
failing n = record {
  random = 20;
  overrun_ms = 1;
  sleep_cancelled = false;
  error_probability = literal 10 1;
  dice = literal 90 2;
  backoff_cancelled = false;
  now = 2000 + n;
  send_cancelled = false;
}

process_message-Delivered_example :
    Delivered failing 2000 "payment 1"
      (notif_type payment)
      idle
      (process_message decode failing 2000 "payment 1" idle)
      (first_success failing)
process_message-Delivered_example =
    process_message-Delivered decode failing 2000 "payment 1" payment idle refl
      (record { sleeps = λ n. refl; backs_off = λ n. refl; sends = λ n. refl })

no_success : first_success failing ≡ none
unfolding is_failed
no_success = refl
