-- ===== src/Simulator/Payment/Tests.antt =====
-- The payment service at work.
use monitower.Prelude.{
  ℕ, ◌+◌, true, false, ◌||◌, ◌==◌, ltb, if◌then◌else◌, String, [], ◌∷◌, Option, none, some, ◌≡◌,
  refl, string_eq,
}
use monitower.Prelude.Int.{pos}
use monitower.Prelude.Dict.{lookup}
use monitower.Float64.{of_int, literal}
use monitower.Float64.Hundredths.{Hundredths, hundredths_float}
use monitower.Simulator.Queue.{Queue}
use monitower.Simulator.Payment.{
  OrderMessage, PaymentService, Attempt, process_message, process_tick, is_failed,
}
use monitower.Simulator.Payment.Accounts.{IsAccounted, process_message-IsAccounted}
use monitower.Simulator.Payment.Routing.{
  Ends, first_success, first_attempt_of, process_message-Ends,
}
use monitower.Simulator.Payment.Ticks.{Takes, process_tick_cases}

abbrev order : OrderMessage Hundredths
order = record {
  message_id = "m1";
  order_id = "o1";
  customer_id = "c1";
  total_amount = of_int 25;
  trace_id = "t1";
  poisoned = false;
}

-- One text is an order, no other is.
abbrev decode : String → Option (OrderMessage Hundredths)
decode raw = if raw == "order 1" then some order else none

abbrev idle : PaymentService Hundredths
idle = record {
  processed = 0;
  errors = 0;
  total_msgs = 0;
  latencies = [];
  in_flight = [];
  crashed = false;
  payment_queue = [];
  dlq_queue = [];
}

-- The first two attempts fail.
abbrev flaky : ℕ → Attempt Hundredths
flaky n = record {
  processing_delay_ms = 0;
  random = 20;
  overrun_ms = 1;
  sleep_cancelled = false;
  error_probability = literal 15 2;
  dice = if ltb n 3 then literal 10 2 else literal 90 2;
  backoff_cancelled = false;
  now = 1000 + n;
  new_message_id = "m2";
  new_transaction_id = "x1";
  marshal_ok = true;
  send_cancelled = false;
}

-- Every attempt fails.
abbrev broken : ℕ → Attempt Hundredths
broken n = record (flaky n) { error_probability = literal 10 1 }

third_attempt : first_success flaky ≡ some 3
unfolding is_failed
third_attempt = refl

no_attempt : first_success broken ≡ none
unfolding is_failed
no_attempt = refl

counted_after : (process_message decode flaky 1000 "order 1" idle).total_msgs ≡ 3
unfolding process_message
counted_after = refl

process_message-IsAccounted_example :
    IsAccounted idle (process_message decode broken 1000 "order 1" idle)
process_message-IsAccounted_example = process_message-IsAccounted decode broken 1000 "order 1" idle

abbrev cancelled : ℕ → Attempt Hundredths
cancelled n = record (flaky n) { send_cancelled = true }

-- Counted as processed, and not on the queue.
dropped_send :
    let after = process_message decode cancelled 1000 "order 1" idle in
    (after.processed ≡ 1) × (after.payment_queue ≡ [])
unfolding process_message
dropped_send = (refl, refl)

process_message-Ends_example :
    Ends flaky "order 1" order
      (first_attempt_of 1000 order idle)
      idle
      (process_message decode flaky 1000 "order 1" idle)
      (first_success flaky)
    × (lookup "m1" (process_message decode flaky 1000 "order 1" idle).in_flight ≡ none)
process_message-Ends_example =
    process_message-Ends decode flaky 1000 "order 1" order idle refl refl (record {
      sleeps = λ n. refl;
      backs_off = λ n. refl;
      marshals = λ n. refl;
      sends = λ n. refl;
    })

abbrev two_orders : Queue
two_orders = record {
  name = "order-queue";
  is_dlq = false;
  messages = "order 1" ∷ "order 2" ∷ [];
  depth = pos 2;
  enqueued = 2;
  dequeued = 0;
}

process_tick_cases_example :
    (let (after, rest, msgs) = process_tick false idle two_orders in
      (after ≡ record idle { crashed = false })
      × Takes (if idle.crashed || false then 0 else 5) two_orders rest msgs)
process_tick_cases_example = process_tick_cases false idle two_orders

takes_both : (process_tick false idle two_orders).2 ≡ "order 1" ∷ "order 2" ∷ []
unfolding process_tick
takes_both = refl
