-- ===== src/Simulator/Pipeline/Tests.antt =====
-- The pipeline at work: two orders, one of which is paid in two attempts.
use monitower.Prelude.{
  ℕ, ◌+◌, true, false, ltb, if◌then◌else◌, String, List, [], ◌∷◌, none, some, ◌≡◌, refl, string_eq,
}
use monitower.Float64.{of_int, literal}
use monitower.Float64.Hundredths.{Hundredths, hundredths_float}
use monitower.Simulator.Fault.{FaultEngine}
use monitower.Simulator.Order.{Tick}
use monitower.Simulator.Payment.{OrderMessage, Attempt}
use monitower.Simulator.Pipeline.{
  new_pipeline, Codec, Event, order_tick, payment_tick, payment_message, notification_tick, run,
}
use monitower.Simulator.Pipeline.Sequence.{IsInSequence}
use monitower.Simulator.Pipeline.Run.{run-new-IsInSequence}

abbrev order : OrderMessage Hundredths
order = record {
  message_id = "m1";
  order_id = "o1";
  customer_id = "c1";
  total_amount = of_int 25;
  trace_id = "t1";
  poisoned = false;
}

-- The text of an order is its message id.
abbrev by_id : Codec Hundredths
by_id = record {
  order_text = λ m. m.message_id;
  payment_text = λ m. m.message_id;
  dlq_text = λ m. m.original_message;
  notif_dlq_text = λ m. m.original_message;
  order_of = λ raw. some (record order { message_id = raw });
  payment_of = λ raw. none;
}

abbrev tick : String → Tick Hundredths
tick id = record {
  error_probability = of_int 0;
  dice = literal 50 2;
  new_message_id = id;
  new_order_id = "o1";
  new_customer_id = "c1";
  new_trace_id = "t1";
  item = record { item_id = "item-widget-a"; quantity = 2; unit_price = literal 999 2 };
  marshal_ok = true;
  send_cancelled = false;
  latency_ms = literal 3 1;
}

-- The first attempt fails.
abbrev flaky : ℕ → Attempt Hundredths
flaky n = record {
  processing_delay_ms = 0;
  random = 20;
  overrun_ms = 1;
  sleep_cancelled = false;
  error_probability = literal 15 2;
  dice = if ltb n 2 then literal 10 2 else literal 90 2;
  backoff_cancelled = false;
  now = 1000 + n;
  new_message_id = "p1";
  new_transaction_id = "x1";
  marshal_ok = true;
  send_cancelled = false;
}

-- All attempts fail.
abbrev broken : ℕ → Attempt Hundredths
broken n = record (flaky n) { dice = literal 10 2 }

abbrev healthy : FaultEngine
healthy = record { active = []; fault_events = [] }

-- The second order is processed before the first, and ends in the DLQ.
abbrev events : List (Event Hundredths)
events =
    order_tick healthy (tick "a")
    ∷ order_tick healthy (tick "b")
    ∷ payment_tick false
    ∷ payment_message 1 broken 900
    ∷ payment_message 0 flaky 900
    ∷ notification_tick
    ∷ []

one_paid :
    (let p = run by_id events new_pipeline in
      (p.payment_taken ≡ "a" ∷ "b" ∷ [])
      × (p.notification_taken ≡ "p1" ∷ [])
      × (p.fulfillment_taken ≡ [])
      × (p.payment_pending ≡ []))
unfolding run new_pipeline
one_paid = (refl, refl, refl, refl)

run-new-IsInSequence_example : IsInSequence by_id (run by_id events new_pipeline)
unfolding run new_pipeline
run-new-IsInSequence_example = run-new-IsInSequence by_id events refl
