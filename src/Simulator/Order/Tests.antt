-- ===== src/Simulator/Order/Tests.antt =====
-- The order service at work.
use monitower.Prelude.{false, true, none, some, arith, [], ◌∷◌, map, ◌≡◌, refl, All, string_eq}
use monitower.Float64.{literal, of_int}
use monitower.Float64.Hundredths.{
  Hundredths, hundredths_float, Hundredths-IsOrdered, Hundredths-IsMeasured,
}
use monitower.Simulator.Fault.{FaultEngine}
use monitower.Simulator.Order.Metrics.{write_metrics, new_order_service}
use monitower.Simulator.Order.Interleaved.{
  System, here, then_step, begins, ends, flushes, Reach, IsAccounted, Flushed, Reach-Flushed,
}
use monitower.Simulator.Order.{
  OrderService, Tick, run_ticks, random_item, count_request, finish_tick,
}
use monitower.Simulator.Order.Ticks.{is_poisoning, run_ticks-poisoned}

abbrev idle : OrderService Hundredths
idle = record { enqueued = 0; errors = 0; total_reqs = 0; latencies = []; queue = [] }

abbrev tick : Tick Hundredths
tick = record {
  error_probability = literal 15 2;
  dice = literal 50 2;
  new_message_id = "m1";
  new_order_id = "o1";
  new_customer_id = "c1";
  new_trace_id = "t1";
  item = record { item_id = "item-widget-a"; quantity = 2; unit_price = literal 999 2 };
  marshal_ok = true;
  send_cancelled = false;
  latency_ms = literal 3 1;
}

-- The dice drop this one.
abbrev dropped : Tick Hundredths
dropped = record tick { dice = literal 5 2 }

abbrev poisoning : FaultEngine
poisoning = record { active = ("poison-pill", "order") ∷ []; fault_events = [] }

counts : (run_ticks ((poisoning, tick) ∷ (poisoning, dropped) ∷ []) idle).errors ≡ 1
unfolding run_ticks
counts = refl

run_ticks-poisoned_example :
    All
      (λ m. m.poisoned ≡ is_poisoning poisoning)
      (run_ticks (map (λ t. (poisoning, t)) (tick ∷ dropped ∷ [])) idle).queue
run_ticks-poisoned_example = run_ticks-poisoned poisoning (tick ∷ dropped ∷ []) idle tt

-- A flush between the two locks of a tick that is dropped, and another tick that is dropped.
abbrev cut : System Hundredths
cut = record {
  service = record idle { errors = 2; total_reqs = 1 };
  under_way = 0;
  carried = 1;
  flushed_reqs = 1;
  flushed_errors = 0;
  flushed_enqueued = 0;
}

cut-Reach : Reach cut
unfolding new_order_service write_metrics count_request finish_tick
cut-Reach =
    then_step
      (then_step
        (then_step (then_step (then_step here (begins refl)) (flushes poisoning 5000 2500000000))
          (ends poisoning dropped refl refl))
        (begins refl))
      (ends poisoning dropped refl refl)

-- Its share of errors is 2.
share_above_one :
    (write_metrics poisoning 7000 2000000000 cut.service).1
    ≡ some (record {
      ts = 7000;
      service = "order";
      throughput = of_int 0;
      error_rate = of_int 2;
      p50_latency = of_int 0;
      p99_latency = of_int 0;
      active_faults = "poison-pill";
    })
unfolding write_metrics
share_above_one = refl

-- One tick after the start.
abbrev ticked : System Hundredths
ticked = record {
  service = finish_tick poisoning tick (count_request idle);
  under_way = 0;
  carried = 0;
  flushed_reqs = 0;
  flushed_errors = 0;
  flushed_enqueued = 0;
}

ticked-Reach : Reach ticked
unfolding new_order_service
ticked-Reach = then_step (then_step here (begins refl)) (ends poisoning tick refl refl)

Reach-Flushed_example : IsAccounted ticked × Flushed poisoning 5000 2500000000 ticked
unfolding finish_tick count_request
Reach-Flushed_example =
    Reach-Flushed Hundredths-IsOrdered Hundredths-IsMeasured ticked ticked-Reach poisoning 5000
      2500000000 (omega arith)

last_item :
    random_item {W = Hundredths} 4 3
    ≡ some (record { item_id = "item-whatsit-e"; quantity = 4; unit_price = literal 1499 2 })
unfolding random_item
last_item = refl

no_sixth_item : random_item {W = Hundredths} 5 0 ≡ none
unfolding random_item
no_sixth_item = refl
