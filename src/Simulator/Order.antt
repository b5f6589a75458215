-- ===== src/Simulator/Order.antt =====
-- The ticks of the order service of internal/simulator/order_service.go.
-- What a tick meets in the world is an argument: the fault context, the dice, the new ids, the item, the
-- clock, and whether json.Marshal succeeds. A message is the value that its JSON text encodes, with
-- the fields that the payment service reads.
pub mod Ticks
pub mod Metrics
pub mod Interleaved
pub mod Tests
use monitower.Prelude.{
  ℕ, ◌+◌, Bool, true, false, ◌&&◌, if◌then◌else◌, String, List, [], ◌∷◌, ◌++◌, Option, none, some,
}
use monitower.Float64.{Float64, of_int, literal, lt, mul}
use monitower.Simulator.Fault.{FaultEngine, is_fault_active, fault_poison_pill}
use monitower.Simulator.Metrics.{get_elem?}
use monitower.Simulator.Payment.{OrderMessage, sent}

pub record OrderService (W : Type 0) : Type 0 where
  pub enqueued : ℕ
  pub errors : ℕ
  pub total_reqs : ℕ
  pub latencies : List W
  -- what `Send` put on order-queue, in order
  pub queue : List (OrderMessage W)

pub record OrderItem (W : Type 0) : Type 0 where
  pub item_id : String
  pub quantity : ℕ
  pub unit_price : W

pub record Tick (W : Type 0) : Type 0 where
  pub error_probability : W
  pub dice : W
  pub new_message_id : String
  pub new_order_id : String
  pub new_customer_id : String
  pub new_trace_id : String
  pub item : OrderItem W
  pub marshal_ok : Bool
  pub send_cancelled : Bool
  pub latency_ms : W

module _ {W : Type 0} ⦃f : Float64 W⦄ where
  abbrev pub item_catalog : List (String × W)
  item_catalog =
      ("item-widget-a", literal 999 2)
      ∷ ("item-gadget-b", literal 2499 2)
      ∷ ("item-doohickey-c", literal 499 2)
      ∷ ("item-thingamajig-d", literal 4999 2)
      ∷ ("item-whatsit-e", literal 1499 2)
      ∷ []

  abbrev pub item_of : ℕ → Option (String × W) → Option (OrderItem W)
  item_of qty none = none
  item_of qty (some (id, price)) =
      some (record { item_id = id; quantity = qty + 1; unit_price = price })

  -- The two draws are below the length of the catalog and below 4; `none` is an index out of range.
  unfoldable pub random_item : ℕ → ℕ → Option (OrderItem W)
  random_item n qty = item_of qty (get_elem? item_catalog n)

  unfoldable pub is_dropped : Tick W → Bool
  is_dropped t = lt (of_int 0) t.error_probability && lt t.dice t.error_probability

  -- The message of a tick.
  unfoldable pub order_message : Bool → Tick W → OrderMessage W
  order_message poisoned t = record {
    message_id = t.new_message_id;
    order_id = t.new_order_id;
    customer_id = t.new_customer_id;
    total_amount = mul t.item.unit_price (of_int t.item.quantity);
    trace_id = t.new_trace_id;
    poisoned = poisoned;
  }

  -- The lock at the start of a tick.
  unfoldable pub count_request : OrderService W → OrderService W
  count_request s = record s { total_reqs = s.total_reqs + 1 }

  unfoldable pub count_error : OrderService W → OrderService W
  count_error s = record s { errors = s.errors + 1 }

  -- What follows it: an error, or a send and the lock behind it. A send under a cancelled context
  -- drops the message, which is counted all the same.
  unfoldable pub finish_tick : FaultEngine → Tick W → OrderService W → OrderService W
  unfolding is_dropped order_message is_fault_active count_error
  finish_tick engine t s =
      let poisoned = is_fault_active engine fault_poison_pill in
      if is_dropped t
      then count_error s
      else if t.marshal_ok
      then record s {
        queue = sent t.send_cancelled (order_message poisoned t) s.queue;
        enqueued = s.enqueued + 1;
        latencies = s.latencies ++ t.latency_ms ∷ [];
      }
      else count_error s

  -- A tick without a flush between its locks.
  unfoldable pub process_tick : FaultEngine → Tick W → OrderService W → OrderService W
  unfolding count_request finish_tick
  process_tick engine t s = finish_tick engine t (count_request s)

  -- Ticks one after another, the engine as each one finds it.
  unfoldable pub run_ticks : List (FaultEngine × Tick W) → OrderService W → OrderService W
  unfolding process_tick
  run_ticks [] s = s
  run_ticks ((engine, t) ∷ ticks) s = run_ticks ticks (process_tick engine t s)
