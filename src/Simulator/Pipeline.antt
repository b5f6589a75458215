-- ===== src/Simulator/Pipeline.antt =====
-- The program of cmd/simulator/main.go: the queues, the services on them, and one event after another.
-- Each service keeps what it sent; an event puts what its call added to it on the queues, as the
-- texts that json.Marshal makes, which are parameters. The context lives for these sends; a
-- call whose own send is cancelled adds nothing. A message that a tick takes
-- is pending until the event of its goroutine.
pub mod Queues
pub mod Sent
pub mod Sequence
pub mod Run
pub mod Tests
use monitower.Prelude.{
  ℕ, zero, suc, Bool, true, false, ◌&&◌, if◌then◌else◌, String, List, [], ◌∷◌, ◌++◌, map, Option,
  none, some,
}
use monitower.Float64.{Float64}
use monitower.Simulator.Fault.{FaultEngine}
use monitower.Simulator.Queue.{Queue, Topic, topic, end, next, new_queue, subscribe, send}
use monitower.Simulator.Order.{OrderService, Tick}
use monitower.Simulator.Order.Metrics.{new_order_service}
use monitower.Simulator.Payment.{OrderMessage, PaymentMessage, DlqMessage, PaymentService}
use monitower.Simulator.Payment.Metrics.{new_payment_service}
use monitower.Simulator.Fulfillment.{FulfillmentService}
use monitower.Simulator.Fulfillment.Metrics.{new_fulfillment_service}
use monitower.Simulator.Notification.{NotificationDlqMessage, NotificationService}
use monitower.Simulator.Notification.Metrics.{new_notification_service}
use monitower.Simulator.Order
use monitower.Simulator.Payment
use monitower.Simulator.Fulfillment
use monitower.Simulator.Notification

pub record Pipeline (W : Type 0) : Type 0 where
  pub order_queue : Topic
  pub payment_queue : Topic
  pub payment_dlq : Topic
  pub notif_dlq : Topic
  pub orders : OrderService W
  pub payments : PaymentService W
  pub fulfillments : FulfillmentService W
  pub notifications : NotificationService W
  -- the messages that each worker took, in order, and those whose goroutine is still to run
  pub payment_taken : List String
  pub payment_pending : List String
  pub fulfillment_taken : List String
  pub fulfillment_pending : List String
  pub notification_taken : List String
  pub notification_pending : List String
  -- whether every send returned, none waits for room
  pub returned : Bool

unfoldable pub new_topic : String → Bool → Topic
unfolding new_queue
new_topic name is_dlq = topic (new_queue name is_dlq) end

unfoldable pub new_pipeline : {W : Type 0} → Pipeline W
unfolding new_topic subscribe new_order_service new_payment_service new_fulfillment_service
    new_notification_service
new_pipeline = record {
  order_queue = new_topic "order-queue" false;
  payment_queue = subscribe "notification-payment-sub" false (new_topic "payment-queue" false);
  payment_dlq = new_topic "payment-dlq" true;
  notif_dlq = new_topic "notification-dlq" true;
  orders = new_order_service;
  payments = new_payment_service;
  fulfillments = new_fulfillment_service;
  notifications = new_notification_service;
  payment_taken = [];
  payment_pending = [];
  fulfillment_taken = [];
  fulfillment_pending = [];
  notification_taken = [];
  notification_pending = [];
  returned = true;
}

-- Sends, one after another, with the live context, up to one that waits.
unfoldable pub sends : List String → Topic → Topic × Bool
unfolding send
sends [] t = (t, true)
sends (msg ∷ msgs) t =
    let r = send (λ q. false) msg t in
    let rest = sends msgs r.0 in if r.1 then rest else (r.0, false)

-- What a call added to a list that it appends to.
unfoldable pub added {ℓ} : {A : Type ℓ} → List A → List A → List A
added [] after = after
added (x ∷ before) [] = []
added (x ∷ before) (y ∷ after) = added before after

-- A worker's tick on its queue, and on the first queue that is subscribed to it.
abbrev pub take_from : (Queue → Queue × List String) → Topic → Topic × List String
take_from tick (topic q subscribers) = let (q', msgs) = tick q in (topic q' subscribers, msgs)

abbrev pub take_from_sub : (Queue → Queue × List String) → Topic → Topic × List String
take_from_sub tick (topic q end) = (topic q end, [])
take_from_sub tick (topic q (next t subscribers)) =
    let (t', msgs) = take_from tick t in (topic q (next t' subscribers), msgs)

abbrev pub root : Topic → Queue
root (topic q subscribers) = q

-- The pending message at an index, and the others.
abbrev pub picked : String → Option (String × List String) → Option (String × List String)
picked msg none = none
picked msg (some (found, rest)) = some (found, msg ∷ rest)

unfoldable pub pick : ℕ → List String → Option (String × List String)
pick n [] = none
pick zero (msg ∷ msgs) = some (msg, msgs)
pick (suc n) (msg ∷ msgs) = let rest = pick n msgs in picked msg rest

pub data Event (W : Type 0) : Type 0 where
  order_tick : FaultEngine → Tick W → Event W
  payment_tick : Bool → Event W
  payment_message : ℕ → (ℕ → Payment.Attempt W) → ℕ → Event W
  fulfillment_tick : Event W
  fulfillment_message : ℕ → (ℕ → Fulfillment.Attempt W) → Event W
  notification_tick : Event W
  notification_message : ℕ → (ℕ → Notification.Attempt W) → ℕ → Event W

-- The texts of what the services send, and how the workers read them.
pub record Codec (W : Type 0) : Type 0 where
  pub order_text : OrderMessage W → String
  pub payment_text : PaymentMessage W → String
  pub dlq_text : DlqMessage → String
  pub notif_dlq_text : NotificationDlqMessage → String
  pub order_of : String → Option (OrderMessage W)
  pub payment_of : String → Option (PaymentMessage W)

module _ {W : Type 0} ⦃f : Float64 W⦄ (c : Codec W) where
  -- The sends of an event follow the call of the service; once a send waits, the run stops there.
  unfoldable pub after_order : OrderService W → Pipeline W → Pipeline W
  unfolding sends added
  after_order s p =
      let r = sends (map c.order_text (added p.orders.queue s.queue)) p.order_queue in
      record p { orders = s; order_queue = r.0; returned = r.1 }

  unfoldable pub after_payment : PaymentService W → Pipeline W → Pipeline W
  unfolding sends added
  after_payment s p =
      let sent = added p.payments.payment_queue s.payment_queue in
      let dropped = added p.payments.dlq_queue s.dlq_queue in
      let r = sends (map c.payment_text sent) p.payment_queue in
      let d = sends (map c.dlq_text dropped) p.payment_dlq in
      record p { payments = s; payment_queue = r.0; payment_dlq = d.0; returned = r.1 && d.1 }

  unfoldable pub after_notification : NotificationService W → Pipeline W → Pipeline W
  unfolding sends added
  after_notification s p =
      let dropped = added p.notifications.notif_dlq s.notif_dlq in
      let r = sends (map c.notif_dlq_text dropped) p.notif_dlq in
      record p { notifications = s; notif_dlq = r.0; returned = r.1 }

  abbrev pub run_payment :
      (ℕ → Payment.Attempt W) → ℕ → Option (String × List String) → Pipeline W → Pipeline W
  run_payment world now none p = p
  run_payment world now (some (raw, rest)) p =
      after_payment (Payment.process_message c.order_of world now raw p.payments)
        (record p { payment_pending = rest })

  abbrev pub run_fulfillment :
      (ℕ → Fulfillment.Attempt W) → Option (String × List String) → Pipeline W → Pipeline W
  run_fulfillment world none p = p
  run_fulfillment world (some (raw, rest)) p = record p {
    fulfillment_pending = rest;
    fulfillments = Fulfillment.process_message c.payment_of world raw p.fulfillments;
  }

  abbrev pub run_notification :
      (ℕ → Notification.Attempt W) → ℕ → Option (String × List String) → Pipeline W → Pipeline W
  run_notification world now none p = p
  run_notification world now (some (raw, rest)) p =
      after_notification (Notification.process_message c.payment_of world now raw p.notifications)
        (record p { notification_pending = rest })

  -- The payment worker's tick is one on the service and the queue.
  abbrev pub tick_payment : Bool → Pipeline W → Pipeline W
  tick_payment should_crash p =
      let (q, msgs) =
        take_from
          (λ q.
            let (s, rest, msgs) = Payment.process_tick should_crash p.payments q in (rest, msgs))
          p.order_queue in
      record p {
        payments = (Payment.process_tick should_crash p.payments (root p.order_queue)).0;
        order_queue = q;
        payment_taken = p.payment_taken ++ msgs;
        payment_pending = p.payment_pending ++ msgs;
      }

  unfoldable pub step : Event W → Pipeline W → Pipeline W
  unfolding after_order after_payment after_notification pick Order.process_tick
      Payment.process_tick Payment.process_message Fulfillment.process_message
      Notification.process_message Fulfillment.Metrics.process_tick
      Notification.Metrics.process_tick
  step (order_tick engine t) p = after_order (Order.process_tick engine t p.orders) p
  step (payment_tick should_crash) p = tick_payment should_crash p
  step (payment_message n world now) p = run_payment world now (pick n p.payment_pending) p
  step fulfillment_tick p =
      let (q, msgs) = take_from Fulfillment.Metrics.process_tick p.payment_queue in
      record p {
        payment_queue = q;
        fulfillment_taken = p.fulfillment_taken ++ msgs;
        fulfillment_pending = p.fulfillment_pending ++ msgs;
      }
  step (fulfillment_message n world) p = run_fulfillment world (pick n p.fulfillment_pending) p
  step notification_tick p =
      let (q, msgs) = take_from_sub Notification.Metrics.process_tick p.payment_queue in
      record p {
        payment_queue = q;
        notification_taken = p.notification_taken ++ msgs;
        notification_pending = p.notification_pending ++ msgs;
      }
  step (notification_message n world now) p =
      run_notification world now (pick n p.notification_pending) p

  unfoldable pub run : List (Event W) → Pipeline W → Pipeline W
  unfolding step
  run [] p = p
  run (e ∷ events) p = let rest = run events (step e p) in if p.returned then rest else p
