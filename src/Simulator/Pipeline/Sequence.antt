-- ===== src/Simulator/Pipeline/Sequence.antt =====
-- The order of the messages through the pipeline.
use monitower.Prelude.{
  true, String, List, [], ◌++◌, map, map-append, ◌≡◌, sym, ap, subst, ◌∙◌, both_true,
}
use monitower.Float64.{Float64}
use monitower.Simulator.Queue.{Topic}
use monitower.Simulator.Order.{OrderService}
use monitower.Simulator.Payment.{PaymentService}
use monitower.Simulator.Notification.{NotificationService}
use monitower.Simulator.Pipeline.{
  Pipeline, Codec, after_order, after_payment, after_notification, sends, added,
}
use monitower.Simulator.Pipeline.Queues.{IsAlone, IsPair, sends-IsAlone, sends-IsPair, Grew}
use monitower.Simulator.Pipeline.Sent.{GrewBoth}

module _ {W : Type 0} ⦃f : Float64 W⦄ (c : Codec W) where
  -- What the payment worker took and what waits in order-queue are the orders sent, in order. What
  -- the fulfillment worker took and what waits in payment-queue are the payments sent, in order, and
  -- so are what the notification worker took and what waits in its subscription, the only one. The
  -- two DLQs hold what was sent to them.
  pub record IsInSequence (p : Pipeline W) : Type 0 where
    pub orders : IsAlone p.payment_taken (map c.order_text p.orders.queue) p.order_queue
    pub payments :
        IsPair p.fulfillment_taken p.notification_taken
          (map c.payment_text p.payments.payment_queue)
          p.payment_queue
    pub payment_dlq : IsAlone [] (map c.dlq_text p.payments.dlq_queue) p.payment_dlq
    pub notif_dlq : IsAlone [] (map c.notif_dlq_text p.notifications.notif_dlq) p.notif_dlq

  -- The texts of a list that grew.
  grown_texts :
      {A : Type 0} (text : A → String) (before after : List A)
      → Grew before after
      → map text before ++ map text (added before after) ≡ map text after
  grown_texts text before after g =
      sym (map-append text before (added before after)) ∙ ap (map text) g

  sent_alone :
      {A : Type 0} (text : A → String) (taken : List String) (before after : List A) (t : Topic)
      → Grew before after
      → IsAlone taken (map text before) t
      → (sends (map text (added before after)) t).1 ≡ true
      → IsAlone taken (map text after) (sends (map text (added before after)) t).0
  sent_alone text taken before after t g h returned =
      let msgs = map text (added before after) in
      subst (λ l. IsAlone taken l (sends msgs t).0) (grown_texts text before after g)
        (sends-IsAlone taken msgs (map text before) t h returned)

  sent_pair :
      {A : Type 0} (text : A → String) (taken by_sub : List String) (before after : List A)
      (t : Topic)
      → Grew before after
      → IsPair taken by_sub (map text before) t
      → (sends (map text (added before after)) t).1 ≡ true
      → IsPair taken by_sub (map text after) (sends (map text (added before after)) t).0
  sent_pair text taken by_sub before after t g h returned =
      let msgs = map text (added before after) in
      subst (λ l. IsPair taken by_sub l (sends msgs t).0) (grown_texts text before after g)
        (sends-IsPair taken by_sub msgs (map text before) t h returned)

  pub after_order-IsInSequence :
      (s : OrderService W) (p : Pipeline W)
      → Grew p.orders.queue s.queue
      → IsInSequence p
      → (after_order c s p).returned ≡ true
      → IsInSequence (after_order c s p)
  unfolding after_order
  after_order-IsInSequence s p g h returned = record {
    orders =
        sent_alone c.order_text p.payment_taken p.orders.queue s.queue p.order_queue g h.orders
          returned;
    payments = h.payments;
    payment_dlq = h.payment_dlq;
    notif_dlq = h.notif_dlq;
  }

  pub after_payment-IsInSequence :
      (s : PaymentService W) (p : Pipeline W)
      → GrewBoth p.payments s
      → IsInSequence p
      → (after_payment c s p).returned ≡ true
      → IsInSequence (after_payment c s p)
  unfolding after_payment
  after_payment-IsInSequence s p g h returned =
      let both = both_true returned in
      record {
        orders = h.orders;
        payments =
            sent_pair c.payment_text p.fulfillment_taken p.notification_taken
              p.payments.payment_queue s.payment_queue p.payment_queue g.0 h.payments both.0;
        payment_dlq =
            sent_alone c.dlq_text [] p.payments.dlq_queue s.dlq_queue p.payment_dlq g.1
              h.payment_dlq both.1;
        notif_dlq = h.notif_dlq;
      }

  pub after_notification-IsInSequence :
      (s : NotificationService W) (p : Pipeline W)
      → Grew p.notifications.notif_dlq s.notif_dlq
      → IsInSequence p
      → (after_notification c s p).returned ≡ true
      → IsInSequence (after_notification c s p)
  unfolding after_notification
  after_notification-IsInSequence s p g h returned = record {
    orders = h.orders;
    payments = h.payments;
    payment_dlq = h.payment_dlq;
    notif_dlq =
        sent_alone c.notif_dlq_text [] p.notifications.notif_dlq s.notif_dlq p.notif_dlq g
          h.notif_dlq returned;
  }
