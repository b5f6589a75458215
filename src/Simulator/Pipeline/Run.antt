-- ===== src/Simulator/Pipeline/Run.antt =====
-- Every event keeps the order of the messages through the pipeline.
use monitower.Prelude.{
  ℕ, Bool, true, false, String, List, [], ◌∷◌, ◌++◌, map, Option, none, some, ◌≡◌, refl, sym, ap,
  subst, inl, inr, Bool-cases, if_intro,
}
use monitower.Float64.{Float64}
use monitower.Simulator.Queue.{Queue}
use monitower.Simulator.Order.{OrderService}
use monitower.Simulator.Payment.{PaymentService}
use monitower.Simulator.Payment.Ticks.{process_tick_cases, poll-Takes}
use monitower.Simulator.Notification.{NotificationService}
use monitower.Simulator.Order
use monitower.Simulator.Payment
use monitower.Simulator.Fulfillment
use monitower.Simulator.Notification
use monitower.Simulator.Pipeline.{
  Pipeline, new_pipeline, new_topic, Codec, Event, order_tick, payment_tick, payment_message,
  fulfillment_tick, fulfillment_message, notification_tick, notification_message, run_payment,
  run_fulfillment, run_notification, tick_payment, step, run, root, pick,
}
use monitower.Simulator.Pipeline.Queues.{
  IsAlone, IsPair, take_from-IsAlone, take_from-IsPair, take_from_sub-IsPair,
}
use monitower.Simulator.Pipeline.Sent.{
  process_tick-Grew, process_message-GrewBoth, process_message-Grew,
}
use monitower.Simulator.Pipeline.Sequence.{
  IsInSequence, after_order-IsInSequence, after_payment-IsInSequence,
  after_notification-IsInSequence,
}
use monitower.Simulator.Order.Metrics.{new_order_service}
use monitower.Simulator.Payment.Metrics.{new_payment_service}
use monitower.Simulator.Notification.Metrics.{new_notification_service}
use monitower.Simulator.Queue.{new_queue, subscribe}

module _ {W : Type 0} ⦃f : Float64 W⦄ (c : Codec W) where
  run_payment-IsInSequence :
      (world : ℕ → Payment.Attempt W) (now : ℕ) (picked : Option (String × List String))
      (p : Pipeline W)
      → IsInSequence c p
      → (run_payment c world now picked p).returned ≡ true
      → IsInSequence c (run_payment c world now picked p)
  run_payment-IsInSequence world now none p h returned = h
  run_payment-IsInSequence world now (some (raw, rest)) p h returned =
      after_payment-IsInSequence c (Payment.process_message c.order_of world now raw p.payments)
        (record p { payment_pending = rest })
        (process_message-GrewBoth c.order_of world now raw p.payments)
        (record {
          orders = h.orders;
          payments = h.payments;
          payment_dlq = h.payment_dlq;
          notif_dlq = h.notif_dlq;
        })
        returned

  run_fulfillment-IsInSequence :
      (world : ℕ → Fulfillment.Attempt W) (picked : Option (String × List String)) (p : Pipeline W)
      → IsInSequence c p
      → IsInSequence c (run_fulfillment c world picked p)
  run_fulfillment-IsInSequence world none p h = h
  run_fulfillment-IsInSequence world (some (raw, rest)) p h = record {
    orders = h.orders;
    payments = h.payments;
    payment_dlq = h.payment_dlq;
    notif_dlq = h.notif_dlq;
  }

  run_notification-IsInSequence :
      (world : ℕ → Notification.Attempt W) (now : ℕ) (picked : Option (String × List String))
      (p : Pipeline W)
      → IsInSequence c p
      → (run_notification c world now picked p).returned ≡ true
      → IsInSequence c (run_notification c world now picked p)
  run_notification-IsInSequence world now none p h returned = h
  run_notification-IsInSequence world now (some (raw, rest)) p h returned =
      after_notification-IsInSequence c
        (Notification.process_message c.payment_of world now raw p.notifications)
        (record p { notification_pending = rest })
        (process_message-Grew c.payment_of world now raw p.notifications)
        (record {
          orders = h.orders;
          payments = h.payments;
          payment_dlq = h.payment_dlq;
          notif_dlq = h.notif_dlq;
        })
        returned

  -- A tick leaves what the payment service sent as it is.
  tick_payment_sent :
      (should_crash : Bool) (s : PaymentService W) (q : Queue)
      → (let t = (Payment.process_tick should_crash s q).0 in
          (t.payment_queue ≡ s.payment_queue) × (t.dlq_queue ≡ s.dlq_queue))
  tick_payment_sent should_crash s q =
      let e = (process_tick_cases should_crash s q).0 in
      (ap (λ t. t.payment_queue) e, ap (λ t. t.dlq_queue) e)

  tick_payment-IsInSequence :
      (should_crash : Bool) (p : Pipeline W)
      → IsInSequence c p
      → IsInSequence c (tick_payment c should_crash p)
  tick_payment-IsInSequence should_crash p h =
      let kept = tick_payment_sent should_crash p.payments (root p.order_queue) in
      record {
        orders =
            take_from-IsAlone
              (λ q.
                let (s, rest, msgs) = Payment.process_tick should_crash p.payments q in
                (rest, msgs))
              (λ q. (process_tick_cases should_crash p.payments q).1.in_order) p.payment_taken
              (map c.order_text p.orders.queue) p.order_queue h.orders;
        payments =
            subst
              (λ l.
                IsPair p.fulfillment_taken p.notification_taken (map c.payment_text l)
                  p.payment_queue)
              (sym kept.0) h.payments;
        payment_dlq =
            subst (λ l. IsAlone [] (map c.dlq_text l) p.payment_dlq) (sym kept.1) h.payment_dlq;
        notif_dlq = h.notif_dlq;
      }

  fulfillment_front :
      (q : Queue)
      → (Fulfillment.Metrics.process_tick q).1 ++ (Fulfillment.Metrics.process_tick q).0.messages
        ≡ q.messages
  unfolding Fulfillment.Metrics.process_tick
  fulfillment_front q = (poll-Takes 3 q).in_order

  notification_front :
      (q : Queue)
      → (Notification.Metrics.process_tick q).1 ++ (Notification.Metrics.process_tick q).0.messages
        ≡ q.messages
  unfolding Notification.Metrics.process_tick
  notification_front q = (poll-Takes 3 q).in_order

  step-IsInSequence :
      (e : Event W) (p : Pipeline W)
      → IsInSequence c p
      → (step c e p).returned ≡ true
      → IsInSequence c (step c e p)
  unfolding step
  step-IsInSequence (order_tick engine t) p h returned =
      after_order-IsInSequence c (Order.process_tick engine t p.orders) p
        (process_tick-Grew engine t p.orders) h returned
  step-IsInSequence (payment_tick should_crash) p h returned =
      tick_payment-IsInSequence should_crash p h
  step-IsInSequence (payment_message n world now) p h returned =
      run_payment-IsInSequence world now (pick n p.payment_pending) p h returned
  step-IsInSequence fulfillment_tick p h returned = record {
    orders = h.orders;
    payments =
        take_from-IsPair Fulfillment.Metrics.process_tick fulfillment_front p.fulfillment_taken
          p.notification_taken (map c.payment_text p.payments.payment_queue) p.payment_queue
          h.payments;
    payment_dlq = h.payment_dlq;
    notif_dlq = h.notif_dlq;
  }
  step-IsInSequence (fulfillment_message n world) p h returned =
      run_fulfillment-IsInSequence world (pick n p.fulfillment_pending) p h
  step-IsInSequence notification_tick p h returned = record {
    orders = h.orders;
    payments =
        take_from_sub-IsPair Notification.Metrics.process_tick notification_front
          p.fulfillment_taken p.notification_taken (map c.payment_text p.payments.payment_queue)
          p.payment_queue h.payments;
    payment_dlq = h.payment_dlq;
    notif_dlq = h.notif_dlq;
  }
  step-IsInSequence (notification_message n world now) p h returned =
      run_notification-IsInSequence world now (pick n p.notification_pending) p h returned

  run_stopped : (events : List (Event W)) (p : Pipeline W) → p.returned ≡ false → run c events p ≡ p
  unfolding run
  run_stopped [] p e = refl
  run_stopped (event ∷ events) p e =
      if_intro (λ q. q ≡ p) p.returned (run c events (step c event p)) p (λ on. cc) (λ off. refl)

  run-IsInSequence :
      (events : List (Event W)) (p : Pipeline W)
      → IsInSequence c p
      → (run c events p).returned ≡ true
      → IsInSequence c (run c events p)
  unfolding run
  run-IsInSequence [] p h = λ returned. h
  run-IsInSequence (e ∷ events) p h =
      if_intro (λ q. q.returned ≡ true → IsInSequence c q) p.returned (run c events (step c e p)) p
        (λ going returned. elim (Bool-cases (step c e p).returned) [
          | inl on ↦ run-IsInSequence events (step c e p) (step-IsInSequence e p h on) returned
          | inr off ↦ let waits = ap (λ q. q.returned) (run_stopped events (step c e p) off) in cc
        ])
        (λ stopped returned. h)

  -- From the start of the program, for whatever faults, dice, ids and times, and any order of ticks
  -- and of goroutines, each run to its end: if no send had to wait for room, the payment worker took a
  -- front part of the orders sent, in order, and the rest waits in order-queue; the fulfillment and the
  -- notification worker each took a front part of the payments sent, in order, and the rest of each
  -- waits in payment-queue and in its subscription; and the DLQs hold what was sent to them, in order.
  pub run-new-IsInSequence :
      (events : List (Event W))
      → (run c events new_pipeline).returned ≡ true
      → IsInSequence c (run c events new_pipeline)
  unfolding new_pipeline new_topic subscribe new_queue new_order_service new_payment_service
      new_notification_service IsAlone IsPair
  run-new-IsInSequence events =
      run-IsInSequence events new_pipeline
        (record { orders = refl; payments = (refl, refl); payment_dlq = refl; notif_dlq = refl })
