-- ===== src/Simulator/Pipeline/Sent.antt =====
-- The services of the pipeline only append to what they sent.
use monitower.Prelude.{
  List, ℕ, Bool, true, false, [], ◌∷◌, zero, suc, ltb, String, Option, none, some, inl, inr,
  Bool-cases, string_eq,
}
use monitower.Prelude.Dict.{lookup, insert}
use monitower.Float64.{Float64}
use monitower.Simulator.Fault.{FaultEngine}
use monitower.Simulator.Order.{OrderService, Tick, is_dropped}
use monitower.Simulator.Payment.{sent, OrderMessage, PaymentMessage, InFlightEntry, PaymentService}
use monitower.Simulator.Notification.{NotificationService}
use monitower.Simulator.Order
use monitower.Simulator.Payment
use monitower.Simulator.Notification
use monitower.Simulator.Pipeline.Queues.{Grew, Grew-append, Grew-same}

Grew-sent {ℓ} :
    {A : Type ℓ} (cancelled : Bool) (msg : A) (queue : List A)
    → Grew queue (sent cancelled msg queue)
Grew-sent true msg queue = Grew-same queue
Grew-sent false msg queue = Grew-append queue (msg ∷ [])

module _ {W : Type 0} ⦃f : Float64 W⦄ where
  pub process_tick-Grew :
      (engine : FaultEngine) (t : Tick W) (s : OrderService W)
      → Grew s.queue (Order.process_tick engine t s).queue
  unfolding Order.process_tick
  process_tick-Grew engine t s = elim (Bool-cases (is_dropped t)) [
    | inl e ↦ rw e (Grew-same s.queue)
    | inr e ↦ elim (Bool-cases t.marshal_ok) [
      | inl ok ↦ rw (e, ok) (Grew-sent t.send_cancelled _ s.queue)
      | inr bad ↦ rw (e, bad) (Grew-same s.queue)
    ]
  ]

  -- What a call of the payment service adds to both of its queues.
  abbrev pub GrewBoth : PaymentService W → PaymentService W → Type 0
  GrewBoth s t = Grew s.payment_queue t.payment_queue × Grew s.dlq_queue t.dlq_queue

  GrewBoth-same : (s : PaymentService W) → GrewBoth s s
  GrewBoth-same s = (Grew-same s.payment_queue, Grew-same s.dlq_queue)

  send_to_payment_queue-GrewBoth :
      (msg : OrderMessage W) (w : Payment.Attempt W) (s : PaymentService W)
      → GrewBoth s (Payment.send_to_payment_queue msg w s)
  unfolding Payment.send_to_payment_queue Payment.incr_error
  send_to_payment_queue-GrewBoth msg w s = elim (Bool-cases w.marshal_ok) [
    | inl ok ↦ rw ok (Grew-sent w.send_cancelled _ s.payment_queue, Grew-same s.dlq_queue)
    | inr bad ↦ rw bad (GrewBoth-same s)
  ]

  attempt_loop-GrewBoth :
      (world : ℕ → Payment.Attempt W) (raw : String) (msg : OrderMessage W) (entry : InFlightEntry)
      (left attempt : ℕ) (s : PaymentService W)
      → GrewBoth s (Payment.attempt_loop world raw msg entry left attempt s)
  unfolding Payment.attempt_loop Payment.set_attempts Payment.incr_error Payment.send_to_dlq
  attempt_loop-GrewBoth world raw msg entry zero attempt s = GrewBoth-same s
  attempt_loop-GrewBoth world raw msg entry (suc left) attempt s =
      let w = world attempt in
      let tracked = Payment.set_attempts msg.message_id entry attempt s in
      elim (Bool-cases w.sleep_cancelled) [
        | inl e ↦ rw e (GrewBoth-same s)
        | inr e ↦ elim (Bool-cases (Payment.is_failed w)) [
          | inr good ↦ rw (e, good) (send_to_payment_queue-GrewBoth msg w tracked)
          | inl bad ↦ elim (Bool-cases (ltb attempt Payment.max_attempts)) [
            | inr last ↦ rw (e, bad, last) (Grew-same s.payment_queue, Grew-sent _ _ s.dlq_queue)
            | inl again ↦ elim (Bool-cases w.backoff_cancelled) [
              | inl stop ↦ rw (e, bad, again, stop) (GrewBoth-same s)
              | inr go ↦
                  rw (e, bad, again, go)
                    (attempt_loop-GrewBoth world raw msg entry left (suc attempt)
                      (Payment.incr_error tracked))
            ]
          ]
        ]
      ]

  process_entry-GrewBoth :
      (world : ℕ → Payment.Attempt W) (now : ℕ) (raw : String) (msg : OrderMessage W)
      (entry : InFlightEntry) (s : PaymentService W)
      → GrewBoth s (Payment.process_entry world now raw msg entry s)
  unfolding Payment.process_entry Payment.incr_error Payment.send_to_dlq
  process_entry-GrewBoth world now raw msg entry s = elim (Bool-cases msg.poisoned) [
    | inl e ↦ rw e (Grew-same s.payment_queue, Grew-sent _ _ s.dlq_queue)
    | inr e ↦ rw e (attempt_loop-GrewBoth world raw msg entry 3 1 s)
  ]

  process_decoded-GrewBoth :
      (world : ℕ → Payment.Attempt W) (now : ℕ) (raw : String) (m : Option (OrderMessage W))
      (s : PaymentService W)
      → GrewBoth s (Payment.process_decoded world now raw m s)
  unfolding Payment.incr_error
  process_decoded-GrewBoth world now raw none s = GrewBoth-same s
  process_decoded-GrewBoth world now raw (some msg) s =
      let entry = Payment.entry_or_new now (lookup msg.message_id s.in_flight) in
      process_entry-GrewBoth world now raw msg entry
        (record s { in_flight = insert msg.message_id entry s.in_flight })

  pub process_message-GrewBoth :
      (order_of : String → Option (OrderMessage W)) (world : ℕ → Payment.Attempt W) (now : ℕ)
      (raw : String) (s : PaymentService W)
      → GrewBoth s (Payment.process_message order_of world now raw s)
  unfolding Payment.process_message
  process_message-GrewBoth order_of world now raw s =
      process_decoded-GrewBoth world now raw (order_of raw) s

  notified :
      (world : ℕ → Notification.Attempt W) (raw kind : String) (first_attempt_at left attempt : ℕ)
      (s : NotificationService W)
      → Grew s.notif_dlq
          (Notification.attempt_loop world raw kind first_attempt_at left attempt s).notif_dlq
  unfolding Notification.attempt_loop Notification.count_error Notification.count_processed
      Notification.send_to_dlq
  notified world raw kind first_attempt_at zero attempt s = Grew-same s.notif_dlq
  notified world raw kind first_attempt_at (suc left) attempt s =
      let w = world attempt in
      elim (Bool-cases w.sleep_cancelled) [
        | inl e ↦ rw e (Grew-same s.notif_dlq)
        | inr e ↦ elim (Bool-cases (Notification.is_failed w)) [
          | inr good ↦ rw (e, good) (Grew-same s.notif_dlq)
          | inl bad ↦ elim (Bool-cases (ltb attempt Notification.max_attempts)) [
            | inr last ↦ rw (e, bad, last) (Grew-sent _ _ s.notif_dlq)
            | inl again ↦ elim (Bool-cases w.backoff_cancelled) [
              | inl stop ↦ rw (e, bad, again, stop) (Grew-same s.notif_dlq)
              | inr go ↦
                  rw (e, bad, again, go)
                    (notified world raw kind first_attempt_at left (suc attempt)
                      (Notification.count_error s))
            ]
          ]
        ]
      ]

  notified_decoded :
      (world : ℕ → Notification.Attempt W) (now : ℕ) (raw : String) (m : Option (PaymentMessage W))
      (s : NotificationService W)
      → Grew s.notif_dlq (Notification.process_decoded world now raw m s).notif_dlq
  unfolding Notification.count_error
  notified_decoded world now raw none s = Grew-same s.notif_dlq
  notified_decoded world now raw (some msg) s =
      notified world raw (Notification.notif_type msg) now 2 1 s

  pub process_message-Grew :
      (payment_of : String → Option (PaymentMessage W)) (world : ℕ → Notification.Attempt W)
      (now : ℕ) (raw : String) (s : NotificationService W)
      → Grew s.notif_dlq (Notification.process_message payment_of world now raw s).notif_dlq
  unfolding Notification.process_message
  process_message-Grew payment_of world now raw s =
      notified_decoded world now raw (payment_of raw) s
