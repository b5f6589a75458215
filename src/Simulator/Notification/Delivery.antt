-- ===== src/Simulator/Notification/Delivery.antt =====
-- Where a notification ends.
use monitower.Prelude.{
  ℕ, ◌+◌, false, not, if◌then◌else◌, String, [], ◌∷◌, ◌++◌, Option, none, some, ◌≡◌, refl, inl, inr,
  Bool-cases, arith,
}
use monitower.Float64.{Float64}
use monitower.Simulator.Payment.{PaymentMessage}
use monitower.Simulator.Notification.{
  NotificationService, Attempt, count_error, count_processed, send_to_dlq, is_failed,
  process_message, notif_type,
}

module _ {W : Type 0} ⦃f : Float64 W⦄ where
  -- The context is not cancelled.
  pub record IsLive (world : ℕ → Attempt W) : Type 0 where
    pub sleeps : (n : ℕ) → (world n).sleep_cancelled ≡ false
    pub backs_off : (n : ℕ) → (world n).backoff_cancelled ≡ false
    pub sends : (n : ℕ) → (world n).send_cancelled ≡ false

  -- The first of the two attempts that does not fail.
  abbrev pub first_success : (ℕ → Attempt W) → Option ℕ
  first_success world =
      if not (is_failed (world 1))
      then some 1
      else if not (is_failed (world 2))
      then some 2
      else none

  module _ (world : ℕ → Attempt W) (now : ℕ) (raw kind : String) (s t : NotificationService W) where
    -- The end of a message whose attempts have that first success, if any.
    abbrev pub Delivered : Option ℕ → Type 0
    Delivered none =
        (t.processed ≡ s.processed)
        × (t.errors ≡ s.errors + 2)
        × (t.notif_dlq
            ≡ s.notif_dlq
              ++ record {
                original_message = raw;
                failure_reason = "processing_error";
                attempt_count = 2;
                first_attempt_at = now;
                last_attempt_at = (world 2).now;
                notification_type = kind;
              }
                ∷ [])
    Delivered (some n) =
        (t.processed ≡ s.processed + 1)
        × (t.errors + 1 ≡ s.errors + n)
        × (t.notif_dlq ≡ s.notif_dlq)

  -- While the context lives, a text that decodes to a payment is notified by the first of two attempts that succeeds,
  -- or goes to the DLQ with its text, the kind of notification and two errors. A declined payment is
  -- notified like an approved one.
  pub process_message-Delivered :
      (unmarshal : String → Option (PaymentMessage W)) (world : ℕ → Attempt W) (now : ℕ)
      (raw : String) (msg : PaymentMessage W) (s : NotificationService W)
      → unmarshal raw ≡ some msg
      → IsLive world
      → Delivered world now raw
          (notif_type msg)
          s
          (process_message unmarshal world now raw s)
          (first_success world)
  unfolding process_message count_error count_processed send_to_dlq
  process_message-Delivered unmarshal world now raw msg s decoded live =
      elim (Bool-cases (is_failed (world 1))) [
        | inr a ↦ rw (decoded, live.sleeps 1, a) (refl, omega arith, refl)
        | inl a ↦ elim (Bool-cases (is_failed (world 2))) [
          | inr b ↦
              rw (decoded, live.sleeps 1, live.sleeps 2, live.backs_off 1, a, b)
                (refl, omega arith, refl)
          | inl b ↦
              rw (decoded, live.sleeps 1, live.sleeps 2, live.backs_off 1, a, b, live.sends 2)
                (refl, omega arith, refl)
        ]
      ]
