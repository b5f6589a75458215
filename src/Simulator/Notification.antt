-- ===== src/Simulator/Notification.antt =====
-- The notification service of internal/simulator/notification_service.go: one message with its retry.
-- Parameters and arguments are those of the other workers.
pub mod Delivery
pub mod Metrics
pub mod Tests
use monitower.Prelude.{
  ℕ, zero, suc, ◌+◌, ◌%◌, Bool, true, false, ◌&&◌, ◌==◌, not, ltb, if◌then◌else◌, String, List, [],
  ◌∷◌, ◌++◌, Option, none, some, string_eq,
}
use monitower.Float64.{Float64, of_int, lt}
use monitower.Simulator.Payment.{PaymentMessage, sent}

pub record NotificationDlqMessage : Type 0 where
  pub original_message : String
  pub failure_reason : String
  pub attempt_count : ℕ
  pub first_attempt_at : ℕ
  pub last_attempt_at : ℕ
  pub notification_type : String

pub record NotificationService (W : Type 0) : Type 0 where
  pub processed : ℕ
  pub errors : ℕ
  pub total_msgs : ℕ
  pub latencies : List W
  -- what `Send` put on notification-dlq, in order
  pub notif_dlq : List NotificationDlqMessage

pub record Attempt (W : Type 0) : Type 0 where
  pub random : ℕ
  pub overrun_ms : ℕ
  pub sleep_cancelled : Bool
  pub error_probability : W
  pub dice : W
  pub backoff_cancelled : Bool
  pub now : ℕ
  pub send_cancelled : Bool

abbrev pub max_attempts : ℕ
max_attempts = 2

module _ {W : Type 0} where
  unfoldable pub count_error : NotificationService W → NotificationService W
  count_error s = record s { errors = s.errors + 1; total_msgs = s.total_msgs + 1 }

  abbrev pub latency_ms : Attempt W → ℕ
  latency_ms w = 10 + w.random % 21 + w.overrun_ms

  abbrev pub notif_type : PaymentMessage W → String
  notif_type msg = if msg.status == "declined" then "declined" else "confirmation"

  unfoldable pub send_to_dlq :
      Bool → String → String → ℕ → ℕ → ℕ → String → NotificationService W → NotificationService W
  send_to_dlq cancelled raw reason attempts first_attempt_at now kind s =
      let dm : NotificationDlqMessage = record {
        original_message = raw;
        failure_reason = reason;
        attempt_count = attempts;
        first_attempt_at = first_attempt_at;
        last_attempt_at = now;
        notification_type = kind;
      } in
      record s { notif_dlq = sent cancelled dm s.notif_dlq }

module _ {W : Type 0} ⦃f : Float64 W⦄ where
  unfoldable pub is_failed : Attempt W → Bool
  is_failed w = lt (of_int 0) w.error_probability && lt w.dice w.error_probability

  unfoldable pub count_processed : Attempt W → NotificationService W → NotificationService W
  count_processed w s = record s {
    processed = s.processed + 1;
    total_msgs = s.total_msgs + 1;
    latencies = s.latencies ++ of_int (latency_ms w) ∷ [];
  }

  -- The loop over the attempts: the ones left, and the number of this one.
  unfoldable pub attempt_loop :
      (ℕ → Attempt W) → String → String → ℕ → ℕ → ℕ → NotificationService W → NotificationService W
  unfolding count_error count_processed is_failed send_to_dlq
  attempt_loop world raw kind first_attempt_at zero attempt s = s
  attempt_loop world raw kind first_attempt_at (suc left) attempt s =
      let w = world attempt in
      let counted = count_error s in
      let rest = attempt_loop world raw kind first_attempt_at left (suc attempt) counted in
      if w.sleep_cancelled
      then s
      else if not (is_failed w)
      then count_processed w s
      else if ltb attempt max_attempts
      then (if w.backoff_cancelled then counted else rest)
      else send_to_dlq w.send_cancelled raw "processing_error" attempt first_attempt_at w.now kind
          counted

  abbrev pub process_decoded :
      (ℕ → Attempt W)
      → ℕ
      → String
      → Option (PaymentMessage W)
      → NotificationService W
      → NotificationService W
  process_decoded world now raw none s = count_error s
  process_decoded world now raw (some msg) s =
      attempt_loop world raw (notif_type msg) now max_attempts 1 s

  unfoldable pub process_message :
      (String → Option (PaymentMessage W))
      → (ℕ → Attempt W)
      → ℕ
      → String
      → NotificationService W
      → NotificationService W
  unfolding count_error attempt_loop
  process_message unmarshal world now raw s = process_decoded world now raw (unmarshal raw) s
