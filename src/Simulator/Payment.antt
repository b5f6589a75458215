-- ===== src/Simulator/Payment.antt =====
-- The payment service of internal/simulator/payment_service.go: one message, one tick, one write of
-- the metrics.
-- `unmarshal` stands for json.Unmarshal into an orderMessage, and the messages sent are the values
-- that their JSON texts encode. What an attempt meets in the world is an argument: whether the
-- context is cancelled during a sleep, the time it takes, the fault context, the dice, the clock, the
-- new ids, and whether json.Marshal succeeds. A message is processed without another goroutine in
-- between; the counters of a service are under one lock.
pub mod Accounts
pub mod Routing
pub mod Ticks
pub mod Metrics
pub mod Tests
use monitower.Prelude.{
  ℕ, zero, suc, ◌+◌, ◌%◌, Bool, true, false, ◌&&◌, not, ltb, if◌then◌else◌, String, List, [], ◌∷◌,
  ◌++◌, Option, none, some, string_eq,
}
use monitower.Prelude.Dict.{lookup, insert, erase}
use monitower.Float64.{Float64, of_int, lt, div}
use monitower.Simulator.Queue.{Queue, try_receive}

-- The fields of an order that the service reads.
pub record OrderMessage (W : Type 0) : Type 0 where
  pub message_id : String
  pub order_id : String
  pub customer_id : String
  pub total_amount : W
  pub trace_id : String
  pub poisoned : Bool

pub record PaymentMessage (W : Type 0) : Type 0 where
  pub message_id : String
  pub order_id : String
  pub customer_id : String
  pub total_amount : W
  pub status : String
  pub transaction_id : String
  pub processed_at : ℕ
  pub trace_id : String
  pub processing_ms : ℕ

pub record DlqMessage : Type 0 where
  pub original_message : String
  pub failure_reason : String
  pub attempt_count : ℕ
  pub first_attempt_at : ℕ
  pub last_attempt_at : ℕ

pub record InFlightEntry : Type 0 where
  pub attempts : ℕ
  pub first_attempt_at : ℕ

pub record PaymentService (W : Type 0) : Type 0 where
  pub processed : ℕ
  pub errors : ℕ
  pub total_msgs : ℕ
  pub latencies : List W
  pub in_flight : List (String × InFlightEntry)
  pub crashed : Bool
  -- what `Send` put on payment-queue and on payment-dlq, in order
  pub payment_queue : List (PaymentMessage W)
  pub dlq_queue : List DlqMessage

pub record Attempt (W : Type 0) : Type 0 where
  pub processing_delay_ms : ℕ
  pub random : ℕ
  pub overrun_ms : ℕ
  pub sleep_cancelled : Bool
  pub error_probability : W
  pub dice : W
  pub backoff_cancelled : Bool
  pub now : ℕ
  pub new_message_id : String
  pub new_transaction_id : String
  pub marshal_ok : Bool
  -- whether the select of `Send` takes the branch of the cancelled context, which drops the message
  pub send_cancelled : Bool

abbrev pub max_attempts : ℕ
max_attempts = 3

abbrev pub entry_or_new : ℕ → Option InFlightEntry → InFlightEntry
entry_or_new now none = record { attempts = 0; first_attempt_at = now }
entry_or_new now (some entry) = entry

-- A `Send`, to what was put on the queue before.
abbrev pub sent {ℓ} : {A : Type ℓ} → Bool → A → List A → List A
sent true msg queue = queue
sent false msg queue = queue ++ msg ∷ []

module _ {W : Type 0} where
  unfoldable pub incr_error : PaymentService W → PaymentService W
  incr_error s = record s { errors = s.errors + 1; total_msgs = s.total_msgs + 1 }

  unfoldable pub send_to_dlq :
      Bool → String → String → ℕ → ℕ → ℕ → PaymentService W → PaymentService W
  send_to_dlq cancelled raw reason attempts first_attempt_at now s =
      let dm : DlqMessage = record {
        original_message = raw;
        failure_reason = reason;
        attempt_count = attempts;
        first_attempt_at = first_attempt_at;
        last_attempt_at = now;
      } in
      record s { dlq_queue = sent cancelled dm s.dlq_queue }

  -- The sleep of an attempt: the fault's delay, or a random one.
  unfoldable pub sleep_ms : Attempt W → ℕ
  sleep_ms w = if ltb 0 w.processing_delay_ms then w.processing_delay_ms else 50 + w.random % 101

  -- The time measured, in whole milliseconds.
  abbrev pub latency_ms : Attempt W → ℕ
  latency_ms w = sleep_ms w + w.overrun_ms

  unfoldable pub set_attempts : String → InFlightEntry → ℕ → PaymentService W → PaymentService W
  set_attempts id entry attempt s = record s {
    in_flight = insert id (record entry { attempts = attempt }) s.in_flight;
  }

  abbrev pub payment_message : OrderMessage W → Attempt W → PaymentMessage W
  payment_message msg w = record {
    message_id = w.new_message_id;
    order_id = msg.order_id;
    customer_id = msg.customer_id;
    total_amount = msg.total_amount;
    status = "approved";
    transaction_id = w.new_transaction_id;
    processed_at = w.now;
    trace_id = msg.trace_id;
    processing_ms = latency_ms w;
  }

module _ {W : Type 0} ⦃f : Float64 W⦄ where
  unfoldable pub is_failed : Attempt W → Bool
  is_failed w = lt (of_int 0) w.error_probability && lt w.dice w.error_probability

  unfoldable pub send_to_payment_queue :
      OrderMessage W → Attempt W → PaymentService W → PaymentService W
  unfolding incr_error sleep_ms
  send_to_payment_queue msg w s =
      if w.marshal_ok
      then record s {
        payment_queue = sent w.send_cancelled (payment_message msg w) s.payment_queue;
        processed = s.processed + 1;
        total_msgs = s.total_msgs + 1;
        latencies = s.latencies ++ of_int (latency_ms w) ∷ [];
      }
      else incr_error s

  -- The loop over the attempts: the ones left, and the number of this one. The last attempt sends to
  -- the DLQ and ends the loop.
  unfoldable pub attempt_loop :
      (ℕ → Attempt W)
      → String
      → OrderMessage W
      → InFlightEntry
      → ℕ
      → ℕ
      → PaymentService W
      → PaymentService W
  unfolding incr_error send_to_dlq set_attempts send_to_payment_queue is_failed
  attempt_loop world raw msg entry zero attempt s = s
  attempt_loop world raw msg entry (suc left) attempt s =
      let w = world attempt in
      let tracked = set_attempts msg.message_id entry attempt s in
      let counted = incr_error tracked in
      let rest = attempt_loop world raw msg entry left (suc attempt) counted in
      if w.sleep_cancelled
      then tracked
      else if not (is_failed w)
      then send_to_payment_queue msg w tracked
      else if ltb attempt max_attempts
      then (if w.backoff_cancelled then counted else rest)
      else send_to_dlq w.send_cancelled raw "processing_error" attempt entry.first_attempt_at w.now
          counted

  -- The body between the entry in the in-flight map and its removal. The attempts count from 1;
  -- `world 0` says what the send of a poisoned message meets.
  unfoldable pub process_entry :
      (ℕ → Attempt W)
      → ℕ
      → String
      → OrderMessage W
      → InFlightEntry
      → PaymentService W
      → PaymentService W
  unfolding incr_error send_to_dlq attempt_loop
  process_entry world now raw msg entry s =
      if msg.poisoned
      then incr_error
          (send_to_dlq (world 0).send_cancelled raw "schema_invalid" 1 entry.first_attempt_at now s)
      else attempt_loop world raw msg entry max_attempts 1 s

  abbrev pub forget : String → PaymentService W → PaymentService W
  forget id s = record s { in_flight = erase id s.in_flight }

  -- The deferred call removes the entry at every return.
  abbrev pub process_decoded :
      (ℕ → Attempt W) → ℕ → String → Option (OrderMessage W) → PaymentService W → PaymentService W
  process_decoded world now raw none s = incr_error s
  process_decoded world now raw (some msg) s =
      let entry = entry_or_new now (lookup msg.message_id s.in_flight) in
      forget msg.message_id (
        process_entry world now raw msg entry
          (record s { in_flight = insert msg.message_id entry s.in_flight }))

  unfoldable pub process_message :
      (String → Option (OrderMessage W))
      → (ℕ → Attempt W)
      → ℕ
      → String
      → PaymentService W
      → PaymentService W
  unfolding incr_error process_entry
  process_message unmarshal world now raw s = process_decoded world now raw (unmarshal raw) s

abbrev took : Queue × Option String → Queue × List String → Queue × List String
took (after, none) rest = (after, [])
took (after, some msg) rest = (rest.0, msg ∷ rest.1)

-- At most `n` messages are taken from the queue; each is given to a goroutine of its own.
unfoldable pub poll : ℕ → Queue → Queue × List String
unfolding try_receive
poll zero q = (q, [])
poll (suc n) q = let r = try_receive q in let rest = poll n r.0 in took r rest

-- A tick: the service, the order queue, and the messages whose processing it starts. `should_crash`
-- is that of the fault context that the tick reads.
unfoldable pub process_tick :
    {W : Type 0} → Bool → PaymentService W → Queue → PaymentService W × Queue × List String
unfolding poll
process_tick should_crash s q =
    if s.crashed
    then ((if should_crash then s else record s { crashed = false }), q, [])
    else if should_crash
    then (record s { crashed = true }, q, [])
    else (let r = poll 5 q in (s, r.0, r.1))
