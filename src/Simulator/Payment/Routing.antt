-- ===== src/Simulator/Payment/Routing.antt =====
-- Where a message ends while the context lives.
use monitower.Prelude.{
  ℕ, ◌+◌, true, false, not, if◌then◌else◌, String, List, [], ◌∷◌, ◌++◌, Option, none, some, ◌≡◌,
  refl, inl, inr, Bool-cases, ==_self, arith, string_eq,
}
use monitower.Prelude.Dict.{lookup, insert, lookup-erase}
use monitower.Float64.{Float64}
use monitower.Simulator.Payment.{
  OrderMessage, InFlightEntry, PaymentService, Attempt, incr_error, send_to_dlq, set_attempts,
  send_to_payment_queue, is_failed, attempt_loop, process_entry, process_message, entry_or_new,
  payment_message, forget,
}

module _ {W : Type 0} ⦃f : Float64 W⦄ where
  -- The context is not cancelled, and the payloads are encoded.
  pub record IsLive (world : ℕ → Attempt W) : Type 0 where
    pub sleeps : (n : ℕ) → (world n).sleep_cancelled ≡ false
    pub backs_off : (n : ℕ) → (world n).backoff_cancelled ≡ false
    pub marshals : (n : ℕ) → (world n).marshal_ok ≡ true
    pub sends : (n : ℕ) → (world n).send_cancelled ≡ false

  -- The first of the three attempts that does not fail.
  abbrev pub first_success : (ℕ → Attempt W) → Option ℕ
  first_success world =
      if not (is_failed (world 1))
      then some 1
      else if not (is_failed (world 2))
      then some 2
      else if not (is_failed (world 3))
      then some 3
      else none

  module _ (world : ℕ → Attempt W) (raw : String) (msg : OrderMessage W) (first : ℕ)
      (s t : PaymentService W) where
    abbrev pub ToDlq : String → ℕ → ℕ → Type 0
    ToDlq reason n now =
        (t.payment_queue ≡ s.payment_queue)
        × (t.dlq_queue
            ≡ s.dlq_queue
              ++ record {
                original_message = raw;
                failure_reason = reason;
                attempt_count = n;
                first_attempt_at = first;
                last_attempt_at = now;
              }
                ∷ [])
        × (t.processed ≡ s.processed)
        × (t.errors ≡ s.errors + n)

    -- The end of a message whose attempts have that first success, if any.
    abbrev pub Ends : Option ℕ → Type 0
    Ends none = ToDlq "processing_error" 3 (world 3).now
    Ends (some n) =
        (t.payment_queue ≡ s.payment_queue ++ payment_message msg (world n) ∷ [])
        × (t.dlq_queue ≡ s.dlq_queue)
        × (t.processed ≡ s.processed + 1)
        × (t.errors + 1 ≡ s.errors + n)

  attempt_loop-Ends :
      (world : ℕ → Attempt W) (raw : String) (msg : OrderMessage W) (entry : InFlightEntry)
      (s : PaymentService W)
      → IsLive world
      → Ends world raw msg entry.first_attempt_at s
          (attempt_loop world raw msg entry 3 1 s)
          (first_success world)
  unfolding attempt_loop send_to_payment_queue set_attempts incr_error send_to_dlq
  attempt_loop-Ends world raw msg entry s live = elim (Bool-cases (is_failed (world 1))) [
    | inr a ↦ rw (live.sleeps 1, a, live.marshals 1, live.sends 1) (refl, refl, refl, omega arith)
    | inl a ↦ elim (Bool-cases (is_failed (world 2))) [
      | inr b ↦
          rw (live.sleeps 1, live.sleeps 2, live.backs_off 1, a, b, live.marshals 2, live.sends 2)
            (refl, refl, refl, omega arith)
      | inl b ↦ elim (Bool-cases (is_failed (world 3))) [
        | inr c ↦
            rw
              (
                live.sleeps 1,
                live.sleeps 2,
                live.sleeps 3,
                live.backs_off 1,
                live.backs_off 2,
                a,
                b,
                c,
                live.marshals 3,
                live.sends 3,
              )
              (refl, refl, refl, omega arith)
        | inl c ↦
            rw
              (
                live.sleeps 1,
                live.sleeps 2,
                live.sleeps 3,
                live.backs_off 1,
                live.backs_off 2,
                a,
                b,
                c,
                live.sends 3,
              )
              (refl, refl, refl, omega arith)
      ]
    ]
  ]

  Ends-forget :
      (world : ℕ → Attempt W) (raw id : String) (msg : OrderMessage W) (first : ℕ)
      (entries : List (String × InFlightEntry)) (s t : PaymentService W) (o : Option ℕ)
      → Ends world raw msg first (record s { in_flight = entries }) t o
      → Ends world raw msg first s (forget id t) o
  Ends-forget world raw id msg first entries s t none h = h
  Ends-forget world raw id msg first entries s t (some n) h = h

  -- The time stamp of the entry that `processMessage` works with.
  abbrev pub first_attempt_of : ℕ → OrderMessage W → PaymentService W → ℕ
  first_attempt_of now msg s =
      (entry_or_new now (lookup msg.message_id s.in_flight)).first_attempt_at

  -- While the context lives and payloads can be encoded, a text that decodes to an order which is not
  -- poisoned ends in exactly one place: if one of three attempts succeeds, the first that does sends
  -- the payment of the order, and each one before is an error; else the order goes to the DLQ with its
  -- text and three errors. No entry of the order is left in flight.
  pub process_message-Ends :
      (unmarshal : String → Option (OrderMessage W)) (world : ℕ → Attempt W) (now : ℕ)
      (raw : String) (msg : OrderMessage W) (s : PaymentService W)
      → unmarshal raw ≡ some msg
      → msg.poisoned ≡ false
      → IsLive world
      → Ends world raw msg
          (first_attempt_of now msg s)
          s
          (process_message unmarshal world now raw s)
          (first_success world)
        × (lookup msg.message_id (process_message unmarshal world now raw s).in_flight ≡ none)
  unfolding process_message process_entry
  process_message-Ends unmarshal world now raw msg s decoded sound live =
      let id = msg.message_id in
      let entry = entry_or_new now (lookup id s.in_flight) in
      let entries = insert id entry s.in_flight in
      let s1 = record s { in_flight = entries } in
      let t = attempt_loop world raw msg entry 3 1 s1 in
      rw (decoded, sound)
        (
          Ends-forget world raw id msg entry.first_attempt_at entries s t (first_success world)
              (attempt_loop-Ends world raw msg entry s1 live),
          rw (lookup-erase id id t.in_flight, ==_self id) refl,
        )
