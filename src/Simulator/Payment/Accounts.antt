-- ===== src/Simulator/Payment/Accounts.antt =====
-- What the processing of a message counts, and that at most one message leaves the service.
use monitower.Prelude.{
  Bool, true, false, ℕ, zero, suc, ◌+◌, ◌≤◌, ltb, String, [], ◌∷◌, Option, length, length-append,
  ◌≡◌, refl, inl, inr, Bool-cases, Option-cases, arith, string_eq,
}
use monitower.Prelude.Dict.{lookup, insert}
use monitower.Float64.{Float64}
use monitower.Simulator.Payment.{
  OrderMessage, InFlightEntry, PaymentService, Attempt, incr_error, send_to_dlq, set_attempts,
  send_to_payment_queue, is_failed, attempt_loop, process_entry, process_message, entry_or_new,
  payment_message, max_attempts,
}

module _ {W : Type 0} where
  -- The number of messages that left the service.
  abbrev pub routed : PaymentService W → ℕ
  routed s = length s.payment_queue + length s.dlq_queue

  -- From `s` to `t` at most one message leaves; each processed message or error is counted in the
  -- total; at most one message is processed, and none gets to the payment queue without that.
  pub record IsAccounted (s t : PaymentService W) : Type 0 where
    pub at_most_one : routed t ≤ routed s + 1
    pub no_less : routed s ≤ routed t
    pub balanced : t.total_msgs + s.processed + s.errors ≡ s.total_msgs + t.processed + t.errors
    pub processed : s.processed ≤ t.processed
    pub once : t.processed ≤ s.processed + 1
    pub paid : s.processed + length t.payment_queue ≤ t.processed + length s.payment_queue

  -- The same without a message leaving.
  record IsQuiet (s t : PaymentService W) : Type 0 where
    routed_same : routed t ≡ routed s
    balanced : t.total_msgs + s.processed + s.errors ≡ s.total_msgs + t.processed + t.errors
    processed : t.processed ≡ s.processed
    paid : length t.payment_queue ≡ length s.payment_queue

  IsQuiet-trans : {s t u : PaymentService W} → IsQuiet s t → IsAccounted t u → IsAccounted s u
  IsQuiet-trans q a = record {
    at_most_one = omega (arith, q.routed_same, a.at_most_one);
    no_less = omega (arith, q.routed_same, a.no_less);
    balanced = omega (arith, q.balanced, a.balanced);
    processed = omega (arith, q.processed, a.processed);
    once = omega (arith, q.processed, a.once);
    paid = omega (arith, q.processed, q.paid, a.paid);
  }

  quiet_end : {s t : PaymentService W} → IsQuiet s t → IsAccounted s t
  quiet_end q = record {
    at_most_one = omega (arith, q.routed_same);
    no_less = omega (arith, q.routed_same);
    balanced = q.balanced;
    processed = omega (arith, q.processed);
    once = omega (arith, q.processed);
    paid = omega (arith, q.processed, q.paid);
  }

  set_attempts-IsQuiet :
      (id : String) (entry : InFlightEntry) (n : ℕ) (s : PaymentService W)
      → IsQuiet s (set_attempts id entry n s)
  unfolding set_attempts
  set_attempts-IsQuiet id entry n s = record {
    routed_same = refl;
    balanced = refl;
    processed = refl;
    paid = refl;
  }

  incr_error-IsQuiet : (s t : PaymentService W) → IsQuiet s t → IsQuiet s (incr_error t)
  unfolding incr_error
  incr_error-IsQuiet s t q = record {
    routed_same = q.routed_same;
    balanced = omega (arith, q.balanced);
    processed = q.processed;
    paid = q.paid;
  }

  send_to_dlq-IsAccounted :
      (cancelled : Bool) (raw reason : String) (n first now : ℕ) (s : PaymentService W)
      → IsAccounted s (send_to_dlq cancelled raw reason n first now s)
  unfolding send_to_dlq
  send_to_dlq-IsAccounted true raw reason n first now s =
      quiet_end (record { routed_same = refl; balanced = refl; processed = refl; paid = refl })
  send_to_dlq-IsAccounted false raw reason n first now s = record {
    at_most_one = omega (arith, length-append s.dlq_queue (_ ∷ []));
    no_less = omega (arith, length-append s.dlq_queue (_ ∷ []));
    balanced = refl;
    processed = omega arith;
    once = omega arith;
    paid = omega arith;
  }

module _ {W : Type 0} ⦃f : Float64 W⦄ where
  send_to_payment_queue-IsAccounted :
      (msg : OrderMessage W) (w : Attempt W) (s : PaymentService W)
      → IsAccounted s (send_to_payment_queue msg w s)
  unfolding send_to_payment_queue
  send_to_payment_queue-IsAccounted msg w s = elim (Bool-cases w.marshal_ok) [
    | inl e ↦ elim (Bool-cases w.send_cancelled) [
      | inl c ↦
          rw (e, c)
            (record {
              at_most_one = omega arith;
              no_less = omega arith;
              balanced = omega arith;
              processed = omega arith;
              once = omega arith;
              paid = omega arith;
            })
      | inr c ↦
          rw (e, c)
            (record {
              at_most_one =
                  omega (arith, length-append s.payment_queue (payment_message msg w ∷ []));
              no_less = omega (arith, length-append s.payment_queue (payment_message msg w ∷ []));
              balanced = omega arith;
              processed = omega arith;
              once = omega arith;
              paid = omega (arith, length-append s.payment_queue (payment_message msg w ∷ []));
            })
    ]
    | inr e ↦ rw e (
        quiet_end (
          incr_error-IsQuiet s s
            (record { routed_same = refl; balanced = refl; processed = refl; paid = refl })))
  ]

  attempt_loop-IsAccounted :
      (world : ℕ → Attempt W) (raw : String) (msg : OrderMessage W) (entry : InFlightEntry)
      (left attempt : ℕ) (s : PaymentService W)
      → IsAccounted s (attempt_loop world raw msg entry left attempt s)
  unfolding attempt_loop
  attempt_loop-IsAccounted world raw msg entry zero attempt s =
      quiet_end (record { routed_same = refl; balanced = refl; processed = refl; paid = refl })
  attempt_loop-IsAccounted world raw msg entry (suc left) attempt s =
      let w = world attempt in
      let tracked = set_attempts msg.message_id entry attempt s in
      let q = set_attempts-IsQuiet msg.message_id entry attempt s in
      let qe = incr_error-IsQuiet s tracked q in
      elim (Bool-cases w.sleep_cancelled) [
        | inl e ↦ rw e (quiet_end q)
        | inr e ↦ elim (Bool-cases (is_failed w)) [
          | inr good ↦
              rw (e, good) (IsQuiet-trans q (send_to_payment_queue-IsAccounted msg w tracked))
          | inl bad ↦ elim (Bool-cases (ltb attempt max_attempts)) [
            | inl more ↦ elim (Bool-cases w.backoff_cancelled) [
              | inl c ↦ rw (e, bad, more, c) (quiet_end qe)
              | inr c ↦
                  rw (e, bad, more, c)
                    (IsQuiet-trans qe (
                      attempt_loop-IsAccounted world raw msg entry left (suc attempt)
                        (incr_error tracked)))
            ]
            | inr last ↦
                rw (e, bad, last)
                  (IsQuiet-trans qe (
                    send_to_dlq-IsAccounted w.send_cancelled raw "processing_error" attempt
                      entry.first_attempt_at w.now (incr_error tracked)))
          ]
        ]
      ]

  incr_error-IsAccounted : (s t : PaymentService W) → IsAccounted s t → IsAccounted s (incr_error t)
  unfolding incr_error
  incr_error-IsAccounted s t a = record {
    at_most_one = a.at_most_one;
    no_less = a.no_less;
    balanced = omega (arith, a.balanced);
    processed = a.processed;
    once = a.once;
    paid = a.paid;
  }

  process_entry-IsAccounted :
      (world : ℕ → Attempt W) (now : ℕ) (raw : String) (msg : OrderMessage W)
      (entry : InFlightEntry) (s : PaymentService W)
      → IsAccounted s (process_entry world now raw msg entry s)
  unfolding process_entry
  process_entry-IsAccounted world now raw msg entry s = elim (Bool-cases msg.poisoned) [
    | inl e ↦ rw e (
        incr_error-IsAccounted s
          (send_to_dlq (world 0).send_cancelled raw "schema_invalid" 1 entry.first_attempt_at now s)
          (send_to_dlq-IsAccounted (world 0).send_cancelled raw "schema_invalid" 1
            entry.first_attempt_at now s))
    | inr e ↦ rw e (attempt_loop-IsAccounted world raw msg entry max_attempts 1 s)
  ]

  -- Whatever an input text and its attempts meet, also a context that is cancelled in a sleep or in a
  -- send: at most one message gets to the payment queue or the DLQ, and none is taken away; every
  -- message processed and every error is counted in the total; at most one message is processed; and
  -- none gets to the payment queue without being counted as processed.
  pub process_message-IsAccounted :
      (unmarshal : String → Option (OrderMessage W)) (world : ℕ → Attempt W) (now : ℕ)
      (raw : String) (s : PaymentService W)
      → IsAccounted s (process_message unmarshal world now raw s)
  unfolding process_message
  process_message-IsAccounted unmarshal world now raw s = elim (Option-cases (unmarshal raw)) [
    | inl e ↦ rw e (
        quiet_end (
          incr_error-IsQuiet s s
            (record { routed_same = refl; balanced = refl; processed = refl; paid = refl })))
    | inr (msg, e) ↦ rw e (
        let entry = entry_or_new now (lookup msg.message_id s.in_flight) in
        let s1 = record s { in_flight = insert msg.message_id entry s.in_flight } in
        let a = process_entry-IsAccounted world now raw msg entry s1 in
        record {
          at_most_one = a.at_most_one;
          no_less = a.no_less;
          balanced = a.balanced;
          processed = a.processed;
          once = a.once;
          paid = a.paid;
        })
  ]
