-- ===== src/Simulator/Fulfillment/Counts.antt =====
-- What a payment message counts for the fulfillment service.
use monitower.Prelude.{
  ℕ, zero, suc, ◌+◌, ◌≤◌, false, ◌==◌, not, ltb, if◌then◌else◌, String, [], ◌∷◌, ◌++◌, Option, none,
  some, length, length-append, ◌≡◌, refl, inl, inr, Bool-cases, Option-cases, arith, string_eq,
}
use monitower.Float64.{Float64, of_int}
use monitower.Simulator.Payment.{PaymentMessage}
use monitower.Simulator.Fulfillment.{
  FulfillmentService, Attempt, count_error, count_declined, count_processed, is_failed,
  attempt_loop, process_message, latency_ms, max_attempts,
}

module _ {W : Type 0} ⦃f : Float64 W⦄ where
  -- From `s` to `t`: at most one message processed and at most `n` errors, all counted in the total,
  -- and no latency without a processed message.
  pub record IsCounted (n : ℕ) (s t : FulfillmentService W) : Type 0 where
    pub processed_once : t.processed ≤ s.processed + 1
    pub processed_kept : s.processed ≤ t.processed
    pub few_errors : t.errors ≤ s.errors + n
    pub errors_kept : s.errors ≤ t.errors
    pub balanced : t.total_msgs + s.processed + s.errors ≡ s.total_msgs + t.processed + t.errors
    pub latencies : length t.latencies + s.processed ≤ length s.latencies + t.processed

  IsCounted-self : (n : ℕ) (s : FulfillmentService W) → IsCounted n s s
  IsCounted-self n s = record {
    processed_once = omega arith;
    processed_kept = omega arith;
    few_errors = omega arith;
    errors_kept = omega arith;
    balanced = refl;
    latencies = omega arith;
  }

  count_error-IsCounted :
      (n : ℕ) (s t : FulfillmentService W) → IsCounted n (count_error s) t → IsCounted (suc n) s t
  unfolding count_error
  count_error-IsCounted n s t w = record {
    processed_once = w.processed_once;
    processed_kept = w.processed_kept;
    few_errors = omega (arith, w.few_errors);
    errors_kept = omega (arith, w.errors_kept);
    balanced = omega (arith, w.balanced);
    latencies = w.latencies;
  }

  count_processed-IsCounted :
      (n : ℕ) (w : Attempt W) (s : FulfillmentService W) → IsCounted n s (count_processed w s)
  unfolding count_processed
  count_processed-IsCounted n w s = record {
    processed_once = omega arith;
    processed_kept = omega arith;
    few_errors = omega arith;
    errors_kept = omega arith;
    balanced = omega arith;
    latencies = omega (arith, length-append s.latencies (of_int (latency_ms w) ∷ []));
  }

  count_declined-IsCounted : (s : FulfillmentService W) → IsCounted 3 s (count_declined s)
  unfolding count_declined
  count_declined-IsCounted s = record {
    processed_once = omega arith;
    processed_kept = omega arith;
    few_errors = omega arith;
    errors_kept = omega arith;
    balanced = omega arith;
    latencies = omega arith;
  }

  attempt_loop-IsCounted :
      (world : ℕ → Attempt W) (left attempt : ℕ) (s : FulfillmentService W)
      → IsCounted left s (attempt_loop world left attempt s)
  unfolding attempt_loop
  attempt_loop-IsCounted world zero attempt s = IsCounted-self 0 s
  attempt_loop-IsCounted world (suc left) attempt s =
      let w = world attempt in
      let counted = count_error s in
      elim (Bool-cases w.sleep_cancelled) [
        | inl e ↦ rw e (IsCounted-self (suc left) s)
        | inr e ↦ elim (Bool-cases (is_failed w)) [
          | inr good ↦ rw (e, good) (count_processed-IsCounted (suc left) w s)
          | inl bad ↦ elim (Bool-cases (ltb attempt max_attempts)) [
            | inl more ↦ elim (Bool-cases w.backoff_cancelled) [
              | inl c ↦
                  rw (e, bad, more, c)
                    (count_error-IsCounted left s counted (IsCounted-self left counted))
              | inr c ↦
                  rw (e, bad, more, c)
                    (count_error-IsCounted left s (attempt_loop world left (suc attempt) counted)
                      (attempt_loop-IsCounted world left (suc attempt) counted))
            ]
            | inr last ↦
                rw (e, bad, last)
                  (count_error-IsCounted left s counted (IsCounted-self left counted))
          ]
        ]
      ]

  -- Whatever a text and its attempts meet: at most one message is processed, at most three errors are
  -- counted, the total counts both, and a latency is kept at most for a message that is processed.
  pub process_message-IsCounted :
      (unmarshal : String → Option (PaymentMessage W)) (world : ℕ → Attempt W) (raw : String)
      (s : FulfillmentService W)
      → IsCounted 3 s (process_message unmarshal world raw s)
  unfolding process_message
  process_message-IsCounted unmarshal world raw s = elim (Option-cases (unmarshal raw)) [
    | inl e ↦ rw e (count_error-IsCounted 2 s (count_error s) (IsCounted-self 2 (count_error s)))
    | inr (msg, e) ↦ elim (Bool-cases (msg.status == "declined")) [
      | inl d ↦ rw (e, d) (count_declined-IsCounted s)
      | inr d ↦ rw (e, d) (attempt_loop-IsCounted world 3 1 s)
    ]
  ]

  -- The context is not cancelled.
  pub record IsLive (world : ℕ → Attempt W) : Type 0 where
    pub sleeps : (n : ℕ) → (world n).sleep_cancelled ≡ false
    pub backs_off : (n : ℕ) → (world n).backoff_cancelled ≡ false

  -- The first of the three attempts that does not fail.
  abbrev pub first_success : (ℕ → Attempt W) → Option ℕ
  first_success world =
      if not (is_failed (world 1))
      then some 1
      else if not (is_failed (world 2))
      then some 2
      else if not (is_failed (world 3))
      then some 3
      else none

  -- The end of a message whose attempts have that first success, if any.
  abbrev pub Fulfilled :
      (ℕ → Attempt W) → FulfillmentService W → FulfillmentService W → Option ℕ → Type 0
  Fulfilled world s t none =
      (t.processed ≡ s.processed) × (t.errors ≡ s.errors + 3) × (t.latencies ≡ s.latencies)
  Fulfilled world s t (some n) =
      (t.processed ≡ s.processed + 1)
      × (t.errors + 1 ≡ s.errors + n)
      × (t.latencies ≡ s.latencies ++ of_int (latency_ms (world n)) ∷ [])

  -- While the context lives, a text that decodes to a payment which was not declined is processed by the first of three
  -- attempts that succeeds, with an error for each one before; if none does, three errors are counted
  -- and the message is gone.
  pub process_message-Fulfilled :
      (unmarshal : String → Option (PaymentMessage W)) (world : ℕ → Attempt W) (raw : String)
      (msg : PaymentMessage W) (s : FulfillmentService W)
      → unmarshal raw ≡ some msg
      → (msg.status == "declined") ≡ false
      → IsLive world
      → Fulfilled world s (process_message unmarshal world raw s) (first_success world)
  unfolding process_message count_error count_processed
  process_message-Fulfilled unmarshal world raw msg s decoded approved live =
      elim (Bool-cases (is_failed (world 1))) [
        | inr a ↦ rw (decoded, approved, live.sleeps 1, a) (refl, omega arith, refl)
        | inl a ↦ elim (Bool-cases (is_failed (world 2))) [
          | inr b ↦
              rw (decoded, approved, live.sleeps 1, live.sleeps 2, live.backs_off 1, a, b)
                (refl, omega arith, refl)
          | inl b ↦ elim (Bool-cases (is_failed (world 3))) [
            | inr c ↦
                rw
                  (
                    decoded,
                    approved,
                    live.sleeps 1,
                    live.sleeps 2,
                    live.sleeps 3,
                    live.backs_off 1,
                    live.backs_off 2,
                    a,
                    b,
                    c,
                  )
                  (refl, omega arith, refl)
            | inl c ↦
                rw
                  (
                    decoded,
                    approved,
                    live.sleeps 1,
                    live.sleeps 2,
                    live.sleeps 3,
                    live.backs_off 1,
                    live.backs_off 2,
                    a,
                    b,
                    c,
                  )
                  (refl, omega arith, refl)
          ]
        ]
      ]
