-- ===== src/Simulator/Fault/Context.antt =====
-- What a service is told of the active faults (`GetFaultContext`), and what depends on the order in
-- which the map is visited.
use monitower.Prelude.{
  Bool, false, ◌&&◌, ◌||◌, ◌==◌, ==_iff, if◌then◌else◌, String, List, [], ◌∷◌, ◌++◌, ◌≡◌, refl, ◌≢◌,
  sym, subst, inl, inr, Bool-cases, ap, ◌∙◌, string_eq, any, arith, Perm,
}
use mathlib.Core.List.Perm
use monitower.Float64.{Float64, of_int, literal}
use monitower.Simulator.Fault.{
  FaultType, FaultContext, fault_poison_pill, fault_downstream_timeout, fault_traffic_spike,
  fault_cascading_failure, fault_intermittent_errors, fault_notification_failure, apply, apply_all,
  get_fault_context, zero_context,
}

abbrev pub is_among : FaultType → List FaultType → Bool
is_among fault = any (λ f. f == fault)

-- `apply` at a fault that is none of the switch's cases, or at one of them.
apply_cases {κ} :
    (P : FaultType → Type κ) (fault : FaultType)
    → P fault_poison_pill
    → P fault_downstream_timeout
    → P fault_traffic_spike
    → P fault_cascading_failure
    → P fault_intermittent_errors
    → P fault_notification_failure
    → (((fault == fault_poison_pill) ≡ false)
        → ((fault == fault_downstream_timeout) ≡ false)
        → ((fault == fault_traffic_spike) ≡ false)
        → ((fault == fault_cascading_failure) ≡ false)
        → ((fault == fault_intermittent_errors) ≡ false)
        → ((fault == fault_notification_failure) ≡ false)
        → P fault)
    → P fault
apply_cases P fault p d t c i n other = at fault_poison_pill p λ no_p.
    at fault_downstream_timeout d λ no_d. at fault_traffic_spike t λ no_t.
      at fault_cascading_failure c λ no_c.
        at fault_intermittent_errors i
          λ no_i. at fault_notification_failure n λ no_n. other no_p no_d no_t no_c no_i no_n
  where
    at : (k : FaultType) → P k → (((fault == k) ≡ false) → P fault) → P fault
    at k here next = elim (Bool-cases (fault == k)) [
      | inl e ↦ subst P (sym ((==_iff fault k).0 e)) here
      | inr e ↦ next e
    ]

module _ {W : Type 0} ⦃d : Float64 W⦄ where
  -- The fields that compose: each depends on which faults are active, and not on their order.
  abbrev pub Composed : String → List FaultType → FaultContext W → FaultContext W → Type 0
  Composed service order before ctx =
      (ctx.should_drop_message ≡ before.should_drop_message)
      × (ctx.should_crash ≡ (
          before.should_crash || (service == "payment" && is_among fault_cascading_failure order)))
      × (ctx.processing_delay_ms ≡ (
          if service == "payment" && is_among fault_downstream_timeout order
          then 8000
          else before.processing_delay_ms))
      × (ctx.throughput_multiplier ≡ (
          if service == "api-gateway" && is_among fault_traffic_spike order
          then literal 100 1
          else before.throughput_multiplier))

  apply-Composed :
      (service : String) (fault : FaultType) (before : FaultContext W)
      → Composed service (fault ∷ []) before (apply fault service before)
  unfolding apply
  apply-Composed service fault before =
      apply_cases (λ f. Composed service (f ∷ []) before (apply f service before)) fault
        (ground arith) (ground arith) (ground arith) (ground arith) (ground arith) (ground arith)
        (λ p d t c i n. rw (p, d, t, c, i, n) (ground arith))

  apply_all-Composed :
      (service : String) (order : List FaultType) (before : FaultContext W)
      → Composed service order before (apply_all service order before)
  unfolding apply_all
  apply_all-Composed service [] before = ground arith
  apply_all-Composed service (fault ∷ order) before = ground (
    arith,
    apply-Composed service fault before,
    apply_all-Composed service order (apply fault service before),
  )

  -- Whatever the order in which the active faults are visited, a service is told to crash exactly if
  -- it is payment and cascading-failure is active, gets a delay of 8000 ms exactly if it is payment
  -- and downstream-timeout is active (else 0), a multiplier of 10 exactly if it is api-gateway and
  -- traffic-spike is active (else 0), and is never told to drop a message.
  pub get_fault_context_fields :
      (service : String) (order : List FaultType)
      → let ctx : FaultContext W = get_fault_context order service in
        (ctx.should_drop_message ≡ false)
        × (ctx.should_crash ≡ (service == "payment" && is_among fault_cascading_failure order))
        × (ctx.processing_delay_ms
            ≡ (if service == "payment" && is_among fault_downstream_timeout order then 8000 else 0))
        × (ctx.throughput_multiplier ≡ (
            if service == "api-gateway" && is_among fault_traffic_spike order
            then literal 100 1
            else of_int 0))
  unfolding get_fault_context
  get_fault_context_fields service order = apply_all-Composed service order zero_context

  apply_all-append :
      (service : String) (xs ys : List FaultType) (ctx : FaultContext W)
      → apply_all service (xs ++ ys) ctx ≡ apply_all service ys (apply_all service xs ctx)
  unfolding apply_all
  apply_all-append service [] ys ctx = refl
  apply_all-append service (x ∷ xs) ys ctx = apply_all-append service xs ys (apply x service ctx)

  -- Where poison-pill and intermittent-errors are both active, the error probability that payment
  -- is told is the one visited last: two orders of the same faults give it 0.15 and 1.0.
  pub error_probability_by_order :
      (rest : List FaultType)
      → let pill_first = rest ++ fault_poison_pill ∷ fault_intermittent_errors ∷ [] in
        let pill_last = rest ++ fault_intermittent_errors ∷ fault_poison_pill ∷ [] in
        Perm pill_first pill_last
        × ((get_fault_context {W = W} pill_first "payment").error_probability ≡ literal 15 2)
        × ((get_fault_context {W = W} pill_last "payment").error_probability ≡ literal 10 1)
  unfolding get_fault_context
  error_probability_by_order rest =
      (Perm.append_left rest (Perm.swap _ _ _), rw apply_all-append, rw apply_all-append)

  -- For every service but api-gateway, which no worker is, the traffic-spike fault changes nothing.
  pub traffic_spike_unseen :
      (service : String) (xs ys : List FaultType)
      → service ≢ "api-gateway"
      → get_fault_context {W = W} (xs ++ fault_traffic_spike ∷ ys) service
        ≡ get_fault_context (xs ++ ys) service
  unfolding get_fault_context
  traffic_spike_unseen service xs ys h =
      apply_all-append service xs (fault_traffic_spike ∷ ys) zero_context
      ∙ ap (apply_all service ys) (unseen (apply_all service xs zero_context))
      ∙ sym (apply_all-append service xs ys zero_context)
    where
      unseen : (ctx : FaultContext W) → apply fault_traffic_spike service ctx ≡ ctx
      unseen ctx = elim (Bool-cases (service == "api-gateway")) [
        | inl e ↦ absurd (h ((==_iff service "api-gateway").0 e))
        | inr e ↦ rw e
      ]
