-- ===== src/Simulator/Order/Interleaved.antt =====
-- The two locks of a tick and the flushes of internal/simulator/order_service.go, in any order.
-- One goroutine runs the ticks, another one the flushes. The send of a tick is part of the step that
-- ends it: no flush touches the queue.
use monitower.Prelude.{
  ℕ, ◌+◌, ◌≤◌, ◌<◌, ◌^◌, [], ◌∷◌, some, length, length-append, ◌≡◌, ◌⊎◌, refl, inl, inr, Bool-cases,
  All, All-append, arith,
}
use monitower.Float64.{Float64, IsOrdered, IsMeasured, IsNumber}
use monitower.Simulator.Fault.{FaultEngine}
use monitower.Simulator.Metrics.{ServiceMetricsRow}
use monitower.Simulator.Metrics.Rows.{IsMeasurement, metrics_row-IsMeasurement}
use monitower.Simulator.Order.{
  OrderService, Tick, is_dropped, count_request, count_error, finish_tick,
}
use monitower.Simulator.Order.Metrics.{new_order_service, write_metrics}

-- The service, the number of ticks under way, how many were under way at the last flush, and the sums
-- of the counts that the flushes took.
pub record System (W : Type 0) : Type 0 where
  pub service : OrderService W
  pub under_way : ℕ
  pub carried : ℕ
  pub flushed_reqs : ℕ
  pub flushed_errors : ℕ
  pub flushed_enqueued : ℕ

abbrev pub start : {W : Type 0} → System W
start = record {
  service = new_order_service;
  under_way = 0;
  carried = 0;
  flushed_reqs = 0;
  flushed_errors = 0;
  flushed_enqueued = 0;
}

module _ {W : Type 0} ⦃f : Float64 W⦄ where
  pub data Step (s : System W) : System W → Type 0 where
    begins :
        s.under_way ≡ 0 → Step s (record s { service = count_request s.service; under_way = 1 })
    ends :
        (engine : FaultEngine) (t : Tick W)
        → IsNumber t.latency_ms
        → s.under_way ≡ 1
        → Step s (record s { service = finish_tick engine t s.service; under_way = 0 })
    flushes :
        (engine : FaultEngine) (ts elapsed : ℕ)
        → Step s (record s {
          service = (write_metrics engine ts elapsed s.service).0;
          carried = s.under_way;
          flushed_reqs = s.flushed_reqs + s.service.total_reqs;
          flushed_errors = s.flushed_errors + s.service.errors;
          flushed_enqueued = s.flushed_enqueued + s.service.enqueued;
        })

  pub data Reach : System W → Type 0 where
    here : Reach start
    then_step : {s s' : System W} → Reach s → Step s s' → Reach s'

  -- Since the start, each request is an error, enqueued, or under way. Since the last flush that holds
  -- but for a tick that was under way then: its end is counted without its request.
  pub record IsAccounted (s : System W) : Type 0 where
    pub one_open : s.under_way ≤ 1
    pub one_carried : s.carried ≤ 1
    pub in_all :
        s.flushed_reqs + s.service.total_reqs
        ≡ s.flushed_errors
          + s.service.errors
          + (s.flushed_enqueued + s.service.enqueued)
          + s.under_way
    pub since_flush :
        s.service.errors + s.service.enqueued + s.under_way ≡ s.service.total_reqs + s.carried
    pub measured : length s.service.latencies ≡ s.service.enqueued
    pub numbers : All (λ x. IsNumber x) s.service.latencies

  -- The end of a tick that is an error.
  count_error-IsAccounted :
      (s : System W)
      → s.under_way ≡ 1
      → IsAccounted s
      → IsAccounted (record s { service = count_error s.service; under_way = 0 })
  unfolding count_error
  count_error-IsAccounted s busy h = record {
    one_open = omega arith;
    one_carried = h.one_carried;
    in_all = omega (arith, h.in_all, busy);
    since_flush = omega (arith, h.since_flush, busy);
    measured = h.measured;
    numbers = h.numbers;
  }

  ends-IsAccounted :
      (engine : FaultEngine) (t : Tick W) (s : System W)
      → IsNumber t.latency_ms
      → s.under_way ≡ 1
      → IsAccounted s
      → IsAccounted (record s { service = finish_tick engine t s.service; under_way = 0 })
  unfolding finish_tick
  ends-IsAccounted engine t s number busy h = elim (Bool-cases (is_dropped t)) [
    | inl e ↦ rw e (count_error-IsAccounted s busy h)
    | inr e ↦ elim (Bool-cases t.marshal_ok) [
      | inl ok ↦
          rw (e, ok)
            (record {
              one_open = omega arith;
              one_carried = h.one_carried;
              in_all = omega (arith, h.in_all, busy);
              since_flush = omega (arith, h.since_flush, busy);
              measured =
                  omega (arith, h.measured, length-append s.service.latencies (t.latency_ms ∷ []));
              numbers =
                  All-append (λ x. IsNumber x) s.service.latencies (_ ∷ []) h.numbers (number, tt);
            })
      | inr bad ↦ rw (e, bad) (count_error-IsAccounted s busy h)
    ]
  ]

  Step-IsAccounted : (s s' : System W) → Step s s' → IsAccounted s → IsAccounted s'
  unfolding write_metrics count_request
  Step-IsAccounted s _ (begins idle) h = record {
    one_open = omega arith;
    one_carried = h.one_carried;
    in_all = omega (arith, h.in_all, idle);
    since_flush = omega (arith, h.since_flush, idle);
    measured = h.measured;
    numbers = h.numbers;
  }
  Step-IsAccounted s _ (ends engine t number busy) h = ends-IsAccounted engine t s number busy h
  Step-IsAccounted s _ (flushes engine ts elapsed) h = record {
    one_open = h.one_open;
    one_carried = h.one_open;
    in_all = omega (arith, h.in_all);
    since_flush = omega arith;
    measured = refl;
    numbers = tt;
  }

  Reach-IsAccounted : (s : System W) → Reach s → IsAccounted s
  unfolding new_order_service
  Reach-IsAccounted _ here = record {
    one_open = omega arith;
    one_carried = omega arith;
    in_all = refl;
    since_flush = refl;
    measured = refl;
    numbers = tt;
  }
  Reach-IsAccounted _ (then_step {s} {s'} r step) =
      Step-IsAccounted s s' step (Reach-IsAccounted s r)

  -- What a flush gives: the row, unless a tick was under way at the flush before, in which case the
  -- share of errors may be above 1.
  abbrev pub Flushed : FaultEngine → ℕ → ℕ → System W → Type 0
  Flushed engine ts elapsed s =
      (s.carried ≡ 1)
      ⊎ ((r : ServiceMetricsRow W) × ((write_metrics engine ts elapsed s.service).1 ≡ some r)
          × IsMeasurement engine ts "order" r)

  -- Whatever ticks and flushes came before, in whatever order of the locks, while the latencies measured
  -- are numbers: over all flushes, each request is counted once, as an error, as enqueued, or as under
  -- way; and since the last flush that holds but for one tick that was under way then. With fewer than
  -- 2 ^ 53 latencies, the next flush does not panic, unless such a tick was under way, and gives a row
  -- with a share of errors between 0 and 1, the lower percentile not above the upper one, and the names
  -- of the active faults.
  pub Reach-Flushed :
      IsOrdered W
      → IsMeasured W
      → (s : System W) → Reach s
      → (engine : FaultEngine) (ts elapsed : ℕ) → length s.service.latencies < 2 ^ 53
      → IsAccounted s × Flushed engine ts elapsed s
  unfolding write_metrics
  Reach-Flushed o m s r engine ts elapsed small =
      let h = Reach-IsAccounted s r in
      (
        h,
        elim (one_or_none s.carried h.one_carried) [
          | inl late ↦ inl late
          | inr none ↦ inr (
              metrics_row-IsMeasurement o m engine ts "order" elapsed s.service.enqueued
                s.service.errors s.service.total_reqs s.service.latencies
                (omega (arith, h.since_flush, none)) h.numbers small)
        ],
      )
    where
      one_or_none : (n : ℕ) → n ≤ 1 → (n ≡ 1) ⊎ (n ≡ 0)
      one_or_none n k = ground arith
