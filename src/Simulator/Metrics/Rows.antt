-- ===== src/Simulator/Metrics/Rows.antt =====
-- The row of a service whose counters are in balance.
use monitower.Prelude.{
  ℕ, ◌≤◌, ◌<◌, ◌^◌, true, ltb, String, List, [], ◌∷◌, some, length, ◌≡◌, refl, ap, inl, inr,
  Bool-cases, All, arith,
}
use monitower.Float64.{Float64, IsOrdered, IsMeasured, IsNumber, of_int, literal, div, le}
use monitower.Simulator.Fault.{FaultEngine}
use monitower.Simulator.Metrics.{
  ServiceMetricsRow, metrics_row, row_with, error_rate, percentiles, seconds, active_fault_names,
}
use monitower.Simulator.Metrics.Ranks.{percentiles-IsRanked}

module _ {W : Type 0} ⦃f : Float64 W⦄ where
  -- A row with a share of errors between 0 and 1, percentiles in order, and the name of the service
  -- and those of the active faults.
  pub record IsMeasurement (engine : FaultEngine) (ts : ℕ) (service : String)
      (r : ServiceMetricsRow W) : Type 0 where
    pub at : r.ts ≡ ts
    pub named : r.service ≡ service
    pub rate_nonneg : le (of_int 0) r.error_rate ≡ true
    pub rate_le_one : le r.error_rate (literal 10 1) ≡ true
    pub percentiles_ordered : le r.p50_latency r.p99_latency ≡ true
    pub faults : r.active_faults ≡ active_fault_names engine

module _ {W : Type 0} ⦃f : Float64 W⦄ (o : IsOrdered W) (m : IsMeasured W) where
  error_rate_bounds :
      (errors total : ℕ)
      → errors ≤ total
      → (le (of_int 0) (error_rate {W = W} errors total) ≡ true)
        × (le (error_rate {W = W} errors total) (literal 10 1) ≡ true)
  unfolding error_rate
  error_rate_bounds errors total h = elim (Bool-cases (ltb 0 total)) [
    | inl e ↦
        rw e
          (m.ratio_nonneg errors total (ground arith), m.ratio_le_one errors total (ground arith) h)
    | inr e ↦ rw e (m.count_number 0, m.zero_le_one)
  ]

  some-percentiles :
      (latencies : List W)
      → All (λ x. IsNumber x) latencies
      → length latencies < 2 ^ 53
      → (p50 p99 : W) × (percentiles latencies ≡ some (p50, p99)) × (le p50 p99 ≡ true)
  unfolding percentiles
  some-percentiles [] h small = (of_int 0, of_int 0, refl, m.count_number 0)
  some-percentiles (x ∷ xs) h small =
      let (p50, p99, found, _, _, _, _, ordered) = percentiles-IsRanked o m x xs h small in
      (p50, p99, found, ordered)

  -- Counters with no more errors than requests, and fewer than 2 ^ 53 latencies, none of them NaN,
  -- always give a row.
  pub metrics_row-IsMeasurement :
      (engine : FaultEngine) (ts : ℕ) (service : String) (elapsed done errors total : ℕ)
      (latencies : List W)
      → errors ≤ total
      → All (λ x. IsNumber x) latencies
      → length latencies < 2 ^ 53
      → (r : ServiceMetricsRow W) × (metrics_row engine ts service elapsed done errors total
            latencies
          ≡ some r)
        × IsMeasurement engine ts service r
  unfolding metrics_row
  metrics_row-IsMeasurement engine ts service elapsed done errors total latencies h numbers small =
      let (p50, p99, found, ordered) = some-percentiles latencies numbers small in
      let (nonneg, le_one) = error_rate_bounds errors total h in
      (
        record {
          ts = ts;
          service = service;
          throughput = div (of_int done) (seconds elapsed);
          error_rate = error_rate errors total;
          p50_latency = p50;
          p99_latency = p99;
          active_faults = active_fault_names engine;
        },
        ap
            (row_with ts service (div (of_int done) (seconds elapsed)) (error_rate errors total)
              (active_fault_names engine))
            found,
        record {
          at = refl;
          named = refl;
          rate_nonneg = nonneg;
          rate_le_one = le_one;
          percentiles_ordered = ordered;
          faults = refl;
        },
      )
