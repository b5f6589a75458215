-- ===== src/Simulator/Metrics.antt =====
-- What a service writes to the table service_metrics: the helpers of writeMetrics, which the four
-- services of internal/simulator share (order_service.go), and the row.
-- `none` stands for the panic of an index out of range. A duration is in nanoseconds.
pub mod Sorting
pub mod Ranks
pub mod Rows
pub mod Tests
use monitower.Prelude.{
  ℕ, zero, suc, ◌+◌, ◌-◌, ◌/◌, ◌%◌, Bool, not, ltb, ◌&&◌, ◌||◌, if◌then◌else◌, String, List, [],
  ◌∷◌, Option, none, some, map, length,
}
use monitower.Prelude.Text.{join_comma}
use monitower.Float64.{Float64, of_int, literal, add, mul, div, trunc, lt, eq}
use monitower.Simulator.Fault.{FaultEngine, get_active_faults}

pub record ServiceMetricsRow (W : Type 0) : Type 0 where
  pub ts : ℕ
  pub service : String
  pub throughput : W
  pub error_rate : W
  pub p50_latency : W
  pub p99_latency : W
  pub active_faults : String

abbrev pub get_elem? {ℓ} : {A : Type ℓ} → List A → ℕ → Option A
get_elem? [] i = none
get_elem? (x ∷ xs) zero = some x
get_elem? (x ∷ xs) (suc i) = get_elem? xs i

-- `strings.Join(names, ",")` over the names of the active faults
unfoldable pub active_fault_names : FaultEngine → String
unfolding join_comma get_active_faults
active_fault_names engine = join_comma (map (λ f. f.fault_type) (get_active_faults engine))

-- `ForceWriteMetrics` takes the time since the last flush, but no less than a millisecond.
unfoldable pub force_elapsed : ℕ → ℕ → ℕ
force_elapsed now last_flush_at =
    let elapsed = now - last_flush_at in if ltb elapsed 1000000 then 1000000 else elapsed

abbrev both {ℓ} : {A : Type ℓ} → Option A → Option A → Option (A × A)
both (some a) (some b) = some (a, b)
both (some a) none = none
both none b = none

module _ {W : Type 0} ⦃f : Float64 W⦄ where
  -- `sort.Float64s` puts NaN first.
  abbrev pub is_nan : W → Bool
  is_nan x = not (eq x x)

  abbrev pub less : W → W → Bool
  less x y = lt x y || (is_nan x && not (is_nan y))

  unfoldable pub insert_float : W → List W → List W
  insert_float x [] = x ∷ []
  insert_float x (y ∷ ys) =
      let rest = insert_float x ys in if less y x then y ∷ rest else x ∷ y ∷ ys

  -- `sort.Float64s`, on the copy that `copy` makes
  unfoldable pub sort_floats : List W → List W
  unfolding insert_float
  sort_floats [] = []
  sort_floats (x ∷ xs) = insert_float x (sort_floats xs)

  -- `int(float64(len(sorted)) * 0.50)` and the same with 0.99
  abbrev pub half_index : List W → ℕ
  half_index sorted = trunc {W = W} (mul (of_int (length sorted)) (literal 50 2))

  abbrev pub most_index : List W → ℕ
  most_index sorted = trunc {W = W} (mul (of_int (length sorted)) (literal 99 2))

  abbrev pub pick : List W → Option (W × W)
  pick sorted = both (get_elem? sorted (half_index sorted)) (get_elem? sorted (most_index sorted))

  unfoldable pub percentiles : List W → Option (W × W)
  unfolding sort_floats
  percentiles [] = some (of_int 0, of_int 0)
  percentiles (x ∷ xs) = pick (sort_floats (x ∷ xs))

  -- `elapsed.Seconds()`
  abbrev pub seconds : ℕ → W
  seconds ns = add (of_int (ns / 1000000000)) (div (of_int (ns % 1000000000)) (of_int 1000000000))

  unfoldable pub error_rate : ℕ → ℕ → W
  error_rate errors total = if ltb 0 total then div (of_int errors) (of_int total) else of_int 0

  abbrev pub row_with : ℕ → String → W → W → String → Option (W × W) → Option (ServiceMetricsRow W)
  row_with ts service throughput rate names none = none
  row_with ts service throughput rate names (some (p50, p99)) = some (record {
    ts = ts;
    service = service;
    throughput = throughput;
    error_rate = rate;
    p50_latency = p50;
    p99_latency = p99;
    active_faults = names;
  })

  -- The row of a service with these counters, `done` being those it enqueued or processed.
  unfoldable pub metrics_row :
      FaultEngine → ℕ → String → ℕ → ℕ → ℕ → ℕ → List W → Option (ServiceMetricsRow W)
  unfolding percentiles error_rate active_fault_names
  metrics_row engine ts service elapsed done errors total latencies =
      row_with ts service (div (of_int done) (seconds elapsed)) (error_rate errors total)
        (active_fault_names engine) (percentiles latencies)
