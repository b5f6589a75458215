-- ===== src/Simulator/Metrics/Tests.antt =====
-- Percentiles and rows of concrete counters.
use monitower.Prelude.{List, [], ◌∷◌, some, map, Memᴰ, ◌≡◌, refl, arith, true}
use monitower.Float64.{of_int, le}
use monitower.Float64.Hundredths.{
  Hundredths, hundredths_float, Hundredths-IsOrdered, Hundredths-IsMeasured,
}
use monitower.Simulator.Metrics.{
  percentiles, half_index, most_index, force_elapsed, active_fault_names,
}
use monitower.Simulator.Metrics.Ranks.{IsRanked, percentiles-IsRanked}

abbrev latencies : List Hundredths
latencies = map of_int (40 ∷ 10 ∷ 30 ∷ 20 ∷ [])

middle_and_last : percentiles latencies ≡ some (of_int 30, of_int 40)
unfolding percentiles
middle_and_last = refl

no_latency : percentiles {W = Hundredths} [] ≡ some (of_int 0, of_int 0)
unfolding percentiles
no_latency = refl

at_least_a_millisecond : force_elapsed 5000200 5000000 ≡ 1000000
unfolding force_elapsed
at_least_a_millisecond = refl

two_names :
    active_fault_names (record {
      active = ("poison-pill", "order") ∷ ("traffic-spike", "api-gateway") ∷ [];
      fault_events = [];
    })
    ≡ "poison-pill,traffic-spike"
unfolding active_fault_names
two_names = refl

percentiles-IsRanked_example :
    (p50 p99 : Hundredths) × (percentiles latencies ≡ some (p50, p99))
    × Memᴰ p50 latencies
    × Memᴰ p99 latencies
    × IsRanked (half_index latencies) p50 latencies
    × IsRanked (most_index latencies) p99 latencies
    × (le p50 p99 ≡ true)
percentiles-IsRanked_example =
    percentiles-IsRanked Hundredths-IsOrdered Hundredths-IsMeasured (of_int 40)
      (map of_int (10 ∷ 30 ∷ 20 ∷ [])) (refl, (refl, (refl, (refl, tt)))) (omega arith)
