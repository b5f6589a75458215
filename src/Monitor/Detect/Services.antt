-- ===== src/Monitor/Detect/Services.antt =====
-- Which signals `DetectServiceAnomalies` returns.
use Prim.Native.String.{◌++◌ as concat}
use monitower.Prelude.{
  Bool, true, false, ◌&&◌, if◌then◌else◌, String, List, [], ◌∷◌, none, some, some-injective, ◌≡◌,
  refl, sym, ap, subst, inl, inr, Memᴰ, Bool-cases, Option-cases, All, All-of_forall, of_All,
  string_eq,
}
use monitower.Float64.{Float64, IsOrdered, lt, le, of_int, literal, add, sub, mul, abs_float}
use monitower.Monitor.Signal.{AnomalySignal}
use monitower.Monitor.Baselines.{Baselines, Stats, service_metric_stats}
use monitower.Monitor.Detect.{
  ServiceRow, service_signal, signal_of, check_metric, check_row, check_rows,
  detect_service_anomalies,
}
use monitower.Monitor.Detect.Best.{
  mem-lookup, mem-values_of, values_of-mem, Beats, keep_best-All, keep_best-Beats_self,
  keep_best-Beats,
}

some_of_both :
    {A : Type 0} (a b : Bool) (x y : A)
    → (if a && b then some x else none) ≡ some y
    → (a ≡ true) × (b ≡ true) × (y ≡ x)
some_of_both true true x y h = (refl, refl, sym (some-injective x y h))
some_of_both true false x y h = cc
some_of_both false b x y h = cc

module _ {W : Type 0} ⦃f : Float64 W⦄ where
  -- The signal that a row gives for a metric which is far from its baseline: three deviations above
  -- the mean for the errors and the latency, two below it for the throughput, and past a fixed bound.
  pub data IsAnomaly (bs : Baselines W) (r : ServiceRow W) (sig : AnomalySignal W) : Type 0 where
    errors :
        (let s = service_metric_stats r.service "error_rate" bs in
          (s.valid ≡ true)
          × (lt (add s.mean (mul (of_int 3) s.stddev)) r.error_rate ≡ true)
          × (le (literal 10 2) r.error_rate ≡ true)
          × (sig ≡ service_signal r "error_rate" r.error_rate s "high"))
        → IsAnomaly bs r sig
    latency :
        (let s = service_metric_stats r.service "p99_latency" bs in
          (s.valid ≡ true)
          × (lt (add s.mean (mul (of_int 3) s.stddev)) r.p99_latency ≡ true)
          × (le (of_int 500) r.p99_latency ≡ true)
          × (sig ≡ service_signal r "p99_latency" r.p99_latency s "high"))
        → IsAnomaly bs r sig
    throughput :
        (let s = service_metric_stats r.service "throughput" bs in
          (s.valid ≡ true)
          × (lt r.throughput (sub s.mean (mul (of_int 2) s.stddev)) ≡ true)
          × (lt r.throughput (literal 5 1) ≡ true)
          × (sig ≡ service_signal r "throughput" r.throughput s "low"))
        → IsAnomaly bs r sig

  -- The key of a signal in the map.
  abbrev pub key_of : AnomalySignal W → String
  key_of sig = concat sig.service (concat ":" sig.metric)

  -- An entry of the map comes from a row, and stands under its signal's key.
  abbrev Sourced : Baselines W → List (ServiceRow W) → String × AnomalySignal W → Type 0
  Sourced bs rows e = (r : ServiceRow W) × Memᴰ r rows × IsAnomaly bs r e.1 × (e.0 ≡ key_of e.1)

  module _ (bs : Baselines W) (r : ServiceRow W) where
    abbrev stats_of : String → Stats W
    stats_of metric = service_metric_stats r.service metric bs

    abbrev row_key : String → String
    row_key metric = concat r.service (concat ":" metric)

    check_metric-All :
        (P : String × AnomalySignal W → Type 0) (metric : String) (value : W)
        (best : List (String × AnomalySignal W))
        → ((sig : AnomalySignal W)
            → (stats_of metric).valid ≡ true
            → signal_of r metric value (stats_of metric) ≡ some sig
            → P (row_key metric, sig))
        → All P best
        → All P (check_metric bs r metric value best)
    unfolding check_metric
    check_metric-All P metric value best h all = elim (Bool-cases (stats_of metric).valid) [
      | inl e ↦ elim (Option-cases (signal_of r metric value (stats_of metric))) [
        | inl n ↦ rw (e, n) all
        | inr (sig, q) ↦ rw (e, q) (keep_best-All P (row_key metric) sig best (h sig e q) all)
      ]
      | inr e ↦ rw e all
    ]

    check_metric-Beats :
        (o : IsOrdered W) (metric : String) (value : W) (best : List (String × AnomalySignal W))
        (k : String) (x : AnomalySignal W)
        → Beats k x best
        → Beats k x (check_metric bs r metric value best)
    unfolding check_metric
    check_metric-Beats o metric value best k x b = elim (Bool-cases (stats_of metric).valid) [
      | inl e ↦ elim (Option-cases (signal_of r metric value (stats_of metric))) [
        | inl n ↦ rw (e, n) b
        | inr (sig, q) ↦ rw (e, q) (keep_best-Beats o (row_key metric) k sig x best b)
      ]
      | inr e ↦ rw e b
    ]

    check_metric-Beats_self :
        (o : IsOrdered W) (metric : String) (value : W) (best : List (String × AnomalySignal W))
        (sig : AnomalySignal W)
        → (stats_of metric).valid ≡ true
        → signal_of r metric value (stats_of metric) ≡ some sig
        → Beats (row_key metric) sig (check_metric bs r metric value best)
    unfolding check_metric
    check_metric-Beats_self o metric value best sig e q =
        rw (e, q) (keep_best-Beats_self o (row_key metric) sig best)

    signal_of-errors :
        (sig : AnomalySignal W)
        → (stats_of "error_rate").valid ≡ true
        → signal_of r "error_rate" r.error_rate (stats_of "error_rate") ≡ some sig
        → IsAnomaly bs r sig × (row_key "error_rate" ≡ key_of sig)
    unfolding signal_of
    signal_of-errors sig v h =
        let (a, b, e) = some_of_both _ _ _ sig h in (errors (v, a, b, e), ap key_of (sym e))

    signal_of-latency :
        (sig : AnomalySignal W)
        → (stats_of "p99_latency").valid ≡ true
        → signal_of r "p99_latency" r.p99_latency (stats_of "p99_latency") ≡ some sig
        → IsAnomaly bs r sig × (row_key "p99_latency" ≡ key_of sig)
    unfolding signal_of
    signal_of-latency sig v h =
        let (a, b, e) = some_of_both _ _ _ sig h in (latency (v, a, b, e), ap key_of (sym e))

    signal_of-throughput :
        (sig : AnomalySignal W)
        → (stats_of "throughput").valid ≡ true
        → signal_of r "throughput" r.throughput (stats_of "throughput") ≡ some sig
        → IsAnomaly bs r sig × (row_key "throughput" ≡ key_of sig)
    unfolding signal_of
    signal_of-throughput sig v h =
        let (a, b, e) = some_of_both _ _ _ sig h in (throughput (v, a, b, e), ap key_of (sym e))

    check_row-All :
        (rows : List (ServiceRow W)) (best : List (String × AnomalySignal W))
        → Memᴰ r rows
        → All (Sourced bs rows) best
        → All (Sourced bs rows) (check_row bs r best)
    unfolding check_row
    check_row-All rows best m all =
        let P = Sourced bs rows in
        check_metric-All P "throughput" r.throughput _
          (λ sig v q. let (a, e) = signal_of-throughput sig v q in (r, m, a, e))
          (check_metric-All P "p99_latency" r.p99_latency _
            (λ sig v q. let (a, e) = signal_of-latency sig v q in (r, m, a, e))
            (check_metric-All P "error_rate" r.error_rate best
              (λ sig v q. let (a, e) = signal_of-errors sig v q in (r, m, a, e)) all))

    check_row-Beats :
        (o : IsOrdered W) (best : List (String × AnomalySignal W)) (k : String)
        (x : AnomalySignal W)
        → Beats k x best
        → Beats k x (check_row bs r best)
    unfolding check_row
    check_row-Beats o best k x b = check_metric-Beats o "throughput" r.throughput _ k x (
        check_metric-Beats o "p99_latency" r.p99_latency _ k x
          (check_metric-Beats o "error_rate" r.error_rate best k x b))

    check_row-Beats_self :
        (o : IsOrdered W) (best : List (String × AnomalySignal W)) (sig : AnomalySignal W)
        → IsAnomaly bs r sig
        → Beats (key_of sig) sig (check_row bs r best)
    unfolding check_row signal_of
    check_row-Beats_self o best sig (errors (v, a, b, e)) =
        check_metric-Beats o "throughput" r.throughput _ (key_of sig) sig (
          check_metric-Beats o "p99_latency" r.p99_latency _ (key_of sig) sig (
            rw e (
              check_metric-Beats_self o "error_rate" r.error_rate best
                (service_signal r "error_rate" r.error_rate (stats_of "error_rate") "high") v
                (rw (a, b) refl))))
    check_row-Beats_self o best sig (latency (v, a, b, e)) =
        check_metric-Beats o "throughput" r.throughput _ (key_of sig) sig (
          rw e (
            check_metric-Beats_self o "p99_latency" r.p99_latency _
              (service_signal r "p99_latency" r.p99_latency (stats_of "p99_latency") "high") v
              (rw (a, b) refl)))
    check_row-Beats_self o best sig (throughput (v, a, b, e)) = rw e (
        check_metric-Beats_self o "throughput" r.throughput _
          (service_signal r "throughput" r.throughput (stats_of "throughput") "low") v
          (rw (a, b) refl))

  module _ (bs : Baselines W) (all_rows : List (ServiceRow W)) where
    check_rows-All :
        (rows : List (ServiceRow W)) (best : List (String × AnomalySignal W))
        → All (λ r. Memᴰ r all_rows) rows
        → All (Sourced bs all_rows) best
        → All (Sourced bs all_rows) (check_rows bs rows best)
    unfolding check_rows
    check_rows-All [] best m all = all
    check_rows-All (r ∷ rows) best m all =
        check_rows-All rows (check_row bs r best) m.1 (check_row-All bs r all_rows best m.0 all)

  module _ (bs : Baselines W) (o : IsOrdered W) where
    check_rows-Beats :
        (rows : List (ServiceRow W)) (best : List (String × AnomalySignal W)) (k : String)
        (x : AnomalySignal W)
        → Beats k x best
        → Beats k x (check_rows bs rows best)
    unfolding check_rows
    check_rows-Beats [] best k x b = b
    check_rows-Beats (r ∷ rows) best k x b =
        check_rows-Beats rows (check_row bs r best) k x (check_row-Beats bs r o best k x b)

    check_rows-Beats_self :
        (rows : List (ServiceRow W)) (best : List (String × AnomalySignal W)) (r : ServiceRow W)
        (sig : AnomalySignal W)
        → Memᴰ r rows
        → IsAnomaly bs r sig
        → Beats (key_of sig) sig (check_rows bs rows best)
    unfolding check_rows
    check_rows-Beats_self [] best r sig m h = elim m [ ]
    check_rows-Beats_self (row ∷ rows) best r sig (Memᴰ.head e) h =
        check_rows-Beats rows (check_row bs row best) (key_of sig) sig
          (check_row-Beats_self bs row o best sig (subst (λ x. IsAnomaly bs x sig) e h))
    check_rows-Beats_self (row ∷ rows) best r sig (Memᴰ.tail m) h =
        check_rows-Beats_self rows (check_row bs row best) r sig m h

  -- Every signal returned is an anomaly of one of the rows: the row's metric against its baseline.
  pub detect_service_anomalies_sound :
      (bs : Baselines W) (rows : List (ServiceRow W)) (sig : AnomalySignal W)
      → Memᴰ sig (detect_service_anomalies rows bs)
      → (r : ServiceRow W) × Memᴰ r rows × IsAnomaly bs r sig
  unfolding detect_service_anomalies
  detect_service_anomalies_sound bs rows sig m =
      let (k, entry) = values_of-mem sig (check_rows bs rows []) m in
      let (r, mem, a, e) =
        of_All (Sourced bs rows) (k, sig) (check_rows bs rows [])
          (check_rows-All bs rows rows [] (All-of_forall _ rows (λ r m. m)) tt) entry in
      (r, mem, a)

  -- Where comparisons follow IEEE 754, every anomaly of a row is reported: a signal is returned
  -- with its service and metric, up to the key that joins them, which does not deviate less.
  pub detect_service_anomalies_complete :
      (o : IsOrdered W) (bs : Baselines W) (rows : List (ServiceRow W)) (r : ServiceRow W)
      (sig : AnomalySignal W)
      → Memᴰ r rows
      → IsAnomaly bs r sig
      → (e : AnomalySignal W) × Memᴰ e (detect_service_anomalies rows bs)
        × (key_of sig ≡ key_of e)
        × (lt (abs_float e.deviation) (abs_float sig.deviation) ≡ false)
  unfolding detect_service_anomalies
  detect_service_anomalies_complete o bs rows r sig m a =
      let (e, found, h) = check_rows-Beats_self bs o rows [] r sig m a in
      let entry = mem-lookup (key_of sig) e (check_rows bs rows []) found in
      let (row, mem, anomaly, key) =
        of_All (Sourced bs rows) (key_of sig, e) (check_rows bs rows [])
          (check_rows-All bs rows rows [] (All-of_forall _ rows (λ r m. m)) tt) entry in
      (e, mem-values_of (key_of sig) e (check_rows bs rows []) entry, key, h)
