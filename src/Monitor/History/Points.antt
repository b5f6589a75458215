-- ===== src/Monitor/History/Points.antt =====
-- Which points the history of a service's metric has.
use monitower.Prelude.{
  ℕ, ◌+◌, ◌-◌, ◌*◌, ◌^◌, ◌<◌, true, leb, String, List, [], ◌∷◌, some, Memᴰ, ◌≡◌, ◌↔◌, refl, sym, ap,
  ap₂, subst, ◌∙◌, inl, inr, Bool-cases, arith, string_eq, ◌⊎◌, both_true, ◌==◌, ◌||◌, ==_iff,
  mem_of_perm, perm_sym,
}
use mathlib.Core.List.{Permᴰ}
use monitower.Prelude.Int.{ℤ, pos, negsuc, ◌-ℤ◌, ◌*ℤ◌, sub_ℕ, leb_ℤ}
use monitower.Prelude.Decimal.{wrap_int64}
use monitower.Float64.{Float64}
use monitower.Simulator.Metrics.{ServiceMetricsRow}
use monitower.Monitor.Poller.Queries.{Database}
use monitower.Monitor.Api.{MetricPoint}
use monitower.Monitor.History.{
  is_wanted, since_of, service_column, service_points, history, query_metrics_history, queue_column,
  answered,
}

wrap-pos : (n : ℕ) → n < 2 ^ 63 → wrap_int64 (pos n) ≡ pos n
unfolding wrap_int64
wrap-pos n h = ground arith

wrap-negsuc : (n : ℕ) → n < 2 ^ 63 → wrap_int64 (negsuc n) ≡ negsuc n
unfolding wrap_int64
wrap-negsuc n h = ground arith

wrap-sub_ℕ : (m n : ℕ) → m < 2 ^ 63 → n < 2 ^ 63 → wrap_int64 (sub_ℕ m n) ≡ sub_ℕ m n
wrap-sub_ℕ m n hm hn = elim (Bool-cases (leb n m)) [
  | inl e ↦ rw e (wrap-pos (m - n) (omega arith))
  | inr e ↦ rw e (wrap-negsuc (n - m - 1) (omega arith))
]

times_pos : (w : ℕ) → pos w *ℤ pos 1000 ≡ pos (w * 1000)
times_pos w = ground arith

times_negsuc : (w : ℕ) → negsuc w *ℤ pos 1000 ≡ negsuc (w * 1000 + 999)
times_negsuc w = ground arith

minus_pos : (m n : ℕ) → pos m -ℤ pos n ≡ sub_ℕ m n
minus_pos m n = ap₂ sub_ℕ (omega arith) (omega arith)

minus_negsuc : (m n : ℕ) → pos m -ℤ negsuc n ≡ pos (m + n + 1)
minus_negsuc m n = ground arith

-- The difference is exact for windows up to 2 ^ 50 seconds, either way, and the times of a clock below
-- 2 ^ 60 milliseconds.
pub since_of-exact :
    (now window : ℕ)
    → now < 2 ^ 60
    → window < 2 ^ 50
    → (since_of now (pos window) ≡ sub_ℕ now (window * 1000))
      × (since_of now (negsuc window) ≡ pos (now + (window + 1) * 1000))
unfolding since_of
since_of-exact now window h k = (
  ap (λ z. wrap_int64 (pos now -ℤ wrap_int64 z)) (times_pos window)
      ∙ ap (λ z. wrap_int64 (pos now -ℤ z)) (wrap-pos (window * 1000) (omega arith))
      ∙ ap wrap_int64 (minus_pos now (window * 1000))
      ∙ wrap-sub_ℕ now (window * 1000) (omega arith) (omega arith),
  ap (λ z. wrap_int64 (pos now -ℤ wrap_int64 z)) (times_negsuc window)
      ∙ ap (λ z. wrap_int64 (pos now -ℤ z)) (wrap-negsuc (window * 1000 + 999) (omega arith))
      ∙ ap wrap_int64 (minus_negsuc now (window * 1000 + 999))
      ∙ wrap-pos (now + (window * 1000 + 999) + 1) (omega arith)
      ∙ ap pos (omega arith),
)

-- The metrics of a service by their names, each the column of that name.
pub data ServiceMetric {W : Type 0} : String → (ServiceMetricsRow W → W) → Type 0 where
  throughput : ServiceMetric "throughput" (λ r. r.throughput)
  error_rate : ServiceMetric "error_rate" (λ r. r.error_rate)
  p50_latency : ServiceMetric "p50_latency" (λ r. r.p50_latency)
  p99_latency : ServiceMetric "p99_latency" (λ r. r.p99_latency)

service_column-ServiceMetric :
    {W : Type 0} (metric : String) (column : ServiceMetricsRow W → W)
    → ServiceMetric metric column
    → service_column metric ≡ some column
unfolding service_column
service_column-ServiceMetric _ _ throughput = refl
service_column-ServiceMetric _ _ error_rate = refl
service_column-ServiceMetric _ _ p50_latency = refl
service_column-ServiceMetric _ _ p99_latency = refl

-- A row of the service, or of any if none is named, that is not before the cutoff.
abbrev pub IsAsked : {W : Type 0} → String → ℤ → ServiceMetricsRow W → Type 0
IsAsked service since_ts r =
    ((service ≡ "") ⊎ (r.service ≡ service)) × (leb_ℤ since_ts (pos r.ts) ≡ true)

is_wanted-IsAsked :
    {W : Type 0} (service : String) (since_ts : ℤ) (r : ServiceMetricsRow W)
    → (is_wanted service since_ts r.service r.ts ≡ true) ↔ IsAsked service since_ts r
is_wanted-IsAsked service since_ts r = (there, back)
  where
    there : is_wanted service since_ts r.service r.ts ≡ true → IsAsked service since_ts r
    there h =
        let (named, late) = both_true {a = service == "" || r.service == service} h in
        (
          elim (Bool-cases (service == "")) [
            | inl e ↦ inl ((==_iff service "").0 e)
            | inr e ↦ inr ((==_iff r.service service).0 (rw e at named))
          ],
          late,
        )

    back : IsAsked service since_ts r → is_wanted service since_ts r.service r.ts ≡ true
    back (inl e, late) = rw ((==_iff service "").1 e, late) refl
    back (inr e, late) = elim (Bool-cases (service == "")) [
      | inl k ↦ rw (k, late) refl
      | inr k ↦ rw (k, (==_iff r.service service).1 e, late) refl
    ]

-- A point of the rows that are asked for.
abbrev pub IsPoint :
    {W : Type 0}
    → String
    → ℤ
    → (ServiceMetricsRow W → W)
    → List (ServiceMetricsRow W)
    → MetricPoint W
    → Type 0
IsPoint {W} service since_ts column rows p =
    (r : ServiceMetricsRow W) × Memᴰ r rows
    × IsAsked service since_ts r
    × (p ≡ record { ts = r.ts; value = column r })

module _ {W : Type 0} (service : String) (since_ts : ℤ) (column : ServiceMetricsRow W → W) where
  later-IsPoint :
      (r : ServiceMetricsRow W) (rows : List (ServiceMetricsRow W)) (p : MetricPoint W)
      → IsPoint service since_ts column rows p
      → IsPoint service since_ts column (r ∷ rows) p
  later-IsPoint r rows p (x, m, wanted, e) = (x, Memᴰ.tail m, wanted, e)

  IsPoint-of_mem :
      (rows : List (ServiceMetricsRow W)) (p : MetricPoint W)
      → Memᴰ p (service_points service since_ts column rows)
      → IsPoint service since_ts column rows p
  IsPoint-of_mem [] p m = elim m [ ]
  IsPoint-of_mem (r ∷ rows) p m = elim (Bool-cases (is_wanted service since_ts r.service r.ts)) [
    | inl e ↦ first e (rw e at m) (IsPoint-of_mem rows p)
    | inr e ↦ later-IsPoint r rows p (IsPoint-of_mem rows p (rw e at m))
  ]
    where
      first :
          is_wanted service since_ts r.service r.ts ≡ true
          → Memᴰ p
              (record { ts = r.ts; value = column r } ∷ service_points service since_ts column rows)
          → (Memᴰ p (service_points service since_ts column rows)
              → IsPoint service since_ts column rows p)
          → IsPoint service since_ts column (r ∷ rows) p
      first wanted (Memᴰ.head e) later =
          (r, Memᴰ.head refl, (is_wanted-IsAsked service since_ts r).0 wanted, e)
      first wanted (Memᴰ.tail k) later = later-IsPoint r rows p (later k)

  mem_of_point :
      (rows : List (ServiceMetricsRow W)) (p : MetricPoint W)
      → IsPoint service since_ts column rows p
      → Memᴰ p (service_points service since_ts column rows)
  mem_of_point [] p (r, m, wanted, e) = elim m [ ]
  mem_of_point (x ∷ rows) p (r, Memᴰ.head h, wanted, e) =
      subst (λ q. Memᴰ q (service_points service since_ts column (x ∷ rows)))
        (sym (e ∙ ap (λ y. record { ts = y.ts; value = column y }) h))
        (rw
          (subst (λ y. is_wanted service since_ts y.service y.ts ≡ true) h
            ((is_wanted-IsAsked service since_ts r).1 wanted))
          (Memᴰ.head refl))
  mem_of_point (x ∷ rows) p (r, Memᴰ.tail m, wanted, e) =
      elim (Bool-cases (is_wanted service since_ts x.service x.ts)) [
        | inl k ↦ rw k (Memᴰ.tail (mem_of_point rows p (r, m, wanted, e)))
        | inr k ↦ rw k (mem_of_point rows p (r, m, wanted, e))
      ]

module _ {W : Type 0} ⦃f : Float64 W⦄ where
  -- The query for one of the four metrics of a service, if the database answers and returns what it
  -- selects in some order: its points are those of the rows of the service, or of all services if none
  -- is named, whose time is not before the cutoff, each with the row's time and the value of the column
  -- that has the metric's name.
  pub query_metrics_history-IsPoint :
      (by_ts : List (MetricPoint W) → List (MetricPoint W)) (service metric : String) (since_ts : ℤ)
      (d : Database W) (column : ServiceMetricsRow W → W) (p : MetricPoint W)
      → Permᴰ
          (by_ts (service_points service since_ts column d.service_metrics))
          (service_points service since_ts column d.service_metrics)
      → ServiceMetric metric column
      → (ps : List (MetricPoint W)) × (query_metrics_history by_ts true service metric since_ts d
          ≡ some ps)
        × (Memᴰ p ps ↔ IsPoint service since_ts column d.service_metrics p)
  unfolding query_metrics_history
  query_metrics_history-IsPoint by_ts service metric since_ts d column p perm known =
      let chosen = service_points service since_ts column d.service_metrics in
      (
        by_ts chosen,
        ap (λ c. answered by_ts true (history service since_ts c (queue_column metric) d))
            (service_column-ServiceMetric metric column known),
        (
          λ m.
              IsPoint-of_mem service since_ts column d.service_metrics p
                (mem_of_perm p (perm_sym perm) m),
          λ h. mem_of_perm p perm (mem_of_point service since_ts column d.service_metrics p h),
        ),
      )
