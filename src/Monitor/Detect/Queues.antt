-- ===== src/Monitor/Detect/Queues.antt =====
-- Which signals `DetectQueueAnomalies` returns.
use Prim.Native.String.{◌++◌ as concat}
use monitower.Prelude.{
  both_true, Bool, true, false, ◌&&◌, ==_self, String, List, [], ◌∷◌, some, is_some, ◌≡◌, refl,
  subst, inl, inr, Memᴰ, Bool-cases, Option-cases, All, All-of_forall, of_All, arith, string_eq,
}
use monitower.Prelude.Dict.{lookup, insert, lookup-insert}
use monitower.Float64.{Float64, lt, le, of_int, add, mul}
use monitower.Monitor.Signal.{AnomalySignal}
use monitower.Monitor.Baselines.{Baselines, queue_metric_stats}
use monitower.Monitor.Detect.{
  QueueRow, dlq_signal, depth_signal, is_high, is_deeper, keep_best, is_stronger, check_queue,
  check_queues, detect_queue_anomalies,
}
use monitower.Monitor.Detect.Best.{
  mem-lookup, mem-values_of, values_of-mem, insert-All, keep_best-All,
}

module _ {W : Type 0} ⦃f : Float64 W⦄ where
  -- The signal that a row gives: of a DLQ that is not empty, whatever its baseline, or of a depth of
  -- at least 20 that is two deviations above the mean.
  pub data IsQueueAnomaly (bs : Baselines W) (r : QueueRow W) (sig : AnomalySignal W) : Type 0 where
    dlq_depth :
        (r.dlq ≡ true) × (lt (of_int 0) r.depth ≡ true) × (sig ≡ dlq_signal r)
        → IsQueueAnomaly bs r sig
    queue_depth :
        (let s = queue_metric_stats r.queue "depth" bs in
          ((r.dlq && lt (of_int 0) r.depth) ≡ false)
          × (s.valid ≡ true)
          × (lt (add s.mean (mul (of_int 2) s.stddev)) r.depth ≡ true)
          × (le (of_int 20) r.depth ≡ true)
          × (sig ≡ depth_signal r s))
        → IsQueueAnomaly bs r sig

  abbrev pub queue_key_of : AnomalySignal W → String
  queue_key_of sig = concat sig.queue (concat ":" sig.metric)

  -- An entry of the map comes from a row, and stands under its signal's key.
  abbrev Sourced : Baselines W → List (QueueRow W) → String × AnomalySignal W → Type 0
  Sourced bs rows e =
      (r : QueueRow W) × Memᴰ r rows × IsQueueAnomaly bs r e.1 × (e.0 ≡ queue_key_of e.1)

  abbrev is_present : String → List (String × AnomalySignal W) → Bool
  is_present k best = is_some (lookup k best)

  insert-present :
      (k key : String) (sig : AnomalySignal W) (best : List (String × AnomalySignal W))
      → is_present k best ≡ true
      → is_present k (insert key sig best) ≡ true
  insert-present k key sig best h = ground (arith, lookup-insert key k sig best)

  insert-present_self :
      (key : String) (sig : AnomalySignal W) (best : List (String × AnomalySignal W))
      → is_present key (insert key sig best) ≡ true
  insert-present_self key sig best = ground (arith, lookup-insert key key sig best, ==_self key)

  keep_best-present :
      (k key : String) (sig : AnomalySignal W) (best : List (String × AnomalySignal W))
      → is_present k best ≡ true
      → is_present k (keep_best key sig best) ≡ true
  unfolding keep_best
  keep_best-present k key sig best h = elim (Bool-cases (is_stronger sig (lookup key best))) [
    | inl e ↦ rw e (insert-present k key sig best h)
    | inr e ↦ rw e h
  ]

  keep_best-present_self :
      (key : String) (sig : AnomalySignal W) (best : List (String × AnomalySignal W))
      → is_present key (keep_best key sig best) ≡ true
  unfolding keep_best
  keep_best-present_self key sig best = elim (Option-cases (lookup key best)) [
    | inl e ↦ rw e (insert-present_self key sig best)
    | inr (x, e) ↦ elim (Bool-cases (is_stronger sig (some x))) [
      | inl h ↦ rw (e, h) (insert-present_self key sig best)
      | inr h ↦ rw (e, h, e) refl
    ]
  ]

  module _ (bs : Baselines W) (r : QueueRow W) where
    check_queue-All :
        (rows : List (QueueRow W)) (best : List (String × AnomalySignal W))
        → Memᴰ r rows
        → All (Sourced bs rows) best
        → All (Sourced bs rows) (check_queue bs r best)
    unfolding check_queue
    check_queue-All rows best m all =
        let s = queue_metric_stats r.queue "depth" bs in
        let dlq_key = concat r.queue ":dlq_depth" in
        elim (Bool-cases (r.dlq && lt (of_int 0) r.depth)) [
          | inl e ↦
              let (is_dlq, deep) = both_true e in
              elim (Bool-cases (is_deeper r (lookup dlq_key best))) [
                | inl d ↦
                    rw (e, d)
                      (insert-All (Sourced bs rows) dlq_key (dlq_signal r) best
                        (r, m, dlq_depth (is_dlq, deep, refl), refl) all)
                | inr d ↦ rw (e, d) all
              ]
          | inr e ↦ elim (Bool-cases (s.valid && is_high (of_int 20) (of_int 2) r.depth s)) [
            | inl d ↦
                let (valid, high) = both_true d in
                let (above, floor) = both_true high in
                rw (e, d)
                  (keep_best-All (Sourced bs rows) (concat r.queue ":queue_depth")
                    (depth_signal r s) best (r, m, queue_depth (e, valid, above, floor, refl), refl)
                    all)
            | inr d ↦ rw (e, d) all
          ]
        ]

    check_queue-present :
        (best : List (String × AnomalySignal W)) (k : String)
        → is_present k best ≡ true
        → is_present k (check_queue bs r best) ≡ true
    unfolding check_queue
    check_queue-present best k h =
        let s = queue_metric_stats r.queue "depth" bs in
        let dlq_key = concat r.queue ":dlq_depth" in
        elim (Bool-cases (r.dlq && lt (of_int 0) r.depth)) [
          | inl e ↦ elim (Bool-cases (is_deeper r (lookup dlq_key best))) [
            | inl d ↦ rw (e, d) (insert-present k dlq_key (dlq_signal r) best h)
            | inr d ↦ rw (e, d) h
          ]
          | inr e ↦ elim (Bool-cases (s.valid && is_high (of_int 20) (of_int 2) r.depth s)) [
            | inl d ↦
                rw (e, d)
                  (keep_best-present k (concat r.queue ":queue_depth") (depth_signal r s) best h)
            | inr d ↦ rw (e, d) h
          ]
        ]

    check_queue-present_self :
        (best : List (String × AnomalySignal W)) (sig : AnomalySignal W)
        → IsQueueAnomaly bs r sig
        → is_present (queue_key_of sig) (check_queue bs r best) ≡ true
    unfolding check_queue
    check_queue-present_self best sig (dlq_depth (is_dlq, deep, e)) =
        let dlq_key = concat r.queue ":dlq_depth" in
        elim (Option-cases (lookup dlq_key best)) [
          | inl absent ↦
              rw (e, is_dlq, deep, absent) (insert-present_self dlq_key (dlq_signal r) best)
          | inr (x, found) ↦ elim (Bool-cases (is_deeper r (some x))) [
            | inl d ↦
                rw (e, is_dlq, deep, found, d) (insert-present_self dlq_key (dlq_signal r) best)
            | inr d ↦ rw (e, is_dlq, deep, found, d, found) refl
          ]
        ]
    check_queue-present_self best sig (queue_depth (other, valid, above, floor, e)) =
        rw (e, other, valid, above, floor)
          (keep_best-present_self (concat r.queue ":queue_depth")
            (depth_signal r (queue_metric_stats r.queue "depth" bs)) best)

  module _ (bs : Baselines W) where
    check_queues-All :
        (all_rows rows : List (QueueRow W)) (best : List (String × AnomalySignal W))
        → All (λ r. Memᴰ r all_rows) rows
        → All (Sourced bs all_rows) best
        → All (Sourced bs all_rows) (check_queues bs rows best)
    unfolding check_queues
    check_queues-All all_rows [] best m all = all
    check_queues-All all_rows (r ∷ rows) best m all =
        check_queues-All all_rows rows (check_queue bs r best) m.1
          (check_queue-All bs r all_rows best m.0 all)

    check_queues-present :
        (rows : List (QueueRow W)) (best : List (String × AnomalySignal W)) (k : String)
        → is_present k best ≡ true
        → is_present k (check_queues bs rows best) ≡ true
    unfolding check_queues
    check_queues-present [] best k h = h
    check_queues-present (r ∷ rows) best k h =
        check_queues-present rows (check_queue bs r best) k (check_queue-present bs r best k h)

    check_queues-present_self :
        (rows : List (QueueRow W)) (best : List (String × AnomalySignal W)) (r : QueueRow W)
        (sig : AnomalySignal W)
        → Memᴰ r rows
        → IsQueueAnomaly bs r sig
        → is_present (queue_key_of sig) (check_queues bs rows best) ≡ true
    unfolding check_queues
    check_queues-present_self [] best r sig m h = elim m [ ]
    check_queues-present_self (row ∷ rows) best r sig (Memᴰ.head e) h =
        check_queues-present rows (check_queue bs row best) (queue_key_of sig)
          (check_queue-present_self bs row best sig (subst (λ x. IsQueueAnomaly bs x sig) e h))
    check_queues-present_self (row ∷ rows) best r sig (Memᴰ.tail m) h =
        check_queues-present_self rows (check_queue bs row best) r sig m h

    sourced : (rows : List (QueueRow W)) → All (Sourced bs rows) (check_queues bs rows [])
    sourced rows = check_queues-All rows rows [] (All-of_forall _ rows (λ r m. m)) tt

  -- Every signal returned is an anomaly of one of the rows.
  pub detect_queue_anomalies_sound :
      (bs : Baselines W) (rows : List (QueueRow W)) (sig : AnomalySignal W)
      → Memᴰ sig (detect_queue_anomalies rows bs)
      → (r : QueueRow W) × Memᴰ r rows × IsQueueAnomaly bs r sig
  unfolding detect_queue_anomalies
  detect_queue_anomalies_sound bs rows sig m =
      let best = check_queues bs rows [] in
      let (k, entry) = values_of-mem sig best m in
      let (r, mem, a, e) = of_All (Sourced bs rows) (k, sig) best (sourced bs rows) entry in
      (r, mem, a)

  some_of :
      (k : String) (best : List (String × AnomalySignal W))
      → is_present k best ≡ true
      → (e : AnomalySignal W) × (lookup k best ≡ some e)
  some_of k best h = elim (Option-cases (lookup k best)) [
    | inl n ↦ absurd (cc (rw n at h))
    | inr (e, found) ↦ (e, found)
  ]

  -- Every anomaly of a row is reported: a signal is returned with its queue and metric, up to the key
  -- that joins them. In particular a DLQ row that is not empty is, whatever the baseline.
  pub detect_queue_anomalies_complete :
      (bs : Baselines W) (rows : List (QueueRow W)) (r : QueueRow W) (sig : AnomalySignal W)
      → Memᴰ r rows
      → IsQueueAnomaly bs r sig
      → (e : AnomalySignal W) × Memᴰ e (detect_queue_anomalies rows bs)
        × (queue_key_of sig ≡ queue_key_of e)
  unfolding detect_queue_anomalies
  detect_queue_anomalies_complete bs rows r sig m a =
      let best = check_queues bs rows [] in
      let k = queue_key_of sig in
      let (e, found) = some_of k best (check_queues-present_self bs rows [] r sig m a) in
      let entry = mem-lookup k e best found in
      let (row, mem, anomaly, key) = of_All (Sourced bs rows) (k, e) best (sourced bs rows) entry in
      (e, mem-values_of k e best entry, key)
