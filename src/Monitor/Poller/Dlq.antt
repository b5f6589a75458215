-- ===== src/Monitor/Poller/Dlq.antt =====
-- A DLQ that is not empty is an active signal after the detection of a cycle.
use Prim.Native.String.{◌++◌ as concat}
use text.Mathlib.TextLemmas.{append_cancel_right}
use monitower.Prelude.{
  ℕ, ◌==◌, true, false, String, List, [], ◌∷◌, ◌++◌, some, some-injective, Memᴰ, ◌≡◌, refl, sym, ap,
  ◌∙◌, inl, inr, Bool-cases, All, ==_iff, All-of_forall, of_All, mem-append_right, mem-append_split,
  string_eq,
}
use monitower.Prelude.Text.{has_char}
use monitower.Prelude.Suffix.{
  last_part, last_part-concat, last_part-separator, has_char-concat, has_char-separator,
}
use monitower.Float64.{Float64, IsOrdered, lt, of_int}
use monitower.Monitor.Signal.{AnomalySignal, signal_key, is_dlq_signal}
use monitower.Monitor.Baselines.{Baselines}
use monitower.Monitor.Detect.{
  ServiceRow, QueueRow, dlq_signal, detect_service_anomalies, detect_queue_anomalies,
}
use monitower.Monitor.Detect.Services.{
  IsAnomaly, errors, latency, throughput, detect_service_anomalies_sound,
}
use monitower.Monitor.Detect.Queues.{
  IsQueueAnomaly, dlq_depth, queue_depth, queue_key_of, detect_queue_anomalies_sound,
  detect_queue_anomalies_complete,
}
use monitower.Monitor.Correlator.{Correlator, add_signals}
use monitower.Monitor.Correlator.Active.{find_key}
use monitower.Monitor.Correlator.Represented.{add_signals-Represented}
use monitower.Monitor.Correlator.Origin.{add_signals_origin}

-- No part of a key that is joined with bars or a colon has its separator in the metric.
abbrev pub IsPlain : {W : Type 0} → AnomalySignal W → Type 0
IsPlain s = has_char 124 s.metric ≡ false

false_not_true : ¬ (false ≡ true)
false_not_true h = cc

module _ {W : Type 0} where
  metric_of_key : (s : AnomalySignal W) → IsPlain s → last_part 124 (signal_key s) ≡ s.metric
  unfolding signal_key
  metric_of_key s h =
      last_part-concat 124 s.service (concat "|" (concat s.queue (concat "|" s.metric)))
        (has_char-separator "|" (concat s.queue (concat "|" s.metric)))
      ∙ last_part-concat 124 "|" (concat s.queue (concat "|" s.metric))
          (has_char-concat 124 s.queue (concat "|" s.metric) (has_char-separator "|" s.metric))
      ∙ last_part-separator "|" s.queue s.metric h

  find_key_sound :
      (k : String) (active : List (AnomalySignal W)) (s : AnomalySignal W)
      → find_key k active ≡ some s
      → Memᴰ s active × (signal_key s ≡ k)
  find_key_sound k [] s h = cc
  find_key_sound k (x ∷ active) s h = elim (Bool-cases (signal_key x == k)) [
    | inl e ↦
        let same = some-injective x s (rw e at h) in
        (Memᴰ.head (sym same), ap signal_key (sym same) ∙ (==_iff (signal_key x) k).0 e)
    | inr e ↦ let (m, key) = find_key_sound k active s (rw e at h) in (Memᴰ.tail m, key)
  ]

module _ {W : Type 0} ⦃f : Float64 W⦄ where
  -- The signal that the detector returns for a DLQ row is about its queue.
  dlq_of_key :
      (r : QueueRow W) (e : AnomalySignal W) (bs : Baselines W) (row : QueueRow W)
      → IsQueueAnomaly bs row e
      → queue_key_of (dlq_signal r) ≡ queue_key_of e
      → signal_key e ≡ signal_key (dlq_signal r)
  unfolding signal_key
  dlq_of_key r e bs row (dlq_depth (_, _, same)) h =
      let queues =
        append_cancel_right r.queue row.queue (concat ":" "dlq_depth") (h ∙ ap queue_key_of same) in
      ap signal_key same
      ∙ ap (λ q. concat "" (concat "|" (concat q (concat "|" "dlq_depth")))) (sym queues)
  dlq_of_key r e bs row (queue_depth (_, _, _, _, same)) h = absurd (
      different (
        sym (last_part-separator ":" r.queue "dlq_depth" refl)
        ∙ ap (last_part 58) (h ∙ ap queue_key_of same)
        ∙ last_part-separator ":" row.queue "queue_depth" refl))
    where
      different : ¬ (◌≡◌ {A = String} "dlq_depth" "queue_depth")
      different k = false_not_true ((==_iff "dlq_depth" "queue_depth").1 k)

  service_signals-IsPlain :
      (bs : Baselines W) (rows : List (ServiceRow W)) (s : AnomalySignal W)
      → Memᴰ s (detect_service_anomalies rows bs)
      → IsPlain s
  service_signals-IsPlain bs rows s m =
      let (r, _, anomaly) = detect_service_anomalies_sound bs rows s m in plain r anomaly
    where
      plain : (r : ServiceRow W) → IsAnomaly bs r s → IsPlain s
      plain r (errors (_, _, _, e)) = ap (λ s. has_char 124 s.metric) e
      plain r (latency (_, _, _, e)) = ap (λ s. has_char 124 s.metric) e
      plain r (throughput (_, _, _, e)) = ap (λ s. has_char 124 s.metric) e

  queue_signals-IsPlain :
      (bs : Baselines W) (rows : List (QueueRow W)) (s : AnomalySignal W)
      → Memᴰ s (detect_queue_anomalies rows bs)
      → IsPlain s
  queue_signals-IsPlain bs rows s m =
      let (r, _, anomaly) = detect_queue_anomalies_sound bs rows s m in plain r anomaly
    where
      plain : (r : QueueRow W) → IsQueueAnomaly bs r s → IsPlain s
      plain r (dlq_depth (_, _, e)) = ap (λ s. has_char 124 s.metric) e
      plain r (queue_depth (_, _, _, _, e)) = ap (λ s. has_char 124 s.metric) e

  abbrev detected : List (ServiceRow W) → List (QueueRow W) → Baselines W → List (AnomalySignal W)
  detected services queues bs =
      detect_service_anomalies services bs ++ detect_queue_anomalies queues bs

  detected-IsPlain :
      (services : List (ServiceRow W)) (queues : List (QueueRow W)) (bs : Baselines W)
      (s : AnomalySignal W)
      → Memᴰ s (detected services queues bs)
      → IsPlain s
  detected-IsPlain services queues bs s m =
      elim (mem-append_split s (detect_service_anomalies services bs)
        (detect_queue_anomalies queues bs) m) [
          | inl h ↦ service_signals-IsPlain bs services s h
          | inr h ↦ queue_signals-IsPlain bs queues s h
        ]

  -- The signals that are active after a batch have no bar in their metric either.
  pub add_signals-IsPlain :
      (now : ℕ) (services : List (ServiceRow W)) (queues : List (QueueRow W)) (bs : Baselines W)
      (c : Correlator W)
      → All (λ s. IsPlain s) c.active_signals
      → All (λ s. IsPlain s) (add_signals now (detected services queues bs) c).active_signals
  add_signals-IsPlain now services queues bs c plain =
      All-of_forall (λ s. IsPlain s) _
        (λ s m. elim (add_signals_origin now (detected services queues bs) c s m) [
          | inl h ↦ detected-IsPlain services queues bs s h
          | inr (h, _) ↦ of_All (λ s. IsPlain s) s c.active_signals plain h
        ])

  pub dlq_active :
      IsOrdered W
      → (now : ℕ) (services : List (ServiceRow W)) (queues : List (QueueRow W)) (bs : Baselines W)
        (c : Correlator W) (r : QueueRow W)
      → All (λ s. IsPlain s) c.active_signals
      → Memᴰ r queues
      → r.dlq ≡ true
      → lt (of_int 0) r.depth ≡ true
      → (s : AnomalySignal W) × Memᴰ s
          (add_signals now (detected services queues bs) c).active_signals
        × (is_dlq_signal s ≡ true)
        × (signal_key s ≡ signal_key (dlq_signal r))
  unfolding is_dlq_signal
  dlq_active o now services queues bs c r plain m is_dlq deep =
      let (e, e_in, key) =
        detect_queue_anomalies_complete bs queues r (dlq_signal r) m
          (dlq_depth (is_dlq, deep, refl)) in
      let (row, _, anomaly) = detect_queue_anomalies_sound bs queues e e_in in
      let batch = detected services queues bs in
      let (s, found, _) = add_signals-Represented o now batch c e (
        mem-append_right e (detect_service_anomalies services bs) (detect_queue_anomalies queues bs)
          e_in) in
      let (s_in, same) =
        find_key_sound (signal_key e) (add_signals now batch c).active_signals s found in
      let whole = same ∙ dlq_of_key r e bs row anomaly key in
      (
        s,
        s_in,
        dlq_metric s
            (of_All (λ s. IsPlain s) s (add_signals now batch c).active_signals
              (add_signals-IsPlain now services queues bs c plain) s_in)
            whole,
        whole,
      )
    where
      dlq_metric :
          (s : AnomalySignal W)
          → IsPlain s
          → signal_key s ≡ signal_key (dlq_signal r)
          → is_dlq_signal s ≡ true
      dlq_metric s h e =
          (==_iff s.metric "dlq_depth").1
            (sym (metric_of_key s h) ∙ ap (last_part 124) e ∙ metric_of_key (dlq_signal r) refl)
