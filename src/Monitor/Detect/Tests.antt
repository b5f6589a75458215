-- ===== src/Monitor/Detect/Tests.antt =====
-- The detectors at work.
use monitower.Prelude.{ℕ, true, false, [], ◌∷◌, ◌≡◌, refl, Memᴰ, string_eq}
use monitower.Float64.{of_int, literal, abs_float, lt}
use monitower.Float64.Hundredths.{Hundredths, hundredths_float, Hundredths-IsOrdered}
use monitower.Monitor.Signal.{AnomalySignal}
use monitower.Monitor.Baselines.{TimestampedValue, Baseline, Baselines, service_metric_stats}
use monitower.Monitor.Detect.{
  ServiceRow, QueueRow, detect_service_anomalies, detect_queue_anomalies, deviation, dlq_signal,
}
use monitower.Monitor.Detect.Services.{errors, key_of, detect_service_anomalies_complete}
use monitower.Monitor.Detect.Queues.{
  IsQueueAnomaly, dlq_depth, queue_key_of, detect_queue_anomalies_sound,
  detect_queue_anomalies_complete,
}

abbrev zero_at : ℕ → TimestampedValue Hundredths
zero_at ts = record { ts = ts; value = of_int 0 }

-- Ten samples of the order service without an error.
abbrev quiet : Baseline Hundredths
quiet = record {
  values =
      zero_at 1
      ∷ zero_at 2
      ∷ zero_at 3
      ∷ zero_at 4
      ∷ zero_at 5
      ∷ zero_at 6
      ∷ zero_at 7
      ∷ zero_at 8
      ∷ zero_at 9
      ∷ zero_at 10
      ∷ [];
  window = 60000;
}

abbrev baselines : Baselines Hundredths
baselines = record { window = 60000; by_key = ("svc:order:error_rate", quiet) ∷ [] }

-- Half of the requests fail.
abbrev failing : ServiceRow Hundredths
failing = record {
  ts = 2000;
  service = "order";
  throughput = of_int 5;
  error_rate = literal 5 1;
  p50_latency = of_int 100;
  p99_latency = of_int 140;
  active_faults = "";
}

abbrev reported : AnomalySignal Hundredths
reported = record {
  ts = 2000;
  service = "order";
  queue = "";
  metric = "error_rate";
  value = literal 5 1;
  baseline = of_int 0;
  deviation = of_int 0;
  direction = "high";
}

detect_failing : detect_service_anomalies (failing ∷ []) baselines ≡ reported ∷ []
unfolding detect_service_anomalies service_metric_stats
detect_failing = refl

detect_service_anomalies_complete_example :
    (e : AnomalySignal Hundredths) × Memᴰ e (detect_service_anomalies (failing ∷ []) baselines)
    × (key_of reported ≡ key_of e)
    × (lt (abs_float e.deviation) (abs_float reported.deviation) ≡ false)
unfolding service_metric_stats deviation
detect_service_anomalies_complete_example =
    detect_service_anomalies_complete Hundredths-IsOrdered baselines (failing ∷ []) failing reported
      (Memᴰ.head refl) (errors (refl, refl, refl, refl))

abbrev pub full_queue : QueueRow Hundredths
full_queue = record {
  ts = 3000;
  queue = "payment-dlq";
  depth = of_int 4;
  enqueue_rate = of_int 1;
  dequeue_rate = of_int 0;
  dlq = true;
}

detect_full_queue : detect_queue_anomalies (full_queue ∷ []) baselines ≡ dlq_signal full_queue ∷ []
unfolding detect_queue_anomalies
detect_full_queue = refl

detect_queue_anomalies_sound_example :
    (r : QueueRow Hundredths) × Memᴰ r (full_queue ∷ [])
    × IsQueueAnomaly baselines r (dlq_signal full_queue)
unfolding detect_queue_anomalies
detect_queue_anomalies_sound_example =
    detect_queue_anomalies_sound baselines (full_queue ∷ []) (dlq_signal full_queue)
      (Memᴰ.head refl)

detect_queue_anomalies_complete_example :
    (e : AnomalySignal Hundredths) × Memᴰ e (detect_queue_anomalies (full_queue ∷ []) baselines)
    × (queue_key_of (dlq_signal full_queue) ≡ queue_key_of e)
detect_queue_anomalies_complete_example =
    detect_queue_anomalies_complete baselines (full_queue ∷ []) full_queue (dlq_signal full_queue)
      (Memᴰ.head refl) (dlq_depth (refl, refl, refl))
