-- ===== src/Monitor/Poller.antt =====
-- The cycles of the poller of internal/monitor/poller.go.
-- What the three reads of the metrics and the fault events return is an argument, `none` for an error.
-- `sort` and `order` are those of the correlator and of the incident store, `encode` is that of the
-- event stream. The cycle has one clock value, which the code reads once.
pub mod Queries
pub mod Dlq
pub mod Reported
pub mod Sound
pub mod Errors
pub mod Tests
use monitower.Prelude.{
  ℕ, Bool, true, false, ltb, if◌then◌else◌, String, List, [], ◌∷◌, ◌++◌, Option, none, some,
}
use monitower.Float64.{Float64}
use monitower.Monitor.Signal.{AnomalySignal}
use monitower.Monitor.Baselines.{Baselines, new_baselines, add_service_metric, add_queue_metric}
use monitower.Monitor.Detect.{
  ServiceRow, QueueRow, detect_service_anomalies, detect_queue_anomalies,
}
use monitower.Monitor.Correlator.{
  Correlator, FaultEvent, new_correlator, add_signals, active_signals,
}
use monitower.Monitor.Correlator.Build.{correlate}
use monitower.Monitor.Incidents.{
  Incident, Store, Result, ok, err, driver, reconcile, mark_resolved, list_active,
}
use monitower.Monitor.Incidents.Tracker.{ResolutionTracker, new_resolution_tracker, check}
use monitower.Monitor.Snapshot.{StateSnapshot, build_snapshot}
use monitower.Monitor.Sse.{SseBroadcaster, broadcast_state}

pub record Poller (W : Type 0) : Type 0 where
  pub baselines : Baselines W
  pub correlator : Correlator W
  pub inc_store : Store
  pub resolver : ResolutionTracker
  pub broadcaster : SseBroadcaster
  pub last_snapshot : StateSnapshot W

pub record Reads (W : Type 0) : Type 0 where
  pub service_rows : Option (List (ServiceRow W))
  pub queue_rows : Option (List (QueueRow W))
  pub fault_events : Option (List FaultEvent)

unfoldable pub new_poller : {W : Type 0} → Store → SseBroadcaster → Poller W
unfolding new_baselines new_correlator new_resolution_tracker
new_poller store broadcaster = record {
  baselines = new_baselines 60000;
  correlator = new_correlator;
  inc_store = store;
  resolver = new_resolution_tracker;
  broadcaster = broadcaster;
  last_snapshot = record {
    ts = 0;
    services = [];
    queues = [];
    incidents = [];
    baseline_ready = false;
  };
}

-- A nil slice for a list that an error leaves out.
abbrev pub or_nil : Result (List Incident) → List Incident
or_nil (ok actives) = actives
or_nil (err e) = []

-- The errors of the updates are only logged.
unfoldable pub resolve_all : ℕ → List ℕ → Store → Store
unfolding mark_resolved
resolve_all now [] s = s
resolve_all now (id ∷ ids) s = resolve_all now ids (mark_resolved id now s).1

module _ {W : Type 0} where
  unfoldable pub add_service_rows : List (ServiceRow W) → Baselines W → Baselines W
  unfolding add_service_metric
  add_service_rows [] bs = bs
  add_service_rows (r ∷ rows) bs = add_service_rows rows (
      add_service_metric r.ts r.service "throughput" r.throughput (
        add_service_metric r.ts r.service "p99_latency" r.p99_latency
          (add_service_metric r.ts r.service "error_rate" r.error_rate bs)))

  unfoldable pub add_queue_rows : List (QueueRow W) → Baselines W → Baselines W
  unfolding add_queue_metric
  add_queue_rows [] bs = bs
  add_queue_rows (r ∷ rows) bs =
      add_queue_rows rows (add_queue_metric r.ts r.queue "depth" r.depth bs)

module _ {W : Type 0} ⦃f : Float64 W⦄ (sort : List (AnomalySignal W) → List (AnomalySignal W))
    (order : List Incident → List Incident) (encode : StateSnapshot W → Option String)
    (now : ℕ) where
  -- The end of a cycle, with the incidents that are active after the resolutions.
  unfoldable pub publish :
      List (ServiceRow W) → List (QueueRow W) → List Incident → Poller W → Poller W
  unfolding build_snapshot broadcast_state
  publish service_rows queue_rows actives p =
      let snap = build_snapshot now service_rows queue_rows actives p.baselines p.correlator in
      record p { last_snapshot = snap; broadcaster = broadcast_state encode snap p.broadcaster }

  -- The resolutions, given what `Reconcile` returned, and what follows them.
  unfoldable pub resolve :
      List (ServiceRow W)
      → List (QueueRow W)
      → Result (List Incident) × Store
      → Poller W
      → Poller W × Result (Unit {0})
  unfolding check active_signals resolve_all list_active publish
  resolve service_rows queue_rows (reconciled, store) p =
      let (resolver, to_resolve) =
        check (or_nil reconciled) (active_signals p.correlator) p.resolver in
      let (actives, after) = list_active order (resolve_all now to_resolve store) in
      (
        publish service_rows queue_rows (or_nil actives)
            (record p { inc_store = after; resolver = resolver }),
        ok tt,
      )

  unfoldable pub correlate_and_resolve :
      List (ServiceRow W)
      → List (QueueRow W)
      → Option (List FaultEvent)
      → Poller W
      → Poller W × Result (Unit {0})
  unfolding correlate reconcile resolve
  correlate_and_resolve service_rows queue_rows none p = (p, err driver)
  correlate_and_resolve service_rows queue_rows (some fault_events) p =
      resolve service_rows queue_rows
        (reconcile order (correlate sort fault_events p.correlator) p.inc_store) p

  -- The baselines and the signals of a cycle.
  unfoldable pub detect : List (ServiceRow W) → List (QueueRow W) → Poller W → Poller W
  unfolding add_service_rows add_queue_rows detect_service_anomalies detect_queue_anomalies
      add_signals
  detect service_rows queue_rows p =
      let baselines = add_queue_rows queue_rows (add_service_rows service_rows p.baselines) in
      let sigs =
        detect_service_anomalies service_rows baselines
        ++ detect_queue_anomalies queue_rows baselines in
      record p { baselines = baselines; correlator = add_signals now sigs p.correlator }

  abbrev pub with_rows :
      Option (List (ServiceRow W))
      → Option (List (QueueRow W))
      → Option (List FaultEvent)
      → Poller W
      → Poller W × Result (Unit {0})
  with_rows none queue_rows fault_events p = (p, err driver)
  with_rows (some service_rows) none fault_events p = (p, err driver)
  with_rows (some service_rows) (some queue_rows) fault_events p =
      correlate_and_resolve service_rows queue_rows fault_events (detect service_rows queue_rows p)

  -- The cycle: the poller after it, and whether it returns an error.
  unfoldable pub tick : Reads W → Poller W → Poller W × Result (Unit {0})
  unfolding detect correlate_and_resolve
  tick r p = with_rows r.service_rows r.queue_rows r.fault_events p

module _ {W : Type 0} ⦃f : Float64 W⦄ (sort : List (AnomalySignal W) → List (AnomalySignal W))
    (order : List Incident → List Incident) (encode : StateSnapshot W → Option String) where
  -- Cycles one after another, each with its clock and what it reads.
  unfoldable pub run_cycles : List (ℕ × Reads W) → Poller W → Poller W
  unfolding tick
  run_cycles [] p = p
  run_cycles ((now, r) ∷ cycles) p = run_cycles cycles (tick sort order encode now r p).0

-- `maxCycleMS`
abbrev pub max_cycle_ms : ℕ
max_cycle_ms = 1800

-- One round of the loop of `Start`, with the time that the last cycle took, and whether it runs a
-- cycle; `cycle` says what a cycle does and how long it takes.
unfoldable pub start_round :
    {W : Type 0} → (Poller W → Poller W × ℕ) → Poller W × ℕ → (Poller W × ℕ) × Bool
start_round cycle (p, last_cycle_ms) =
    if ltb max_cycle_ms last_cycle_ms then ((p, 0), false) else (cycle p, true)
