-- ===== src/Monitor/Poller/Tests.antt =====
-- Cycles of the poller on concrete rows.
use monitower.Prelude.{
  ℕ, Memᴰ, All, true, false, String, map, List, [], ◌∷◌, Option, none, some, ◌≡◌, refl,
}
use monitower.Float64.Hundredths.{Hundredths, hundredths_float, Hundredths-IsOrdered}
use monitower.Monitor.Signal.{
  AnomalySignal, signal_key, is_dlq_signal, downstream_of, queue_owner, service_for_signal,
}
use monitower.Monitor.Detect.{dlq_signal}
use monitower.Monitor.Detect.Tests.{full_queue}
use monitower.Monitor.Correlator.{CorrelatedEvent, group_loop}
use monitower.Monitor.Correlator.Build.{build_correlated_event, correlate}
use monitower.Monitor.Incidents.{Incident, Store, find_id}
use monitower.Monitor.Snapshot.{StateSnapshot}
use monitower.Monitor.Poller.{Poller, Reads, tick, run_cycles, new_poller}
use monitower.Monitor.Poller.Reported.{tick_reports_dlq}
use monitower.Monitor.Poller.Sound.{IsSound, run_cycles-new-IsSound}
use monitower.Monitor.Incidents.Tests.{by_start, by_start-IsOrder, empty_store, empty-IsTable}
use monitower.Monitor.Incidents.Growth.{HasKey}
use monitower.Monitor.Correlator.Sorting.{sort_by_ts, sort_by_ts-IsSort}
use monitower.Monitor.Sse.{SseBroadcaster}

abbrev refusing : Store
refusing = record { incidents = []; next_id = 1; refusals = true ∷ [] }

abbrev working : Store
working = record { incidents = []; next_id = 1; refusals = [] }

-- One clean check of the incident 1 is counted.
abbrev pub poller : Poller Hundredths
poller = record {
  baselines = record { window = 60000; by_key = [] };
  correlator = record { active_signals = []; signal_window = 30000; group_window = 10000 };
  inc_store = refusing;
  resolver = record { counts = (1, 1) ∷ [] };
  broadcaster = record { clients = [] };
  last_snapshot = record {
    ts = 0;
    services = [];
    queues = [];
    incidents = [];
    baseline_ready = false;
  };
}

abbrev unencoded : StateSnapshot Hundredths → Option String
unencoded snap = none

abbrev pub as_given : {A : Type 0} → List A → List A
as_given xs = xs

-- A DLQ that is not empty becomes an incident in one cycle.
abbrev dlq_reads : Reads Hundredths
dlq_reads = record {
  service_rows = some [];
  queue_rows = some (full_queue ∷ []);
  fault_events = some [];
}

abbrev root_of : List Incident → List String
root_of listed = map (λ inc. inc.root_service) listed

dlq_reported :
    root_of
      (tick as_given as_given unencoded 4000 dlq_reads
        (record poller { inc_store = working })).0.last_snapshot.incidents
    ≡ "payment" ∷ []
unfolding tick group_loop is_dlq_signal build_correlated_event downstream_of queue_owner
    service_for_signal
dlq_reported = refl

-- A poller that has counted nothing yet.
abbrev fresh : Poller Hundredths
fresh = record poller { inc_store = empty_store; resolver = record { counts = [] } }

tick_reports_dlq_example :
    (let after = (tick sort_by_ts by_start unencoded 4000 dlq_reads fresh).0 in
      (ev : CorrelatedEvent Hundredths) × (s : AnomalySignal Hundredths) × (inc : Incident) × Memᴰ
        ev
        (correlate sort_by_ts [] after.correlator)
      × Memᴰ s ev.signals
      × (is_dlq_signal s ≡ true)
      × (signal_key s ≡ signal_key (dlq_signal full_queue))
      × Memᴰ inc after.last_snapshot.incidents
      × HasKey ev inc
      × All (λ t. Memᴰ t inc.timeline) ev.timeline)
tick_reports_dlq_example =
    tick_reports_dlq sort_by_ts by_start unencoded 4000 Hundredths-IsOrdered sort_by_ts-IsSort
      by_start-IsOrder [] (full_queue ∷ []) [] fresh full_queue tt empty-IsTable refl (λ id. refl)
      (Memᴰ.head refl) refl refl

-- A cycle that reads a row, one whose first read fails, one on which a statement is refused.
abbrev cycles : List (ℕ × Reads Hundredths)
cycles =
    (4000, dlq_reads)
    ∷ (6000, record { service_rows = none; queue_rows = none; fault_events = none })
    ∷ (8000, dlq_reads)
    ∷ []

abbrev stream : SseBroadcaster
stream = record { clients = [] }

abbrev flaky : Store
flaky = record { incidents = []; next_id = 1; refusals = false ∷ false ∷ true ∷ [] }

run_cycles-new-IsSound_example :
    IsSound (run_cycles sort_by_ts by_start unencoded cycles (new_poller flaky stream))
unfolding find_id
run_cycles-new-IsSound_example =
    run_cycles-new-IsSound sort_by_ts by_start by_start-IsOrder unencoded cycles flaky stream
      (record { fresh = λ id h. refl; distinct = tt })
