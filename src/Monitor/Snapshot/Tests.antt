-- ===== src/Monitor/Snapshot/Tests.antt =====
-- Snapshots of concrete rows.
use monitower.Prelude.{◌≤◌, List, [], ◌∷◌, some, ◌≡◌, refl, sym, string_eq}
use monitower.Float64.{of_int, literal}
use monitower.Float64.Hundredths.{Hundredths, hundredths_float}
use monitower.Simulator.Fault.{new_fault_engine, activate, deactivate}
use monitower.Simulator.Fault.Api.{handle_inject, fault_origins}
use monitower.Simulator.Fault.Log.{Call, injects, deactivates, run}
use monitower.Simulator.Metrics.{active_fault_names}
use monitower.Monitor.Baselines.{Baselines}
use monitower.Monitor.Detect.{ServiceRow}
use monitower.Monitor.Detect.Tests.{full_queue}
use monitower.Monitor.Correlator.{Correlator, active_signals}
use monitower.Monitor.Correlator.Tests.{slow_payment}
use monitower.Monitor.Snapshot.{build_snapshot, build_service_status, parse_faults}
use monitower.Monitor.Snapshot.Statuses.{find_status, count_status}
use monitower.Monitor.Snapshot.Reports.{Reported, build_snapshot-services}
use monitower.Monitor.Snapshot.FaultNames.{names_of, build_service_status-active_fault_names}

abbrev calls : List Call
calls =
    injects 1 (some "poison-pill")
    ∷ injects 2 (some "downstream-timeout")
    ∷ injects 3 (some "traffic-spike")
    ∷ deactivates 4 "downstream-timeout"
    ∷ []

abbrev row : ServiceRow Hundredths
row = record {
  ts = 5000;
  service = "payment";
  throughput = of_int 4;
  error_rate = literal 5 1;
  p50_latency = of_int 70;
  p99_latency = of_int 90;
  active_faults = "poison-pill,traffic-spike";
}

abbrev older : ServiceRow Hundredths
older = record row { ts = 3000; error_rate = of_int 0 }

abbrev no_baselines : Baselines Hundredths
no_baselines = record { window = 60000; by_key = [] }

abbrev slow : Correlator Hundredths
slow = record { active_signals = slow_payment ∷ []; signal_window = 30000; group_window = 10000 }

text_of_faults : active_fault_names (run new_fault_engine calls) ≡ row.active_faults
unfolding active_fault_names run deactivate handle_inject fault_origins activate new_fault_engine
text_of_faults = refl

parts : parse_faults " a ,, b c,\t" ≡ "a" ∷ "b c" ∷ []
unfolding parse_faults
parts = refl

build_service_status-active_fault_names_example :
    (build_service_status row []).active_faults ≡ names_of (run new_fault_engine calls)
build_service_status-active_fault_names_example =
    build_service_status-active_fault_names calls row [] (tt, (tt, (tt, (tt, tt))))
      (sym text_of_faults)

build_snapshot-services_example :
    let services =
      (build_snapshot 6000 (older ∷ row ∷ []) (full_queue ∷ []) [] no_baselines slow).services in
    (count_status "payment" services ≤ 1)
    × Reported "payment" (older ∷ row ∷ []) (active_signals slow) (find_status "payment" services)
build_snapshot-services_example =
    build_snapshot-services "payment" 6000 (older ∷ row ∷ []) (full_queue ∷ []) [] no_baselines slow
