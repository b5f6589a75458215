-- ===== src/Monitor/Snapshot/Reports.antt =====
-- What the snapshot says about a service.
use monitower.Prelude.{
  ℕ, ◌≤◌, false, ◌==◌, String, List, [], Option, none, some, Memᴰ, ◌≡◌, refl, sym, ap, subst, ◌∙◌,
  All, string_eq,
}
use monitower.Prelude.Dict.{lookup}
use monitower.Float64.{Float64}
use monitower.Monitor.Signal.{AnomalySignal}
use monitower.Monitor.Baselines.{Baselines}
use monitower.Monitor.Detect.{ServiceRow, QueueRow}
use monitower.Monitor.Correlator.{Correlator, active_signals}
use monitower.Monitor.Incidents.{Incident}
use monitower.Monitor.Snapshot.{
  ServiceStatus, parse_faults, or_false, build_service_status, mark_anomalous, latest_service,
  build_snapshot,
}
use monitower.Monitor.Snapshot.Latest.{IsLatest, NotLater, latest_service-IsLatest}
use monitower.Monitor.Snapshot.Statuses.{
  find_status, count_status, has_signal, lookup-mark_anomalous, latest_service-Keyed,
  latest_service-Distinct, status_of, find_status-statuses, count_status-statuses, status_text,
  or_nothing,
}

module _ {W : Type 0} where
  -- The status shows the numbers and the faults of the row.
  pub record IsStatusOf (r : ServiceRow W) (st : ServiceStatus W) : Type 0 where
    pub throughput : st.throughput ≡ r.throughput
    pub error_rate : st.error_rate ≡ r.error_rate
    pub p50_latency : st.p50_latency ≡ r.p50_latency
    pub p99_latency : st.p99_latency ≡ r.p99_latency
    pub active_faults : st.active_faults ≡ parse_faults r.active_faults

  -- No status where no row is of that service, else one that shows a latest row, and that is degraded
  -- where a signal is of that service.
  abbrev pub Reported :
      String → List (ServiceRow W) → List (AnomalySignal W) → Option (ServiceStatus W) → Type 0
  Reported svc rows sigs none = All (λ x. (x.service == svc) ≡ false) rows
  Reported svc rows sigs (some st) =
      (r : ServiceRow W) × Memᴰ r rows
      × (r.service ≡ svc)
      × All (λ x. NotLater svc r x) rows
      × IsStatusOf r st
      × (st.status ≡ status_text (has_signal svc sigs))

  Reported-status_of :
      (svc : String) (rows : List (ServiceRow W)) (sigs : List (AnomalySignal W))
      (o : Option (ServiceRow W))
      → IsLatest svc rows o
      → Reported svc rows sigs (status_of (mark_anomalous sigs []) o)
  unfolding build_service_status
  Reported-status_of svc rows sigs none h = h
  Reported-status_of svc rows sigs (some r) (m, named, later) = (
    r,
    m,
    named,
    later,
    record {
      throughput = refl;
      error_rate = refl;
      p50_latency = refl;
      p99_latency = refl;
      active_faults = refl;
    },
    degraded,
  )
    where
      degraded :
          status_text (or_false (lookup r.service (mark_anomalous sigs [])))
          ≡ status_text (has_signal svc sigs)
      degraded = ap status_text (
          ap (λ s. or_false (lookup s (mark_anomalous sigs []))) named
          ∙ lookup-mark_anomalous svc sigs []
          ∙ or_nothing (has_signal svc sigs))

module _ {W : Type 0} ⦃f : Float64 W⦄ where
  -- For each service, the snapshot has at most one status. It has none if no row of the cycle is of that
  -- service. Else the status shows the numbers and the faults of a row of the service that no other one
  -- is later than, and says degraded if an active signal is of that service, else healthy.
  pub build_snapshot-services :
      (svc : String) (now : ℕ) (rows : List (ServiceRow W)) (queues : List (QueueRow W))
      (actives : List Incident) (baselines : Baselines W) (c : Correlator W)
      → let services = (build_snapshot now rows queues actives baselines c).services in
        (count_status svc services ≤ 1)
        × Reported svc rows (active_signals c) (find_status svc services)
  unfolding build_snapshot
  build_snapshot-services svc now rows queues actives baselines c =
      let latest = latest_service rows [] in
      let anomalous = mark_anomalous (active_signals c) [] in
      let keyed = latest_service-Keyed rows [] tt in
      (
        count_status-statuses svc anomalous latest keyed (latest_service-Distinct rows [] tt),
        subst (Reported svc rows (active_signals c))
            (sym (find_status-statuses svc anomalous latest keyed))
            (Reported-status_of svc rows (active_signals c) (lookup svc latest)
              (latest_service-IsLatest svc rows)),
      )
