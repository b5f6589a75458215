-- ===== src/Monitor/Poller/Reported.antt =====
-- From a row of a DLQ that is not empty to an active incident of the snapshot, in one cycle.
use monitower.Prelude.{
  ℕ, Bool, true, false, ◌&&◌, leb, String, List, [], ◌∷◌, Option, some, Memᴰ, ◌≡◌, refl, sym, ap,
  subst, ◌∙◌, All, All-of_forall, ==_self, string_eq, nat_eq, arith,
}
use monitower.Prelude.Dict.{lookup}
use monitower.Float64.{Float64, IsOrdered, lt, of_int}
use monitower.Monitor.Signal.{AnomalySignal, signal_key, is_dlq_signal}
use monitower.Monitor.Detect.{ServiceRow, QueueRow, dlq_signal}
use monitower.Monitor.Correlator.{active_signals, CorrelatedEvent, FaultEvent}
use monitower.Monitor.Correlator.Build.{correlate}
use monitower.Monitor.Correlator.Groups.{IsSort}
use monitower.Monitor.Correlator.Events.{correlate_keeps_dlq}
use monitower.Monitor.Incidents.{Incident, Store, Result, ok, reconcile, list_active, active_rows}
use monitower.Monitor.Incidents.Rows.{DistinctIds}
use monitower.Monitor.Incidents.Growth.{IsTable, HasKey}
use monitower.Monitor.Incidents.Reconcile.{IsOrder, reconcile-Reconciled}
use monitower.Monitor.Incidents.Returns.{reconcile_passes, statement_passes}
use monitower.Monitor.Incidents.Listing.{active_rows-DistinctIds, perm-DistinctIds}
use monitower.Monitor.Incidents.Tracker.{ResolutionTracker, count_or_zero, check}
use monitower.Monitor.Incidents.Resolution.{is_listed, is_listed-check, is_clean}
use monitower.Monitor.Snapshot.{StateSnapshot}
use monitower.Monitor.Poller.{
  Poller, tick, detect, correlate_and_resolve, resolve, resolve_all, or_nil,
}
use monitower.Monitor.Poller.Dlq.{IsPlain, dlq_active}

nil_of_unlisted : (ids : List ℕ) → ((id : ℕ) → is_listed id ids ≡ false) → ids ≡ []
nil_of_unlisted [] h = refl
nil_of_unlisted (id ∷ ids) h = ground (arith, h id, ==_self id)

-- A tracker that counted no clean check yet resolves nothing.
nothing_resolved :
    {W : Type 0} (actives : List Incident) (signals : List (AnomalySignal W))
    (rt : ResolutionTracker)
    → DistinctIds actives
    → ((id : ℕ) → count_or_zero (lookup id rt.counts) ≡ 0)
    → (check actives signals rt).1 ≡ []
nothing_resolved actives signals rt d none_yet = nil_of_unlisted (check actives signals rt).1 (λ id.
    is_listed-check id actives signals rt d
    ∙ ap (λ n. is_clean id actives signals && leb 1 n) (none_yet id)
    ∙ and_false (is_clean id actives signals))
  where
    and_false : (b : Bool) → (b && false) ≡ false
    and_false true = refl
    and_false false = refl

module _ {W : Type 0} ⦃f : Float64 W⦄ (sort : List (AnomalySignal W) → List (AnomalySignal W))
    (order : List Incident → List Incident) (encode : StateSnapshot W → Option String)
    (now : ℕ) where
  listed_again :
      (s : Store)
      → s.refusals ≡ []
      → or_nil (list_active order s).0 ≡ order (active_rows s.incidents)
  unfolding list_active
  listed_again s free = rw (statement_passes s free) refl

  -- The snapshot of a cycle whose `Reconcile` passes and that resolves nothing.
  incidents_shown :
      (services : List (ServiceRow W)) (queues : List (QueueRow W)) (s : Store) (p : Poller W)
      → s.refusals ≡ []
      → (check (order (active_rows s.incidents)) p.correlator.active_signals p.resolver).1 ≡ []
      → (let shown =
            resolve sort order encode now services queues
              (ok (order (active_rows s.incidents)), s)
              p in
          shown.0.last_snapshot.incidents ≡ order (active_rows s.incidents))
  unfolding resolve active_signals resolve_all
  incidents_shown services queues s p free quiet =
      ap (λ ids. or_nil (list_active order (resolve_all now ids s)).0) quiet ∙ listed_again s free

  correlator_kept :
      (services : List (ServiceRow W)) (queues : List (QueueRow W))
      (r : Result (List Incident) × Store) (p : Poller W)
      → (resolve sort order encode now services queues r p).0.correlator ≡ p.correlator
  unfolding resolve
  correlator_kept services queues (r, s) p = refl

  -- The event and the incident of a DLQ signal that is active after the detection.
  abbrev ReportedBy : List FaultEvent → AnomalySignal W → Poller W → Type 0
  ReportedBy faults s after =
      (ev : CorrelatedEvent W) × (inc : Incident) × Memᴰ ev (correlate sort faults after.correlator)
      × Memᴰ s ev.signals
      × Memᴰ inc after.last_snapshot.incidents
      × HasKey ev inc
      × All (λ t. Memᴰ t inc.timeline) ev.timeline

  reported_after :
      IsSort sort
      → IsOrder order
      → (services : List (ServiceRow W)) (queues : List (QueueRow W)) (faults : List FaultEvent)
        (p : Poller W) (s : AnomalySignal W)
      → IsTable p.inc_store
      → p.inc_store.refusals ≡ []
      → ((id : ℕ) → count_or_zero (lookup id p.resolver.counts) ≡ 0)
      → Memᴰ s p.correlator.active_signals
      → is_dlq_signal s ≡ true
      → ReportedBy faults s
          (resolve sort order encode now services queues
            (reconcile order (correlate sort faults p.correlator) p.inc_store)
            p).0
  reported_after sorts orders services queues faults p s table free none_yet s_in dlq =
      let events = correlate sort faults p.correlator in
      let (ev, ev_in, s_ev) = correlate_keeps_dlq faults sort sorts p.correlator s s_in dlq in
      let (store, passed, free') = reconcile_passes order orders events p.inc_store table free in
      let listed = order (active_rows store.incidents) in
      let done = reconcile-Reconciled order orders events p.inc_store table in
      let (inc, inc_in, key, shown) = done.reported listed (ap (λ r. r.0) passed) ev ev_in in
      let distinct = perm-DistinctIds (orders.perm (active_rows store.incidents)) (
        active_rows-DistinctIds store.incidents
          (subst (λ r. DistinctIds r.1.incidents) passed done.table.distinct)) in
      let quiet =
        nothing_resolved listed p.correlator.active_signals p.resolver distinct none_yet in
      subst (λ r. ReportedBy faults s (resolve sort order encode now services queues r p).0)
        (sym passed)
        (
          ev,
          inc,
          subst (λ c. Memᴰ ev (correlate sort faults c))
              (sym (correlator_kept services queues (ok listed, store) p)) ev_in,
          s_ev,
          subst (λ l. Memᴰ inc l) (sym (incidents_shown services queues store p free' quiet))
              inc_in,
          key,
          All-of_forall (λ t. Memᴰ t inc.timeline) ev.timeline shown,
        )

  -- A cycle that reads its rows, on a sound table of incidents while the database refuses nothing: a
  -- row of a DLQ that is not empty becomes, whatever its baseline and whatever else is active, an
  -- incident of the snapshot that is active and has the root service, the fault type and the timeline
  -- of a correlated event. The event has a DLQ signal with the key of the row. The active signals have
  -- no bar in their metrics, no clean check is counted yet, and the sorts and comparisons are right.
  pub tick_reports_dlq :
      IsOrdered W
      → IsSort sort
      → IsOrder order
      → (services : List (ServiceRow W)) (queues : List (QueueRow W)) (faults : List FaultEvent)
        (p : Poller W) (r : QueueRow W)
      → All (λ s. IsPlain s) p.correlator.active_signals
      → IsTable p.inc_store
      → p.inc_store.refusals ≡ []
      → ((id : ℕ) → count_or_zero (lookup id p.resolver.counts) ≡ 0)
      → Memᴰ r queues
      → r.dlq ≡ true
      → lt (of_int 0) r.depth ≡ true
      → (let after =
            (tick sort order encode now
              (record {
                service_rows = some services;
                queue_rows = some queues;
                fault_events = some faults;
              })
              p).0 in
          (ev : CorrelatedEvent W) × (s : AnomalySignal W) × (inc : Incident) × Memᴰ ev
            (correlate sort faults after.correlator)
          × Memᴰ s ev.signals
          × (is_dlq_signal s ≡ true)
          × (signal_key s ≡ signal_key (dlq_signal r))
          × Memᴰ inc after.last_snapshot.incidents
          × HasKey ev inc
          × All (λ t. Memᴰ t inc.timeline) ev.timeline)
  unfolding tick correlate_and_resolve detect
  tick_reports_dlq o sorts orders services queues faults p r plain table free none_yet m is_dlq
        deep =
      let p1 = detect sort order encode now services queues p in
      let (s, s_in, dlq, key) =
        dlq_active o now services queues p1.baselines p.correlator r plain m is_dlq deep in
      let (ev, inc, ev_in, s_ev, shown, same, timeline) =
        reported_after sorts orders services queues faults p1 s table free none_yet s_in dlq in
      (ev, s, inc, ev_in, s_ev, dlq, key, shown, same, timeline)
