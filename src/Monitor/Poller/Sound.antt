-- ===== src/Monitor/Poller/Sound.antt =====
-- What the cycles of the poller keep, whatever they read and whatever the database refuses.
use monitower.Prelude.{
  ℕ, String, List, [], ◌∷◌, ◌++◌, Option, none, some, ◌≡◌, refl, All, arith, string_eq, nat_eq,
}
use monitower.Float64.{Float64}
use monitower.Monitor.Signal.{AnomalySignal}
use monitower.Monitor.Detect.{
  ServiceRow, QueueRow, detect_service_anomalies, detect_queue_anomalies,
}
use monitower.Monitor.Correlator.{active_signals, FaultEvent, new_correlator}
use monitower.Monitor.Correlator.Active.{DistinctKeys, add_signals-DistinctKeys}
use monitower.Monitor.Correlator.Build.{correlate}
use monitower.Monitor.Incidents.{
  Incident, Store, Result, ok, find_id, set_resolved, mark_resolved, continue, list_active,
  active_rows, reconcile,
}
use monitower.Monitor.Incidents.Rows.{DistinctIds}
use monitower.Monitor.Incidents.Growth.{on_statement, IsTable}
use monitower.Monitor.Incidents.Reconcile.{IsOrder, reconcile-Reconciled}
use monitower.Monitor.Incidents.Tracker.{check}
use monitower.Monitor.Snapshot.{StateSnapshot}
use monitower.Monitor.Sse.{SseBroadcaster}
use monitower.Monitor.Poller.{
  Poller, Reads, new_poller, run_cycles, tick, with_rows, detect, correlate_and_resolve, resolve,
  resolve_all, or_nil,
}
use monitower.Monitor.Poller.Dlq.{IsPlain, add_signals-IsPlain}

set_resolved-absent :
    (id j at : ℕ) (rows : List Incident)
    → find_id id rows ≡ none
    → find_id id (set_resolved j at rows) ≡ none
unfolding find_id set_resolved
set_resolved-absent id j at [] h = refl
set_resolved-absent id j at (inc ∷ rows) h = ground (arith, set_resolved-absent id j at rows)

set_resolved-DistinctIds :
    (j at : ℕ) (rows : List Incident) → DistinctIds rows → DistinctIds (set_resolved j at rows)
unfolding set_resolved
set_resolved-DistinctIds j at [] d = tt
set_resolved-DistinctIds j at (inc ∷ rows) d =
    ground (arith, set_resolved-absent inc.id j at rows d.0, set_resolved-DistinctIds j at rows d.1)

mark_resolved-IsTable : (id now : ℕ) (s : Store) → IsTable s → IsTable (mark_resolved id now s).1
unfolding mark_resolved
mark_resolved-IsTable id now s table =
    on_statement
      (λ p.
        IsTable
          (continue p (λ _ s. (ok tt, record s { incidents = set_resolved id now s.incidents }))).1)
      s (λ r. record { fresh = table.fresh; distinct = table.distinct })
      (λ r. record {
        fresh = λ i h. set_resolved-absent i id now s.incidents (table.fresh i h);
        distinct = set_resolved-DistinctIds id now s.incidents table.distinct;
      })

resolve_all-IsTable :
    (now : ℕ) (ids : List ℕ) (s : Store) → IsTable s → IsTable (resolve_all now ids s)
unfolding resolve_all
resolve_all-IsTable now [] s table = table
resolve_all-IsTable now (id ∷ ids) s table =
    resolve_all-IsTable now ids (mark_resolved id now s).1 (mark_resolved-IsTable id now s table)

list_active-IsTable :
    (order : List Incident → List Incident) (s : Store)
    → IsTable s
    → IsTable (list_active order s).1
unfolding list_active
list_active-IsTable order s table =
    on_statement (λ p. IsTable (continue p (λ _ s. (ok (order (active_rows s.incidents)), s))).1) s
      (λ r. record { fresh = table.fresh; distinct = table.distinct })
      (λ r. record { fresh = table.fresh; distinct = table.distinct })

module _ {W : Type 0} where
  -- The ids of the table are distinct and below the next one, the active signals have distinct keys,
  -- and their metrics have no bar.
  pub record IsSound (p : Poller W) : Type 0 where
    pub table : IsTable p.inc_store
    pub keys : DistinctKeys p.correlator.active_signals
    pub plain : All (λ s. IsPlain s) p.correlator.active_signals

module _ {W : Type 0} ⦃f : Float64 W⦄ (sort : List (AnomalySignal W) → List (AnomalySignal W))
    (order : List Incident → List Incident) (orders : IsOrder order)
    (encode : StateSnapshot W → Option String) where
  resolve-IsSound :
      (now : ℕ) (services : List (ServiceRow W)) (queues : List (QueueRow W))
      (r : Result (List Incident) × Store) (p : Poller W)
      → IsTable r.1
      → IsSound p
      → IsSound (resolve sort order encode now services queues r p).0
  unfolding resolve
  resolve-IsSound now services queues (r, s) p table sound =
      let ids = (check (or_nil r) (active_signals p.correlator) p.resolver).1 in
      record {
        table =
            list_active-IsTable order (resolve_all now ids s) (resolve_all-IsTable now ids s table);
        keys = sound.keys;
        plain = sound.plain;
      }

  correlate_and_resolve-IsSound :
      (now : ℕ) (services : List (ServiceRow W)) (queues : List (QueueRow W))
      (faults : Option (List FaultEvent)) (p : Poller W)
      → IsSound p
      → IsSound (correlate_and_resolve sort order encode now services queues faults p).0
  unfolding correlate_and_resolve
  correlate_and_resolve-IsSound now services queues none p sound = sound
  correlate_and_resolve-IsSound now services queues (some faults) p sound =
      resolve-IsSound now services queues
        (reconcile order (correlate sort faults p.correlator) p.inc_store) p
        (reconcile-Reconciled order orders (correlate sort faults p.correlator) p.inc_store
          sound.table).table
        sound

  detect-IsSound :
      (now : ℕ) (services : List (ServiceRow W)) (queues : List (QueueRow W)) (p : Poller W)
      → IsSound p
      → IsSound (detect sort order encode now services queues p)
  unfolding detect
  detect-IsSound now services queues p sound =
      let bs = (detect sort order encode now services queues p).baselines in
      let sigs = detect_service_anomalies services bs ++ detect_queue_anomalies queues bs in
      record {
        table = sound.table;
        keys = add_signals-DistinctKeys now sigs p.correlator sound.keys;
        plain = add_signals-IsPlain now services queues bs p.correlator sound.plain;
      }

  with_rows-IsSound :
      (now : ℕ) (services : Option (List (ServiceRow W))) (queues : Option (List (QueueRow W)))
      (faults : Option (List FaultEvent)) (p : Poller W)
      → IsSound p
      → IsSound (with_rows sort order encode now services queues faults p).0
  with_rows-IsSound now none queues faults p sound = sound
  with_rows-IsSound now (some services) none faults p sound = sound
  with_rows-IsSound now (some services) (some queues) faults p sound =
      correlate_and_resolve-IsSound now services queues faults
        (detect sort order encode now services queues p)
        (detect-IsSound now services queues p sound)

  run_cycles-IsSound :
      (cycles : List (ℕ × Reads W)) (p : Poller W)
      → IsSound p
      → IsSound (run_cycles sort order encode cycles p)
  unfolding run_cycles
  run_cycles-IsSound [] p sound = sound
  run_cycles-IsSound ((now, r) ∷ cycles) p sound =
      run_cycles-IsSound cycles (tick sort order encode now r p).0
        (with_rows-IsSound now r.service_rows r.queue_rows r.fault_events p sound)

  -- Whatever the cycles since the start of the monitor read, and whatever statements the database
  -- refused in them: from a sound table of incidents, its ids stay distinct and below the next one, the
  -- active signals have distinct keys, and their metrics have no bar.
  pub run_cycles-new-IsSound :
      (cycles : List (ℕ × Reads W)) (store : Store) (broadcaster : SseBroadcaster)
      → IsTable store
      → IsSound (run_cycles sort order encode cycles (new_poller store broadcaster))
  unfolding new_poller new_correlator
  run_cycles-new-IsSound cycles store broadcaster table =
      run_cycles-IsSound cycles (new_poller store broadcaster)
        (record { table = table; keys = tt; plain = tt })
