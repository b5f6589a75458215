-- ===== src/Monitor/Poller/Errors.antt =====
-- What errors of the database do to a cycle.
use monitower.Prelude.{
  ℕ, Bool, true, false, String, Option, List, [], ◌∷◌, some, ◌≡◌, refl, ap, ◌∙◌,
}
use monitower.Float64.{Float64}
use monitower.Monitor.Signal.{AnomalySignal}
use monitower.Monitor.Detect.{ServiceRow, QueueRow}
use monitower.Monitor.Correlator.{FaultEvent}
use monitower.Monitor.Correlator.Build.{correlate}
use monitower.Monitor.Incidents.{
  Incident, Store, Error, ok, err, reconcile, list_active, statement, refused, continue,
  active_rows,
}
use monitower.Monitor.Incidents.Tracker.{check, clean_up, check_loop}
use monitower.Monitor.Snapshot.{StateSnapshot}
use monitower.Monitor.Poller.{
  Poller, publish, tick, detect, correlate_and_resolve, resolve, resolve_all,
}

list_active_keeps :
    (order : List Incident → List Incident) (s : Store)
    → (list_active order s).1.incidents ≡ s.incidents
unfolding list_active statement
list_active_keeps order s = by_answer s.refusals
  where
    by_answer :
        (refusals : List Bool)
        → (continue
            (refused refusals s)
            (λ _ s. (ok (order (active_rows s.incidents)), s))).1.incidents
          ≡ s.incidents
    by_answer [] = refl
    by_answer (true ∷ refusals) = refl
    by_answer (false ∷ refusals) = refl

clean_up-nil : (counts : List (ℕ × ℕ)) → clean_up [] counts ≡ []
unfolding clean_up
clean_up-nil [] = refl
clean_up-nil ((id, n) ∷ counts) = clean_up-nil counts

module _ {W : Type 0} ⦃f : Float64 W⦄ (sort : List (AnomalySignal W) → List (AnomalySignal W))
    (order : List Incident → List Incident) (encode : StateSnapshot W → Option String)
    (now : ℕ) where
  -- If `Reconcile` fails, the cycle goes on with an empty list: it resolves no incident, and forgets
  -- for every incident the clean checks counted so far.
  pub tick-reconcile_error :
      (services : List (ServiceRow W)) (queues : List (QueueRow W)) (faults : List FaultEvent)
      (p : Poller W) (e : Error) (s : Store)
      → reconcile order
          (correlate sort faults (detect sort order encode now services queues p).correlator)
          p.inc_store
        ≡ (err e, s)
      → (let after =
            (tick sort order encode now
              (record {
                service_rows = some services;
                queue_rows = some queues;
                fault_events = some faults;
              })
              p).0 in
          (after.inc_store.incidents ≡ s.incidents) × (after.resolver.counts ≡ []))
  unfolding tick correlate_and_resolve detect
  tick-reconcile_error services queues faults p e s h =
      let p1 = detect sort order encode now services queues p in
      (
        ap (λ r. (resolve sort order encode now services queues r p1).0.inc_store.incidents) h
            ∙ kept p1,
        ap (λ r. (resolve sort order encode now services queues r p1).0.resolver.counts) h
            ∙ forgotten p1,
      )
    where
      kept :
          (p1 : Poller W)
          → (resolve sort order encode now services queues (err e, s) p1).0.inc_store.incidents
            ≡ s.incidents
      kept p1 = unfold resolve publish resolve_all check check_loop in list_active_keeps order s

      forgotten :
          (p1 : Poller W)
          → (resolve sort order encode now services queues (err e, s) p1).0.resolver.counts ≡ []
      forgotten p1 = unfold resolve publish check check_loop in clean_up-nil p1.resolver.counts
