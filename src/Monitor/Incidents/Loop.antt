-- ===== src/Monitor/Incidents/Loop.antt =====
-- The loop of `Reconcile` over the events.
use monitower.Prelude.{List, [], ◌∷◌, ◌≡◌, refl, sym, subst, Memᴰ, string_eq, nat_eq}
use monitower.Monitor.Correlator.{CorrelatedEvent}
use monitower.Monitor.Incidents.{
  Incident, Store, Result, ok, err, continue, find_matching_incident, apply_event, apply_events,
}
use monitower.Monitor.Incidents.Growth.{
  Covered, Tracks, Grown, Grown-refl, Grown-trans, Grown-Covered,
}
use monitower.Monitor.Incidents.Round.{Progress, apply_event-Progress}

module _ {W : Type 0} where
  -- What the whole loop does.
  pub record Outcome (actives : List Incident) (events : List (CorrelatedEvent W)) (s : Store)
      (r : Result (Unit {0}) × Store) : Type 0 where
    pub tracks : Tracks actives r.1
    pub grown : Grown s.incidents r.1.incidents
    pub covers : r.0 ≡ ok tt → (ev : CorrelatedEvent W) → Memᴰ ev events → Covered ev r.1.incidents

  after_round :
      (actives : List Incident) (ev : CorrelatedEvent W) (events : List (CorrelatedEvent W))
      (s : Store) (p : Result (Unit {0}) × Store)
      → Progress ev actives s p
      → ((s' : Store)
          → Tracks actives s'
          → Outcome actives events s' (apply_events actives events s'))
      → Outcome actives (ev ∷ events) s (continue p λ _. apply_events actives events)
  after_round actives ev events s (err e, s') p rest = record {
    tracks = p.tracks;
    grown = p.grown;
    covers = λ k. absurd (cc k);
  }
  after_round actives ev events s (ok tt, s') p rest =
      let r = apply_events actives events s' in
      let o = rest s' p.tracks in
      record {
        tracks = o.tracks;
        grown = Grown-trans s.incidents s'.incidents r.1.incidents p.grown o.grown;
        covers = λ k x m. covered r o k x m;
      }
    where
      covered :
          (r : Result (Unit {0}) × Store)
          → Outcome actives events s' r
          → r.0 ≡ ok tt
          → (x : CorrelatedEvent W) → Memᴰ x (ev ∷ events)
          → Covered x r.1.incidents
      covered r o k x (Memᴰ.head e) =
          subst (λ x. Covered x r.1.incidents) (sym e)
            (Grown-Covered s'.incidents r.1.incidents ev o.grown (p.covers refl))
      covered r o k x (Memᴰ.tail m) = o.covers k x m

  pub apply_events-Outcome :
      (actives : List Incident) (events : List (CorrelatedEvent W)) (s : Store)
      → Tracks actives s
      → Outcome actives events s (apply_events actives events s)
  unfolding apply_events
  apply_events-Outcome actives [] s t = record {
    tracks = t;
    grown = Grown-refl s.incidents;
    covers = λ k ev m. absurd (elim m [ ]);
  }
  apply_events-Outcome actives (ev ∷ events) s t =
      after_round actives ev events s (apply_event (find_matching_incident actives ev) ev s)
        (apply_event-Progress ev actives s t) (apply_events-Outcome actives events)
