-- ===== src/Monitor/Incidents/Round.antt =====
-- One event of `Reconcile`: an insert, or a longer timeline of the matching incident.
use monitower.Prelude.{
  suc, Bool, ◌&&◌, ◌==◌, ==_iff, ==_self, String, List, [], ◌∷◌, ◌++◌, some, ◌≡◌, refl, ap, ◌∙◌,
  inl, inr, Memᴰ, mem-append_right, Bool-cases, Option-cases, arith, string_eq, nat_eq,
}
use monitower.Monitor.Correlator.{TimelineEvent, CorrelatedEvent}
use monitower.Monitor.Incidents.{
  Incident, Store, Error, Result, ok, err, wrap, continue, create_failed, timeline_failed,
  statement, scan_timeline, find_id, set_timeline, new_incident, create, append_timeline,
  fault_type_or_empty, nullable, find_matching_incident, apply_event,
}
use monitower.Monitor.Incidents.Rows.{
  find_id-append, find_id-set_timeline, find_id_sound, append-IsFresh, append-DistinctIds,
  set_timeline-IsFresh, set_timeline-DistinctIds,
}
use monitower.Monitor.Incidents.Growth.{
  on_statement, HasKey, Covered, Tracks, Grown, Grown-refl, Grown-Tracks, Grown-append,
  Grown-set_timeline,
}

nullable-or_empty : (t : String) → fault_type_or_empty (nullable t) ≡ t
nullable-or_empty t = ground (arith, ==_iff t "")

module _ {W : Type 0} (ev : CorrelatedEvent W) where
  -- What one round of the loop does, done or refused.
  pub record Progress (actives : List Incident) (s : Store) (r : Result (Unit {0}) × Store)
      : Type 0 where
    pub tracks : Tracks actives r.1
    pub grown : Grown s.incidents r.1.incidents
    pub covers : r.0 ≡ ok tt → Covered ev r.1.incidents

  -- A refused statement leaves the rows, and the round ends in an error.
  refused-Progress :
      (actives : List Incident) (s : Store) (e : Error) (r : List Bool)
      → Tracks actives s
      → Progress actives s (err e, record s { refusals = r })
  refused-Progress actives s e r t = record {
    tracks = record {
      table = record { fresh = t.table.fresh; distinct = t.table.distinct };
      known = t.known;
    };
    grown = Grown-refl s.incidents;
    covers = λ k. absurd (cc k);
  }

  created-Progress :
      (actives : List Incident) (s : Store) (r : List Bool)
      → Tracks actives s
      → Progress actives s (
        ok tt,
        record s {
          incidents = s.incidents ++ new_incident s.next_id ev ∷ [];
          next_id = suc s.next_id;
          refusals = r;
        },
      )
  unfolding new_incident
  created-Progress actives s r t =
      let row = new_incident s.next_id ev in
      let absent = t.table.fresh s.next_id (omega arith) in
      let grown = Grown-append s.incidents row in
      record {
        tracks =
            Grown-Tracks actives s _
              (record {
                fresh = append-IsFresh s.next_id s.incidents row refl t.table.fresh;
                distinct = append-DistinctIds s.incidents row absent t.table.distinct;
              })
              grown t;
        grown = grown;
        covers = λ k. (
          row,
          rw (find_id-append s.next_id s.incidents row, absent, ==_self s.next_id),
          (refl, refl, nullable-or_empty ev.fault_type),
          λ x m. m,
        );
      }

  create-Progress :
      (actives : List Incident) (s : Store)
      → Tracks actives s
      → Progress actives s (wrap create_failed (create ev s))
  unfolding create
  create-Progress actives s t =
      on_statement (λ p. Progress actives s (wrap create_failed (continue p λ _ s. insert_row s))) s
        (λ r. refused-Progress actives s create_failed r t) (λ r. created-Progress actives s r t)
    where
      insert_row : Store → Result (Unit {0}) × Store
      insert_row s = (
        ok tt,
        record s {
          incidents = s.incidents ++ new_incident s.next_id ev ∷ [];
          next_id = suc s.next_id;
        },
      )

  -- The incident has the event's key, as `findMatchingIncident` tests it.
  abbrev pub Matches : Incident → Type 0
  Matches a =
      (a.root_service ≡ ev.root_service) × (fault_type_or_empty a.fault_type ≡ ev.fault_type)

  pub find_matching_incident-some :
      (actives : List Incident) (a : Incident)
      → find_matching_incident actives ev ≡ some a
      → Memᴰ a actives × Matches a
  unfolding find_matching_incident
  find_matching_incident-some [] a h = cc
  find_matching_incident-some (inc ∷ actives) a h =
      elim (Bool-cases (
        inc.root_service == ev.root_service
        && fault_type_or_empty inc.fault_type == ev.fault_type)) [
          | inl hit ↦
              let e : some inc ≡ some a = rw hit at h in
              let same : a ≡ inc = cc e in
              (
                Memᴰ.head same,
                rw same (
                  (==_iff inc.root_service ev.root_service).0 (ground arith),
                  (==_iff (fault_type_or_empty inc.fault_type) ev.fault_type).0 (ground arith),
                ),
              )
          | inr miss ↦
              let (m, k) = find_matching_incident-some actives a (rw miss at h) in (Memᴰ.tail m, k)
        ]

  updated-Progress :
      (actives : List Incident) (s : Store) (r : List Bool) (a row : Incident)
      → Tracks actives s
      → find_id a.id s.incidents ≡ some row
      → HasKey ev row
      → Progress actives s (
        ok tt,
        record s {
          incidents = set_timeline a.id (row.timeline ++ ev.timeline) s.incidents;
          refusals = r;
        },
      )
  updated-Progress actives s r a row t found key =
      let merged = row.timeline ++ ev.timeline in
      let grown = Grown-set_timeline s.incidents a.id row ev.timeline found in
      let id : row.id ≡ a.id = find_id_sound a.id s.incidents row found in
      record {
        tracks =
            Grown-Tracks actives s _
              (record {
                fresh = set_timeline-IsFresh s.next_id a.id merged s.incidents t.table.fresh;
                distinct = set_timeline-DistinctIds a.id merged s.incidents t.table.distinct;
              })
              grown t;
        grown = grown;
        covers = λ k. (
          record row { timeline = merged },
          ap (λ i. find_id i (set_timeline a.id merged s.incidents)) id
              ∙ rw (find_id-set_timeline a.id a.id merged s.incidents, ==_self a.id, found),
          key,
          λ x m. mem-append_right x row.timeline ev.timeline m,
        );
      }

  append_timeline-Progress :
      (actives : List Incident) (s : Store) (a row : Incident)
      → Tracks actives s
      → find_id a.id s.incidents ≡ some row
      → HasKey ev row
      → Progress actives s (wrap timeline_failed (append_timeline a.id ev.timeline s))
  unfolding append_timeline
  append_timeline-Progress actives s a row t found key =
      on_statement (λ p. Progress actives s (wrap timeline_failed (continue p λ _ s. scan s))) s
        (λ r. refused-Progress actives s timeline_failed r t)
        (λ r. rw found (
          on_statement
            (λ p.
              Progress actives s (wrap timeline_failed (continue p λ _ s. update row.timeline s)))
            (record s { refusals = r }) (λ r. refused-Progress actives s timeline_failed r t)
            (λ r. updated-Progress actives s r a row t found key)))
    where
      update : List TimelineEvent → Store → Result (Unit {0}) × Store
      update existing s =
          (ok tt, record s { incidents = set_timeline a.id (existing ++ ev.timeline) s.incidents })

      scan : Store → Result (Unit {0}) × Store
      scan s =
          continue (scan_timeline (find_id a.id s.incidents) s)
            λ existing s. continue (statement s) λ _ s. update existing s

  pub apply_event-Progress :
      (actives : List Incident) (s : Store)
      → Tracks actives s
      → Progress actives s (apply_event (find_matching_incident actives ev) ev s)
  unfolding apply_event
  apply_event-Progress actives s t = elim (Option-cases (find_matching_incident actives ev)) [
    | inl none_found ↦ rw none_found (create-Progress actives s t)
    | inr (a, hit) ↦
        let (m, (root, fault)) = find_matching_incident-some actives a hit in
        let (row, found, active, same_root, same_fault) = t.known a m in
        rw hit (
          append_timeline-Progress actives s a row t found
            (active, same_root ∙ root, ap fault_type_or_empty same_fault ∙ fault))
  ]
