-- ===== src/Monitor/Incidents/Returns.antt =====
-- `Reconcile` while the database refuses nothing: it returns, and what it inserts.
use monitower.Prelude.{
  ℕ, suc, List, [], ◌∷◌, ◌++◌, none, some, ◌≡◌, refl, sym, subst, ◌∙◌, inl, inr, Memᴰ, mem_of_perm,
  perm_sym, Option-cases, string_eq, nat_eq,
}
use monitower.Monitor.Correlator.{TimelineEvent, CorrelatedEvent}
use monitower.Monitor.Incidents.{
  Incident, Store, Result, ok, statement, find_id, set_timeline, new_incident, create,
  append_timeline, find_matching_incident, apply_event, apply_events, reconcile, list_active,
  active_rows,
}
use monitower.Monitor.Incidents.Growth.{IsTable, Tracks}
use monitower.Monitor.Incidents.Round.{apply_event-Progress, find_matching_incident-some, Matches}
use monitower.Monitor.Incidents.Reconcile.{IsOrder, list_active-Tracks, mem-active_rows}

-- With no refusals left a statement passes.
pub statement_passes : (s : Store) → s.refusals ≡ [] → statement s ≡ (ok tt, s)
unfolding statement
statement_passes s h = rw h

-- A round that passes leaves no refusals.
abbrev Passes : Result (Unit {0}) × Store → Type 0
Passes p = (s' : Store) × (p ≡ (ok tt, s')) × (s'.refusals ≡ [])

append_timeline-Passes :
    (id : ℕ) (more : List TimelineEvent) (row : Incident) (s : Store)
    → s.refusals ≡ []
    → find_id id s.incidents ≡ some row
    → Passes (append_timeline id more s)
unfolding append_timeline
append_timeline-Passes id more row s free found = (
  record s { incidents = set_timeline id (row.timeline ++ more) s.incidents },
  rw (statement_passes s free, found, statement_passes s free),
  free,
)

module _ {W : Type 0} where
  apply_event-Passes :
      (actives : List Incident) (ev : CorrelatedEvent W) (s : Store)
      → s.refusals ≡ []
      → Tracks actives s
      → Passes (apply_event (find_matching_incident actives ev) ev s)
  unfolding apply_event create
  apply_event-Passes actives ev s free t = elim (Option-cases (find_matching_incident actives ev)) [
    | inl none_found ↦ (
      record s {
        incidents = s.incidents ++ new_incident s.next_id ev ∷ [];
        next_id = suc s.next_id;
      },
      rw (none_found, statement_passes s free),
      free,
    )
    | inr (a, hit) ↦
        let (row, found, _, _, _) = t.known a (find_matching_incident-some ev actives a hit).0 in
        let (s', e, free') = append_timeline-Passes a.id ev.timeline row s free found in
        (s', rw (hit, e), free')
  ]

  apply_events-Passes :
      (actives : List Incident) (events : List (CorrelatedEvent W)) (s : Store)
      → s.refusals ≡ []
      → Tracks actives s
      → Passes (apply_events actives events s)
  unfolding apply_events
  apply_events-Passes actives [] s free t = (s, refl, free)
  apply_events-Passes actives (ev ∷ events) s free t =
      let (s', e, free') = apply_event-Passes actives ev s free t in
      let moved : Tracks actives s' =
        subst (λ (p : Result (Unit {0}) × Store). Tracks actives p.1) e
          (apply_event-Progress ev actives s t).tracks in
      rw e (apply_events-Passes actives events s' free' moved)

  -- The list is that of the active rows, and nothing is refused after it either.
  pub reconcile_passes :
      (order : List Incident → List Incident) (orders : IsOrder order)
      (events : List (CorrelatedEvent W)) (s : Store)
      → IsTable s
      → s.refusals ≡ []
      → (s' : Store) × (reconcile order events s ≡ (ok (order (active_rows s'.incidents)), s'))
        × (s'.refusals ≡ [])
  unfolding reconcile list_active
  reconcile_passes order orders events s table free =
      let (s', e, free') =
        apply_events-Passes (order (active_rows s.incidents)) events s free
          (list_active-Tracks order orders s table) in
      (s', rw (statement_passes s free, e, statement_passes s' free'), free')

  -- While the database refuses nothing, `Reconcile` returns a list, from every table with distinct
  -- ids below the next one.
  pub reconcile_returns :
      (order : List Incident → List Incident) (orders : IsOrder order)
      (events : List (CorrelatedEvent W)) (s : Store)
      → IsTable s
      → s.refusals ≡ []
      → (listed : List Incident) × (s' : Store) × (reconcile order events s ≡ (ok listed, s'))
  reconcile_returns order orders events s table free =
      let (s', e, _) = reconcile_passes order orders events s table free in
      (order (active_rows s'.incidents), s', e)

  not-Matches-none :
      (actives : List Incident) (ev : CorrelatedEvent W)
      → ((a : Incident) → Memᴰ a actives → ¬ Matches ev a)
      → find_matching_incident actives ev ≡ none
  not-Matches-none actives ev absent = elim (Option-cases (find_matching_incident actives ev)) [
    | inl e ↦ e
    | inr (a, hit) ↦
        let (m, k) = find_matching_incident-some ev actives a hit in absurd (absent a m k)
  ]

  -- The incidents are read once, before the loop: where no row has the root service and fault type
  -- that the two events of a batch share, a `Reconcile` with no refused statement inserts an
  -- active incident for each of the two.
  pub reconcile_duplicates :
      (order : List Incident → List Incident) (orders : IsOrder order)
      (first second : CorrelatedEvent W) (s : Store)
      → s.refusals ≡ []
      → ((a : Incident) → Memᴰ a s.incidents → ¬ Matches first a)
      → first.root_service ≡ second.root_service
      → first.fault_type ≡ second.fault_type
      → (reconcile order (first ∷ second ∷ []) s).1.incidents
        ≡ (s.incidents ++ new_incident s.next_id first ∷ [])
          ++ new_incident (suc s.next_id) second ∷ []
  unfolding reconcile list_active apply_events apply_event create
  reconcile_duplicates order orders first second s free absent root fault = rw (
    statement_passes s free,
    not-Matches-none actives first unmatched,
    statement_passes s free,
    not-Matches-none actives second (λ a m k. unmatched a m (k.0 ∙ sym root, k.1 ∙ sym fault)),
    statement_passes one free,
    statement_passes two free,
  )
    where
      actives : List Incident
      actives = order (active_rows s.incidents)

      one : Store
      one = record s {
        incidents = s.incidents ++ new_incident s.next_id first ∷ [];
        next_id = suc s.next_id;
      }

      two : Store
      two = record one {
        incidents = one.incidents ++ new_incident one.next_id second ∷ [];
        next_id = suc one.next_id;
      }

      unmatched : (a : Incident) → Memᴰ a actives → ¬ Matches first a
      unmatched a m =
          absent a
            (mem-active_rows a s.incidents
              (mem_of_perm a (perm_sym (orders.perm (active_rows s.incidents))) m)).0
