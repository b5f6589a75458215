-- ===== src/Monitor/Incidents/Reconcile.antt =====
-- `Reconcile`: what the incidents say of the events after it, refused statements included.
use monitower.Prelude.{
  ℕ, ◌≤◌, true, ◌==◌, ==_iff, ==_self, List, [], ◌∷◌, some, ◌≡◌, refl, sym, ap, subst, ◌∙◌, inl,
  inr, Memᴰ, All, mem_of_perm, perm_sym, Bool-cases, string_eq, nat_eq,
}
use monitower.Monitor.Correlator.{TimelineEvent, CorrelatedEvent}
use monitower.Monitor.Incidents.{
  Incident, Store, Result, ok, err, wrap, continue, find_id, apply_events, reconcile, list_active,
  active_rows, list_active_failed,
}
use monitower.Monitor.Incidents.Rows.{DistinctIds}
use mathlib.Core.List.{Permᴰ}
use monitower.Monitor.Incidents.Growth.{
  on_statement, IsTable, HasKey, Covered, Tracks, Grown, Grown-refl,
}
use monitower.Monitor.Incidents.Loop.{Outcome, apply_events-Outcome}

-- Later incidents first.
abbrev pub Descending : List Incident → Type 0
Descending [] = Unit
Descending (inc ∷ rows) = All (λ x. x.started_at ≤ inc.started_at) rows × Descending rows

-- What ORDER BY started_at DESC promises: the same rows, the later ones first, equal times in any
-- order.
pub record IsOrder (order : List Incident → List Incident) : Type 0 where
  pub perm : (rows : List Incident) → Permᴰ (order rows) rows
  pub descending : (rows : List Incident) → Descending (order rows)

pub mem-active_rows :
    (a : Incident) (rows : List Incident)
    → Memᴰ a (active_rows rows)
    → Memᴰ a rows × (a.status ≡ "active")
unfolding active_rows
mem-active_rows a [] m = elim m [ ]
mem-active_rows a (inc ∷ rows) m = elim (Bool-cases (inc.status == "active")) [
  | inl on ↦ kept on (mem-active_rows a rows) (rw on at m)
  | inr off ↦ let (h, e) = mem-active_rows a rows (rw off at m) in (Memᴰ.tail h, e)
]
  where
    kept :
        (inc.status == "active") ≡ true
        → (Memᴰ a (active_rows rows) → Memᴰ a rows × (a.status ≡ "active"))
        → Memᴰ a (inc ∷ active_rows rows)
        → Memᴰ a (inc ∷ rows) × (a.status ≡ "active")
    kept on ih (Memᴰ.head e) =
        (Memᴰ.head e, ap (λ (x : Incident). x.status) e ∙ (==_iff inc.status "active").0 on)
    kept on ih (Memᴰ.tail h) = let (h', e) = ih h in (Memᴰ.tail h', e)

active_rows-mem :
    (row : Incident) (id : ℕ) (rows : List Incident)
    → find_id id rows ≡ some row
    → row.status ≡ "active"
    → Memᴰ row (active_rows rows)
unfolding active_rows find_id
active_rows-mem row id [] found on = absurd (cc found)
active_rows-mem row id (inc ∷ rows) found on = elim (Bool-cases (inc.id == id)) [
  | inl hit ↦
      let k : some inc ≡ some row = rw hit at found in
      let e : row ≡ inc = cc k in
      rw ((==_iff inc.status "active").1 (ap (λ (x : Incident). x.status) (sym e) ∙ on))
        (Memᴰ.head e)
  | inr miss ↦
      let rest = active_rows-mem row id rows (rw miss at found) on in
      elim (Bool-cases (inc.status == "active")) [
        | inl k ↦ rw k (Memᴰ.tail rest)
        | inr k ↦ rw k rest
      ]
]

find_id-mem :
    (a : Incident) (rows : List Incident)
    → DistinctIds rows
    → Memᴰ a rows
    → find_id a.id rows ≡ some a
unfolding find_id
find_id-mem a [] d m = elim m [ ]
find_id-mem a (inc ∷ rows) d (Memᴰ.head e) =
    ap (λ (x : Incident). find_id x.id (inc ∷ rows)) e ∙ rw (==_self inc.id) (ap some (sym e))
find_id-mem a (inc ∷ rows) d (Memᴰ.tail m) = elim (Bool-cases (inc.id == a.id)) [
  | inl hit ↦
      let e = (==_iff inc.id a.id).0 hit in
      absurd (cc (find_id-mem a rows d.1 m, d.0, ap (λ i. find_id i rows) e))
  | inr miss ↦ rw miss (find_id-mem a rows d.1 m)
]

module _ (order : List Incident → List Incident) (orders : IsOrder order) where
  pub list_active-Tracks : (s : Store) → IsTable s → Tracks (order (active_rows s.incidents)) s
  list_active-Tracks s table = record {
    table = table;
    known = λ a m.
        let listed = mem_of_perm a (perm_sym (orders.perm (active_rows s.incidents))) m in
        let (h, active) = mem-active_rows a s.incidents listed in
        (a, find_id-mem a s.incidents table.distinct h, active, refl, refl);
  }

  module _ {W : Type 0} where
    -- An incident of the list is active, has the event's key, and has the event's timeline.
    abbrev pub IsReported : CorrelatedEvent W → List Incident → Type 0
    IsReported ev listed =
        (row : Incident) × Memᴰ row listed
        × HasKey ev row
        × ((t : TimelineEvent) → Memᴰ t ev.timeline → Memᴰ t row.timeline)

    Covered-IsReported :
        (ev : CorrelatedEvent W) (rows : List Incident)
        → Covered ev rows
        → IsReported ev (order (active_rows rows))
    Covered-IsReported ev rows (row, found, key, shown) = (
      row,
      mem_of_perm row (orders.perm (active_rows rows))
          (active_rows-mem row row.id rows found key.0),
      key,
      shown,
    )

    -- What `Reconcile` promises of its result and of the table.
    pub record Reconciled (events : List (CorrelatedEvent W)) (s : Store)
        (r : Result (List Incident) × Store) : Type 0 where
      pub table : IsTable r.1
      pub grown : Grown s.incidents r.1.incidents
      pub reported :
          (listed : List Incident)
          → r.0 ≡ ok listed
          → (ev : CorrelatedEvent W) → Memᴰ ev events
          → IsReported ev listed

    last_listing :
        (events : List (CorrelatedEvent W)) (s s' : Store)
        → IsTable s'
        → Grown s.incidents s'.incidents
        → ((ev : CorrelatedEvent W) → Memᴰ ev events → Covered ev s'.incidents)
        → Reconciled events s (list_active order s')
    unfolding list_active
    last_listing events s s' table grown covers =
        on_statement
          (λ p. Reconciled events s (continue p λ _ s. (ok (order (active_rows s.incidents)), s)))
          s'
          (λ r. record {
            table = record { fresh = table.fresh; distinct = table.distinct };
            grown = grown;
            reported = λ listed k. absurd (cc k);
          })
          (λ r. record {
            table = record { fresh = table.fresh; distinct = table.distinct };
            grown = grown;
            reported = λ listed k ev m.
                subst (IsReported ev) (ok-injective _ _ k)
                  (Covered-IsReported ev s'.incidents (covers ev m));
          })
      where
        ok-injective : (a b : List Incident) → ok a ≡ ok b → a ≡ b
        ok-injective a b e = cc e

    after_loop :
        (actives : List Incident) (events : List (CorrelatedEvent W)) (s : Store)
        (p : Result (Unit {0}) × Store)
        → Outcome actives events s p
        → Reconciled events s (continue p λ _. list_active order)
    after_loop actives events s (err e, s') o = record {
      table = o.tracks.table;
      grown = o.grown;
      reported = λ listed k. absurd (cc k);
    }
    after_loop actives events s (ok tt, s') o =
        last_listing events s s' o.tracks.table o.grown (o.covers refl)

    -- From a table with distinct ids below the next one, with any statements refused: the table stays
    -- so, every row stays with its status, root and fault type and a timeline that only grows, and if
    -- `Reconcile` returns a list, each event of the batch is in it: an active incident with the event's
    -- root and fault type has all of the event's timeline.
    pub reconcile-Reconciled :
        (events : List (CorrelatedEvent W)) (s : Store)
        → IsTable s
        → Reconciled events s (reconcile order events s)
    unfolding reconcile list_active
    reconcile-Reconciled events s table =
        on_statement
          (λ p. Reconciled events s (continue (wrap list_active_failed (listing p)) loop)) s
          (λ r. record {
            table = record { fresh = table.fresh; distinct = table.distinct };
            grown = Grown-refl s.incidents;
            reported = λ listed k. absurd (cc k);
          })
          (λ r.
            let s' = record s { refusals = r } in
            let actives = order (active_rows s.incidents) in
            let o =
              apply_events-Outcome actives events s' (
                list_active-Tracks s'
                  (record { fresh = table.fresh; distinct = table.distinct })) in
            after_loop actives events s (apply_events actives events s')
              (record { tracks = o.tracks; grown = o.grown; covers = o.covers }))
      where
        listing : Result (Unit {0}) × Store → Result (List Incident) × Store
        listing p = continue p λ _ s. (ok (order (active_rows s.incidents)), s)

        loop : List Incident → Store → Result (List Incident) × Store
        loop actives s = continue (apply_events actives events s) λ _. list_active order
