-- ===== src/Monitor/Incidents/Growth.antt =====
-- What the statements of `Reconcile` keep of the rows: every row stays, and only timelines grow.
use monitower.Prelude.{
  ℕ, Bool, true, false, ◌==◌, ==_iff, List, [], ◌∷◌, ◌++◌, some, ◌≡◌, refl, sym, ap, subst, ◌∙◌,
  inl, inr, Memᴰ, mem-append_left, Bool-cases, arith, string_eq, nat_eq,
}
use monitower.Monitor.Correlator.{TimelineEvent, CorrelatedEvent}
use monitower.Monitor.Incidents.{
  Incident, Store, Result, ok, err, driver, statement, refused, find_id, set_timeline,
  fault_type_or_empty,
}
use monitower.Monitor.Incidents.Rows.{
  find_id-append, find_id-set_timeline, find_id_sound, IsFresh, DistinctIds,
}

-- A statement changes nothing but the refusals to come, and is refused or not.
pub on_statement {ℓ} :
    (P : Result (Unit {0}) × Store → Type ℓ) (s : Store)
    → ((r : List Bool) → P (err driver, record s { refusals = r }))
    → ((r : List Bool) → P (ok tt, record s { refusals = r }))
    → P (statement s)
unfolding statement
on_statement P s no_case ok_case = go s.refusals refl
  where
    go : (l : List Bool) → s.refusals ≡ l → P (refused s.refusals s)
    go [] e = subst (λ l. P (refused l s)) (sym e) (ok_case s.refusals)
    go (true ∷ l) e = subst (λ l. P (refused l s)) (sym e) (no_case l)
    go (false ∷ l) e = subst (λ l. P (refused l s)) (sym e) (ok_case l)

-- The table as every operation leaves it: ids are distinct and below the next one.
pub record IsTable (s : Store) : Type 0 where
  pub fresh : IsFresh s.next_id s.incidents
  pub distinct : DistinctIds s.incidents

-- The row is an active incident with the event's key.
abbrev pub HasKey : {W : Type 0} → CorrelatedEvent W → Incident → Type 0
HasKey ev row =
    (row.status ≡ "active")
    × (row.root_service ≡ ev.root_service)
    × (fault_type_or_empty row.fault_type ≡ ev.fault_type)

-- An active incident with the event's key has the event's timeline.
abbrev pub Covered : {W : Type 0} → CorrelatedEvent W → List Incident → Type 0
Covered ev rows =
    (row : Incident) × (find_id row.id rows ≡ some row)
    × HasKey ev row
    × ((t : TimelineEvent) → Memᴰ t ev.timeline → Memᴰ t row.timeline)

-- The rows of the incidents that `Reconcile` read first are still there with their keys.
pub record Tracks (actives : List Incident) (s : Store) : Type 0 where
  pub table : IsTable s
  pub known :
      (a : Incident)
      → Memᴰ a actives
      → (row : Incident) × (find_id a.id s.incidents ≡ some row)
        × (row.status ≡ "active")
        × (row.root_service ≡ a.root_service)
        × (row.fault_type ≡ a.fault_type)

-- Nothing but the timeline changes in a row, and that only grows.
abbrev pub Extends : Incident → Incident → Type 0
Extends x y =
    (y.status ≡ x.status)
    × (y.root_service ≡ x.root_service)
    × (y.fault_type ≡ x.fault_type)
    × ((t : TimelineEvent) → Memᴰ t x.timeline → Memᴰ t y.timeline)

abbrev pub Grown : List Incident → List Incident → Type 0
Grown rows rows' =
    (id : ℕ) (x : Incident)
    → find_id id rows ≡ some x
    → (y : Incident) × (find_id id rows' ≡ some y) × Extends x y

pub Extends-refl : (x : Incident) → Extends x x
Extends-refl x = (refl, refl, refl, λ t m. m)

pub Grown-refl : (rows : List Incident) → Grown rows rows
Grown-refl rows id x found = (x, found, Extends-refl x)

pub Grown-Covered :
    {W : Type 0} (rows rows' : List Incident) (ev : CorrelatedEvent W)
    → Grown rows rows'
    → Covered ev rows
    → Covered ev rows'
Grown-Covered rows rows' ev grown (row, found, (active, root, fault), shown) =
    let (y, found', (status, same_root, same_fault, grew)) = grown row.id row found in
    let id : y.id ≡ row.id = find_id_sound row.id rows' y found' in
    (
      y,
      ap (λ i. find_id i rows') id ∙ found',
      (status ∙ active, same_root ∙ root, ap fault_type_or_empty same_fault ∙ fault),
      λ t m. grew t (shown t m),
    )

pub Grown-Tracks :
    (actives : List Incident) (s s' : Store)
    → IsTable s'
    → Grown s.incidents s'.incidents
    → Tracks actives s
    → Tracks actives s'
Grown-Tracks actives s s' table grown t = record {
  table = table;
  known = λ a m.
      let (row, found, active, root, fault) = t.known a m in
      let (y, found', (status, same_root, same_fault, _)) = grown a.id row found in
      (y, found', status ∙ active, same_root ∙ root, same_fault ∙ fault);
}

pub Grown-append : (rows : List Incident) (row : Incident) → Grown rows (rows ++ row ∷ [])
Grown-append rows row id x found = (x, rw (find_id-append id rows row, found), Extends-refl x)

-- The SELECT gave `row`, and the UPDATE writes its timeline with more at the end.
pub Grown-set_timeline :
    (rows : List Incident) (j : ℕ) (row : Incident) (more : List TimelineEvent)
    → find_id j rows ≡ some row
    → Grown rows (set_timeline j (row.timeline ++ more) rows)
Grown-set_timeline rows j row more selected id x found = elim (Bool-cases (j == id)) [
  | inl same ↦
      let k : some row ≡ some x =
        sym selected ∙ ap (λ i. find_id i rows) ((==_iff j id).0 same) ∙ found in
      (
        record x { timeline = row.timeline ++ more },
        rw (find_id-set_timeline id j (row.timeline ++ more) rows, same, found),
        (
          refl,
          refl,
          refl,
          λ t m.
              mem-append_left t row.timeline more
                (subst (λ (o : List TimelineEvent). Memᴰ t o) (sym (timeline_of row x k)) m),
        ),
      )
  | inr other ↦
      (x, rw (find_id-set_timeline id j (row.timeline ++ more) rows, other, found), Extends-refl x)
]
  where
    timeline_of : (a b : Incident) → some a ≡ some b → a.timeline ≡ b.timeline
    timeline_of a b e = ground arith

pub Grown-trans : (a b c : List Incident) → Grown a b → Grown b c → Grown a c
Grown-trans a b c g h id x found =
    let (y, found', (s, r, f, t)) = g id x found in
    let (z, found'', (s', r', f', t')) = h id y found' in
    (z, found'', (s' ∙ s, r' ∙ r, f' ∙ f, λ x m. t' x (t x m)))
