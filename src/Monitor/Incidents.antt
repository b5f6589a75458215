-- ===== src/Monitor/Incidents.antt =====
-- The incident store of internal/monitor/incidents.go over the incidents table of
-- internal/db/schema.go.
-- The database is a state: the rows by id, the next id, and for each statement to come whether the
-- database refuses it (none is refused once that list is used up). A row holds the values whose JSON
-- texts stand in the columns affected and timeline. `order` stands for ORDER BY started_at DESC,
-- which leaves the order of equal times open.
pub mod Rows
pub mod Growth
pub mod Round
pub mod Loop
pub mod Reconcile
pub mod Returns
pub mod Listing
pub mod Tracker
pub mod Resolution
pub mod Tests
use monitower.Prelude.{
  ℕ, zero, suc, ◌+◌, Bool, true, false, ◌&&◌, ◌==◌, if◌then◌else◌, String, List, [], ◌∷◌, ◌++◌,
  Option, none, some, string_eq, nat_eq,
}
use monitower.Prelude.Int.{ℤ, pos, negsuc}
use monitower.Monitor.Correlator.{TimelineEvent, CorrelatedEvent}

pub record Incident : Type 0 where
  pub id : ℕ
  pub started_at : ℕ
  pub resolved_at : Option ℕ
  pub severity : String
  pub root_cause : String
  pub root_service : String
  pub affected : List String
  pub fault_type : Option String
  pub timeline : List TimelineEvent
  pub status : String

pub record Store : Type 0 where
  pub incidents : List Incident
  pub next_id : ℕ
  pub refusals : List Bool

pub data Error : Type 0 where
  -- an error of the database, and those that `Reconcile` wraps
  driver list_active_failed create_failed timeline_failed : Error

pub data Result {ℓ} (A : Type ℓ) : Type ℓ where
  ok : A → Result A
  err : Error → Result A

abbrev pub Db : Type 0 → Type 0
Db A = Store → Result A × Store

abbrev pub continue {ℓ} :
    {A : Type ℓ} {B : Type 0} → Result A × Store → (A → Db B) → Result B × Store
continue (ok a, s) k = k a s
continue (err e, s) k = (err e, s)

infixl 5 ◌>>=◌ ◌>>◌
abbrev pub ◌>>=◌ : {A B : Type 0} → Db A → (A → Db B) → Db B
◌>>=◌ m k s = continue (m s) k

abbrev pub ◌>>◌ : {B : Type 0} → Db (Unit {0}) → Db B → Db B
m >> k = m >>= λ _. k

abbrev pub pure : {A : Type 0} → A → Db A
pure a s = (ok a, s)

-- `fmt.Errorf("…: %w", err)`
abbrev pub wrap : {A : Type 0} → Error → Result A × Store → Result A × Store
wrap e (ok a, s) = (ok a, s)
wrap e (err _, s) = (err e, s)

abbrev pub wrapping : {A : Type 0} → Error → Db A → Db A
wrapping e m s = wrap e (m s)

abbrev pub refused : List Bool → Store → Result (Unit {0}) × Store
refused [] s = (ok tt, s)
refused (true ∷ refusals) s = (err driver, record s { refusals = refusals })
refused (false ∷ refusals) s = (ok tt, record s { refusals = refusals })

-- One statement sent to the database.
unfoldable pub statement : Db (Unit {0})
statement s = refused s.refusals s

unfoldable pub find_id : ℕ → List Incident → Option Incident
find_id id [] = none
find_id id (inc ∷ rows) = if inc.id == id then some inc else find_id id rows

unfoldable pub active_rows : List Incident → List Incident
active_rows [] = []
active_rows (inc ∷ rows) =
    let rest = active_rows rows in if inc.status == "active" then inc ∷ rest else rest

-- `UPDATE incidents SET timeline=? WHERE id=?`
unfoldable pub set_timeline : ℕ → List TimelineEvent → List Incident → List Incident
set_timeline id timeline [] = []
set_timeline id timeline (inc ∷ rows) =
    (if inc.id == id then record inc { timeline = timeline } else inc)
    ∷ set_timeline id timeline rows

-- `UPDATE incidents SET status='resolved', resolved_at=? WHERE id=?`
unfoldable pub set_resolved : ℕ → ℕ → List Incident → List Incident
set_resolved id at [] = []
set_resolved id at (inc ∷ rows) =
    (if inc.id == id then record inc { status = "resolved"; resolved_at = some at } else inc)
    ∷ set_resolved id at rows

unfoldable pub mark_resolved : ℕ → ℕ → Db (Unit {0})
unfolding statement set_resolved
mark_resolved id resolved_at = do
  statement
  λ s. (ok tt, record s { incidents = set_resolved id resolved_at s.incidents })

abbrev pub nullable : String → Option String
nullable fault_type = if fault_type == "" then none else some fault_type

module _ {W : Type 0} where
  -- The row that an event inserts.
  unfoldable pub new_incident : ℕ → CorrelatedEvent W → Incident
  new_incident id ev = record {
    id = id;
    started_at = ev.start_ts;
    resolved_at = none;
    severity = ev.severity;
    root_cause = ev.root_cause;
    root_service = ev.root_service;
    affected = ev.affected;
    fault_type = nullable ev.fault_type;
    timeline = ev.timeline;
    status = "active";
  }

  unfoldable pub create : CorrelatedEvent W → Db (Unit {0})
  unfolding statement new_incident
  create ev = do
    statement
    λ s. (
      ok tt,
      record s {
        incidents = s.incidents ++ new_incident s.next_id ev ∷ [];
        next_id = suc s.next_id;
      },
    )

abbrev pub scan_timeline : Option Incident → Db (List TimelineEvent)
scan_timeline none s = (err driver, s)
scan_timeline (some inc) s = (ok inc.timeline, s)

-- No row with the id is an error of the SELECT.
unfoldable pub append_timeline : ℕ → List TimelineEvent → Db (Unit {0})
unfolding statement set_timeline find_id
append_timeline id new_events = do
  statement
  existing ← λ s. scan_timeline (find_id id s.incidents) s
  statement
  λ s. (ok tt, record s { incidents = set_timeline id (existing ++ new_events) s.incidents })

abbrev pub fault_type_or_empty : Option String → String
fault_type_or_empty none = ""
fault_type_or_empty (some t) = t

module _ {W : Type 0} where
  unfoldable pub find_matching_incident : List Incident → CorrelatedEvent W → Option Incident
  find_matching_incident [] ev = none
  find_matching_incident (inc ∷ actives) ev =
      if inc.root_service == ev.root_service && fault_type_or_empty inc.fault_type == ev.fault_type
      then some inc
      else find_matching_incident actives ev

module _ {W : Type 0} where
  unfoldable pub apply_event : Option Incident → CorrelatedEvent W → Db (Unit {0})
  unfolding create append_timeline
  apply_event none ev = wrapping create_failed (create ev)
  apply_event (some matched) ev = wrapping timeline_failed (append_timeline matched.id ev.timeline)

  -- The loop over the events; `actives` is not read again in it.
  unfoldable pub apply_events : List Incident → List (CorrelatedEvent W) → Db (Unit {0})
  unfolding apply_event find_matching_incident
  apply_events actives [] = pure tt
  apply_events actives (ev ∷ events) = do
    apply_event (find_matching_incident actives ev) ev
    apply_events actives events

abbrev pub take : ℕ → List Incident → List Incident
take zero rows = []
take (suc n) [] = []
take (suc n) (inc ∷ rows) = inc ∷ take n rows

abbrev pub drop : ℕ → List Incident → List Incident
drop zero rows = rows
drop (suc n) [] = []
drop (suc n) (inc ∷ rows) = drop n rows

-- SQLite reads a negative LIMIT as none, and a negative OFFSET as 0.
abbrev pub limited : ℤ → List Incident → List Incident
limited (pos n) rows = take n rows
limited (negsuc n) rows = rows

abbrev pub skipped : ℤ → List Incident → List Incident
skipped (pos n) rows = drop n rows
skipped (negsuc n) rows = rows

module _ (order : List Incident → List Incident) where
  unfoldable pub list_active : Db (List Incident)
  unfolding statement active_rows
  list_active = do statement; λ s. (ok (order (active_rows s.incidents)), s)

  unfoldable pub list_all : ℤ → ℤ → Db (List Incident)
  unfolding statement
  list_all limit offset = do
    statement
    λ s. (ok (limited limit (skipped offset (order s.incidents))), s)

  unfoldable pub reconcile : {W : Type 0} → List (CorrelatedEvent W) → Db (List Incident)
  unfolding apply_events list_active
  reconcile events = do
    actives ← wrapping list_active_failed list_active
    apply_events actives events
    list_active

-- The ids of the table are no negative numbers.
abbrev pub find_key : ℤ → List Incident → Option Incident
find_key (pos id) rows = find_id id rows
find_key (negsuc n) rows = none

unfoldable pub get_by_id : ℤ → Db (Option Incident)
unfolding statement find_id
get_by_id id = do statement; λ s. (ok (find_key id s.incidents), s)
