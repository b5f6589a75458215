-- ===== src/Monitor/Incidents/Rows.antt =====
-- The rows of the incidents table by id, under the statements that change them.
use monitower.Prelude.{
  ℕ, suc, ◌≤◌, ◌==◌, if◌then◌else◌, List, [], ◌∷◌, ◌++◌, Option, none, some, ◌≡◌, refl, arith,
  string_eq, nat_eq,
}
use monitower.Monitor.Correlator.{TimelineEvent}
use monitower.Monitor.Incidents.{Incident, find_id, set_timeline}

abbrev pub with_timeline : List TimelineEvent → Option Incident → Option Incident
with_timeline timeline none = none
with_timeline timeline (some inc) = some (record inc { timeline = timeline })

abbrev pub or_row : ℕ → Option Incident → Incident → Option Incident
or_row id (some inc) row = some inc
or_row id none row = if row.id == id then some row else none

pub find_id-append :
    (id : ℕ) (rows : List Incident) (row : Incident)
    → find_id id (rows ++ row ∷ []) ≡ or_row id (find_id id rows) row
unfolding find_id
find_id-append id [] row = refl
find_id-append id (inc ∷ rows) row = ground (arith, find_id-append id rows row)

pub find_id-set_timeline :
    (id j : ℕ) (timeline : List TimelineEvent) (rows : List Incident)
    → find_id id (set_timeline j timeline rows)
      ≡ (if j == id then with_timeline timeline (find_id id rows) else find_id id rows)
unfolding find_id set_timeline
find_id-set_timeline id j timeline [] = ground arith
find_id-set_timeline id j timeline (inc ∷ rows) =
    ground (arith, find_id-set_timeline id j timeline rows)

pub find_id_sound :
    (id : ℕ) (rows : List Incident) (inc : Incident) → find_id id rows ≡ some inc → inc.id ≡ id
unfolding find_id
find_id_sound id [] inc h = cc
find_id_sound id (x ∷ rows) inc h = ground (arith, find_id_sound id rows inc)

-- The ids of the rows are below the next id, so an insert takes a new one.
abbrev pub IsFresh : ℕ → List Incident → Type 0
IsFresh next rows = (id : ℕ) → next ≤ id → find_id id rows ≡ none

-- Each id stands in one row.
abbrev pub DistinctIds : List Incident → Type 0
DistinctIds [] = Unit
DistinctIds (inc ∷ rows) = (find_id inc.id rows ≡ none) × DistinctIds rows

pub append-IsFresh :
    (next : ℕ) (rows : List Incident) (row : Incident)
    → row.id ≡ next
    → IsFresh next rows
    → IsFresh (suc next) (rows ++ row ∷ [])
append-IsFresh next rows row e fresh id h = ground (arith, find_id-append id rows row, fresh id)

pub append-DistinctIds :
    (rows : List Incident) (row : Incident)
    → find_id row.id rows ≡ none
    → DistinctIds rows
    → DistinctIds (rows ++ row ∷ [])
unfolding find_id
append-DistinctIds [] row h d = (refl, tt)
append-DistinctIds (inc ∷ rows) row h d =
    ground (arith, find_id-append inc.id rows row, append-DistinctIds rows row)

pub set_timeline-IsFresh :
    (next j : ℕ) (timeline : List TimelineEvent) (rows : List Incident)
    → IsFresh next rows
    → IsFresh next (set_timeline j timeline rows)
set_timeline-IsFresh next j timeline rows fresh id h =
    ground (arith, find_id-set_timeline id j timeline rows, fresh id)

pub set_timeline-DistinctIds :
    (j : ℕ) (timeline : List TimelineEvent) (rows : List Incident)
    → DistinctIds rows
    → DistinctIds (set_timeline j timeline rows)
unfolding set_timeline
set_timeline-DistinctIds j timeline [] d = tt
set_timeline-DistinctIds j timeline (inc ∷ rows) d = ground (
  arith,
  find_id-set_timeline inc.id j timeline rows,
  set_timeline-DistinctIds j timeline rows d.1,
)
