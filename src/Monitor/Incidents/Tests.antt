-- ===== src/Monitor/Incidents/Tests.antt =====
-- The incident store and the resolution tracker at work.
use mathlib.Core.List.{Permᴰ}
use monitower.Prelude.{
  ◌≤◌, ◌&&◌, leb, if◌then◌else◌, List, [], ◌∷◌, none, some, ◌≡◌, refl, inl, inr, Bool-cases, All,
  arith, string_eq, nat_eq,
}
use monitower.Float64.Hundredths.{Hundredths, hundredths_float}
use monitower.Monitor.Correlator.{CorrelatedEvent}
use monitower.Monitor.Correlator.Tests.{full_dlq, slow_payment}
use monitower.Monitor.Incidents.{Incident, Store, ok, reconcile, new_incident, find_id}
use monitower.Monitor.Correlator.Build.{contains}
use monitower.Monitor.Incidents.Growth.{IsTable}
use monitower.Monitor.Incidents.Reconcile.{IsOrder, Descending, Reconciled, reconcile-Reconciled}
use monitower.Monitor.Incidents.Returns.{reconcile_returns, reconcile_duplicates}
use monitower.Monitor.Incidents.Tracker.{new_resolution_tracker, check}
use monitower.Monitor.Incidents.Resolution.{is_listed, is_clean, check_twice}

-- Insertion by the start, later ones first: one order that the database may return.
insert_row : Incident → List Incident → List Incident
insert_row inc [] = inc ∷ []
insert_row inc (x ∷ rows) =
    if leb x.started_at inc.started_at then inc ∷ x ∷ rows else x ∷ insert_row inc rows

pub by_start : List Incident → List Incident
unfolding insert_row
by_start [] = []
by_start (inc ∷ rows) = insert_row inc (by_start rows)

insert_row-perm : (inc : Incident) (rows : List Incident) → Permᴰ (insert_row inc rows) (inc ∷ rows)
unfolding insert_row
insert_row-perm inc [] = Permᴰ.cons refl Permᴰ.nil
insert_row-perm inc (x ∷ rows) = elim (Bool-cases (leb x.started_at inc.started_at)) [
  | inl e ↦ rw e (same (inc ∷ x ∷ rows))
  | inr e ↦ rw e (Permᴰ.trans (Permᴰ.cons refl (insert_row-perm inc rows)) (Permᴰ.swap refl refl))
]
  where
    same : (xs : List Incident) → Permᴰ xs xs
    same [] = Permᴰ.nil
    same (x ∷ xs) = Permᴰ.cons refl (same xs)

by_start-perm : (rows : List Incident) → Permᴰ (by_start rows) rows
unfolding by_start
by_start-perm [] = Permᴰ.nil
by_start-perm (inc ∷ rows) =
    Permᴰ.trans (insert_row-perm inc (by_start rows)) (Permᴰ.cons refl (by_start-perm rows))

All-earlier :
    (a b : Incident) (rows : List Incident)
    → b.started_at ≤ a.started_at
    → All (λ x. x.started_at ≤ b.started_at) rows
    → All (λ x. x.started_at ≤ a.started_at) rows
All-earlier a b [] h all = tt
All-earlier a b (x ∷ rows) h all = (omega arith, All-earlier a b rows h all.1)

All-insert_row :
    (a inc : Incident) (rows : List Incident)
    → inc.started_at ≤ a.started_at
    → All (λ x. x.started_at ≤ a.started_at) rows
    → All (λ x. x.started_at ≤ a.started_at) (insert_row inc rows)
unfolding insert_row
All-insert_row a inc [] h all = (h, tt)
All-insert_row a inc (x ∷ rows) h all = elim (Bool-cases (leb x.started_at inc.started_at)) [
  | inl e ↦ rw e (h, all)
  | inr e ↦ rw e (all.0, All-insert_row a inc rows h all.1)
]

insert_row-Descending :
    (inc : Incident) (rows : List Incident) → Descending rows → Descending (insert_row inc rows)
unfolding insert_row
insert_row-Descending inc [] d = (tt, tt)
insert_row-Descending inc (x ∷ rows) d = elim (Bool-cases (leb x.started_at inc.started_at)) [
  | inl e ↦ rw e ((ground arith, All-earlier inc x rows (ground arith) d.0), d)
  | inr e ↦ rw e (All-insert_row x inc rows (ground arith) d.0, insert_row-Descending inc rows d.1)
]

by_start-Descending : (rows : List Incident) → Descending (by_start rows)
unfolding by_start
by_start-Descending [] = tt
by_start-Descending (inc ∷ rows) =
    insert_row-Descending inc (by_start rows) (by_start-Descending rows)

pub by_start-IsOrder : IsOrder by_start
by_start-IsOrder = record { perm = by_start-perm; descending = by_start-Descending }

abbrev payment_down : CorrelatedEvent Hundredths
payment_down = record {
  start_ts = 100000;
  root_service = "payment";
  root_cause = "payment: cascading-failure";
  fault_type = "cascading-failure";
  severity = "critical";
  affected = "fulfillment" ∷ "payment" ∷ [];
  signals = slow_payment ∷ [];
  timeline = record { ts = 100000; message = "anomaly detected" } ∷ [];
}

abbrev payment_down_again : CorrelatedEvent Hundredths
payment_down_again = record payment_down { start_ts = 115000 }

abbrev pub empty_store : Store
empty_store = record { incidents = []; next_id = 1; refusals = [] }

pub empty-IsTable : IsTable empty_store
unfolding find_id
empty-IsTable = record { fresh = λ id h. refl; distinct = tt }

reconcile-Reconciled_example :
    Reconciled by_start by_start-IsOrder
      (payment_down ∷ [])
      empty_store
      (reconcile by_start (payment_down ∷ []) empty_store)
reconcile-Reconciled_example =
    reconcile-Reconciled by_start by_start-IsOrder (payment_down ∷ []) empty_store empty-IsTable

reconcile_returns_example :
    (listed : List Incident) × (s' : Store) × (reconcile by_start (payment_down ∷ []) empty_store
      ≡ (ok listed, s'))
reconcile_returns_example =
    reconcile_returns by_start by_start-IsOrder (payment_down ∷ []) empty_store empty-IsTable refl

reconcile_duplicates_example :
    (reconcile by_start (payment_down ∷ payment_down_again ∷ []) empty_store).1.incidents
    ≡ new_incident 1 payment_down ∷ new_incident 2 payment_down_again ∷ []
reconcile_duplicates_example =
    reconcile_duplicates by_start by_start-IsOrder payment_down payment_down_again empty_store refl
      (λ a m. absurd (elim m [ ])) refl refl

abbrev incident : Incident
incident = record {
  id = 1;
  started_at = 100000;
  resolved_at = none;
  severity = "critical";
  root_cause = "payment: cascading-failure";
  root_service = "payment";
  affected = "fulfillment" ∷ "payment" ∷ [];
  fault_type = some "cascading-failure";
  timeline = record { ts = 100000; message = "anomaly detected" } ∷ [];
  status = "active";
}

-- A clean check after another asks to resolve the incident, and a signal on the way does not.
two_clean_checks :
    (check {W = Hundredths}
      (incident ∷ [])
      []
      (check {W = Hundredths} (incident ∷ []) [] new_resolution_tracker).0).1
    ≡ 1 ∷ []
unfolding check new_resolution_tracker contains
two_clean_checks = refl

check_twice_example :
    is_listed 1
      (check
        (incident ∷ [])
        (full_dlq ∷ [])
        (check (incident ∷ []) (slow_payment ∷ []) new_resolution_tracker).0).1
    ≡ (is_clean 1 (incident ∷ []) (full_dlq ∷ []) && is_clean 1 (incident ∷ []) (slow_payment ∷ []))
unfolding find_id
check_twice_example =
    check_twice 1 (incident ∷ []) (incident ∷ []) (slow_payment ∷ []) (full_dlq ∷ [])
      new_resolution_tracker (refl, tt) (refl, tt)
