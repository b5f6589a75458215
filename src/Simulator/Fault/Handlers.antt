-- ===== src/Simulator/Fault/Handlers.antt =====
-- The handlers that stop and inject faults.
use monitower.Prelude.{
  ℕ, String, List, [], ◌∷◌, ◌++◌, map, Option, none, some, ◌≡◌, refl, ◌==◌, ==_iff, ==_self,
  string_eq, arith, inl, inr, ap, Bool-cases, ◌∙◌, ◌≢◌, append_assoc, append-nil, Option-cases,
  false, All, subst,
}
use monitower.Prelude.Dict.{lookup, lookup-insert, Distinct, erase-of_absent}
use monitower.Simulator.Fault.{
  FaultType, FaultEventRow, FaultEngine, Exec, activate, activate_locked, deactivate,
  deactivate_locked, get_active_faults,
}
use monitower.Simulator.Fault.Api.{
  Response, handle_inject, handle_stop, handle_reset, inject_known, deactivate_all, fault_origins,
  status_ok,
}
use monitower.Simulator.Fault.Log.{ok_at, row_of}

abbrev stop_row : (FaultType → ℕ) → FaultType × String → FaultEventRow
stop_row t (fault, origin) = row_of (t fault) fault "stop" origin

deactivate_head :
    (t : ℕ) (fault : FaultType) (origin : String) (m : List (FaultType × String))
    (rows : List FaultEventRow)
    → lookup fault m ≡ none
    → deactivate (ok_at t) fault (record { active = (fault, origin) ∷ m; fault_events = rows })
      ≡ record { active = m; fault_events = rows ++ row_of t fault "stop" origin ∷ [] }
unfolding deactivate deactivate_locked
deactivate_head t fault origin m rows absent =
    ground (arith, ==_self fault, erase-of_absent fault m)

deactivate_all_lem :
    (t : FaultType → ℕ) (m : List (FaultType × String)) (rows : List FaultEventRow)
    → Distinct m
    → deactivate_all
        (λ f. ok_at (t f))
        (get_active_faults (record { active = m; fault_events = rows }))
        (record { active = m; fault_events = rows })
      ≡ record { active = []; fault_events = rows ++ map (stop_row t) m }
unfolding deactivate_all get_active_faults
deactivate_all_lem t [] rows d = rw append-nil
deactivate_all_lem t ((fault, origin) ∷ m) rows d =
    ap
      (deactivate_all (λ f. ok_at (t f))
        (get_active_faults (record { active = m; fault_events = [] })))
      (deactivate_head (t fault) fault origin m rows d.0)
    ∙ deactivate_all_lem t m (rows ++ stop_row t (fault, origin) ∷ []) d.1
    ∙ rw append_assoc

-- On an engine whose map holds no fault twice, and while the database accepts every insert, a stop
-- request clears every fault, writes one 'stop' row for each with the origin that it was injected
-- with, and answers 200; a reset request does the same.
pub handle_stop_lem :
    (t : FaultType → ℕ) (e : FaultEngine)
    → Distinct e.active
    → let cleared : FaultEngine = record {
      active = [];
      fault_events = e.fault_events ++ map (stop_row t) e.active;
    } in
      (handle_stop (λ f. ok_at (t f)) e ≡ (cleared, record { status = 200; body = status_ok }))
      × (handle_reset (λ f. ok_at (t f)) e ≡ (cleared, record { status = 200; body = status_ok }))
unfolding handle_stop handle_reset
handle_stop_lem t e d = (
  rw (deactivate_all_lem t e.active e.fault_events d),
  rw (deactivate_all_lem t e.active e.fault_events d),
)

-- The faults of the design, each with the service where it originates.
pub data Originates : FaultType → String → Type 0 where
  poison_pill : Originates "poison-pill" "order"
  downstream_timeout : Originates "downstream-timeout" "payment"
  traffic_spike : Originates "traffic-spike" "api-gateway"
  cascading_failure : Originates "cascading-failure" "payment"
  intermittent_errors : Originates "intermittent-errors" "payment"
  notification_failure : Originates "notification-failure" "notification"

-- The origin that an active fault keeps, or else the one that it is injected with.
abbrev pub kept_or : String → Option String → String
kept_or origin none = origin
kept_or origin (some kept) = kept

abbrev pub IsAccepted : FaultType → String → FaultEngine → FaultEngine × Response → Type 0
IsAccepted fault origin e (e', reply) =
    (reply.status ≡ 200)
    × (lookup fault e'.active ≡ some (kept_or origin (lookup fault e.active)))
    × ((f : FaultType) → f ≢ fault → lookup f e'.active ≡ lookup f e.active)

abbrev pub IsRefused : FaultEngine → FaultEngine × Response → Type 0
IsRefused e (e', reply) = (reply.status ≡ 400) × (e' ≡ e)

-- What a request is answered: by its fault, and a body that does not decode is refused.
abbrev pub Injected : Option FaultType → FaultEngine → FaultEngine × Response → Type 0
Injected none e r = IsRefused e r
Injected (some fault) e r =
    ((origin : String) → Originates fault origin → IsAccepted fault origin e r)
    × (((origin : String) → ¬ Originates fault origin) → IsRefused e r)

listed :
    (fault origin : String) → Originates fault origin → lookup fault fault_origins ≡ some origin
unfolding fault_origins
listed _ _ poison_pill = refl
listed _ _ downstream_timeout = refl
listed _ _ traffic_spike = refl
listed _ _ cascading_failure = refl
listed _ _ intermittent_errors = refl
listed _ _ notification_failure = refl

is_given : (fault origin : String) → Originates fault origin → (fault == "") ≡ false
is_given _ _ poison_pill = refl
is_given _ _ downstream_timeout = refl
is_given _ _ traffic_spike = refl
is_given _ _ cascading_failure = refl
is_given _ _ intermittent_errors = refl
is_given _ _ notification_failure = refl

-- A relation on all pairs of a map holds of what a lookup finds.
of_lookup :
    (P : String → String → Type 0) (m : List (String × String)) (k v : String)
    → All (λ (j, w). P j w) m
    → lookup k m ≡ some v
    → P k v
of_lookup P [] k v all h = cc
of_lookup P ((j, w) ∷ m) k v all h = elim (Bool-cases (j == k)) [
  | inl e ↦ subst (λ i. P i v) ((==_iff j k).0 e) (subst (P j) (some-injective (rw e at h)) all.0)
  | inr e ↦ of_lookup P m k v all.1 (rw e at h)
]
  where
    some-injective : some w ≡ some v → w ≡ v
    some-injective h = cc

Originates-of_lookup :
    (fault origin : String) → lookup fault fault_origins ≡ some origin → Originates fault origin
unfolding fault_origins
Originates-of_lookup fault origin = of_lookup Originates fault_origins fault origin (
  poison_pill,
  (
    downstream_timeout,
    (traffic_spike, (cascading_failure, (intermittent_errors, (notification_failure, tt)))),
  ),
)

activate_kept :
    (x : Exec) (fault : FaultType) (origin : String) (e : FaultEngine)
    → lookup fault (activate x fault origin e).active
      ≡ some (kept_or origin (lookup fault e.active))
unfolding activate activate_locked
activate_kept x fault origin e = elim (Option-cases (lookup fault e.active)) [
  | inl absent ↦ (ground (arith, absent, lookup-insert fault fault origin e.active, ==_self fault))
  | inr (kept, there) ↦ rw there there
]

activate_others :
    (x : Exec) (fault : FaultType) (origin : String) (e : FaultEngine) (f : FaultType)
    → f ≢ fault
    → lookup f (activate x fault origin e).active ≡ lookup f e.active
unfolding activate activate_locked
activate_others x fault origin e f h =
    ground (arith, lookup-insert fault f origin e.active, ==_iff fault f)

-- A request for one of the six faults of the design is answered 200: that fault is then active, with
-- its origin, or the one it had if it was active before, and every other fault is as before. A request
-- for any other name, without a name, or with a body that does not decode is answered 400 and changes
-- nothing.
pub handle_inject_cases :
    (x : Exec) (request : Option FaultType) (e : FaultEngine)
    → Injected request e (handle_inject x request e)
unfolding handle_inject inject_known
handle_inject_cases x none e = (refl, refl)
handle_inject_cases x (some fault) e = (
  λ origin o.
      rw (is_given fault origin o, listed fault origin o)
        (refl, activate_kept x fault origin e, activate_others x fault origin e),
  λ unknown. elim (Bool-cases (fault == "")) [
    | inl missing ↦ rw missing (refl, refl)
    | inr given ↦ elim (Option-cases (lookup fault fault_origins)) [
      | inl absent ↦ rw (given, absent) (refl, refl)
      | inr (origin, there) ↦ absurd (unknown origin (Originates-of_lookup fault origin there))
    ]
  ],
)
