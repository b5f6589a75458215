-- ===== src/Monitor/Api.antt =====
-- The HTTP API of internal/monitor/api.go.
-- A request has its method, its path and the values of its query, the empty text for a missing one. A
-- response has a status and what its body encodes. `order` is that of the incident store.
pub mod Numbers
pub mod Lookup
pub mod Pages
pub mod Tests
use Prim.Native.Char.{code}
use monitower.Prelude.{
  ℕ, ◌-◌, Bool, true, false, ◌&&◌, ◌||◌, ◌==◌, if◌then◌else◌, String, List, [], ◌∷◌, map, any,
  Option, none, some, string_eq, nat_eq,
}
use monitower.Prelude.Int.{ℤ, pos, ◌-ℤ◌, ◌*ℤ◌, leb_ℤ}
use monitower.Prelude.Text.{split}
use monitower.Prelude.Decimal.{atoi, wrap_int64}
use monitower.Float64.{Float64}
use monitower.Simulator.Queue.{QueueMetricsRow}
use monitower.Simulator.Metrics.{ServiceMetricsRow}
use monitower.Monitor.Incidents.{Incident, Store, Result, ok, err, list_all, get_by_id}
use monitower.Monitor.Snapshot.{StateSnapshot}
use monitower.Monitor.Poller.{Poller}
use monitower.Monitor.Poller.Queries.{Database, float_of_ℤ}

pub record Request : Type 0 where
  pub method : String
  pub path : String
  pub query : String → String

pub record MetricPoint (W : Type 0) : Type 0 where
  pub ts : ℕ
  pub value : W

pub data Body (W : Type 0) : Type 0 where
  error_text : String → Body W
  state : StateSnapshot W → Body W
  incident_list : List Incident → Body W
  incident : Incident → Body W
  points : List (MetricPoint W) → Body W

pub record Response (W : Type 0) : Type 0 where
  pub status : ℕ
  pub body : Body W

unfoldable pub query_int : Request → String → ℤ → ℤ
unfolding atoi
query_int r key def = let s = r.query key in if s == "" then def else parsed (atoi s)
  where
    parsed : Option ℤ → ℤ
    parsed none = def
    parsed (some v) = v

module _ {W : Type 0} where
  abbrev pub failure : ℕ → String → Response W
  failure status message = record { status = status; body = error_text message }

  abbrev pub success : Body W → Response W
  success body = record { status = 200; body = body }

  abbrev pub method_not_allowed : Response W
  method_not_allowed = failure 405 "method not allowed"

  abbrev pub internal_error : Response W
  internal_error = failure 500 "internal error"

  unfoldable pub handle_state : Request → Poller W → Response W
  handle_state r p =
      if r.method == "GET" then success (state p.last_snapshot) else method_not_allowed

  abbrev pub listed : Result (List Incident) × Store → Response W × Store
  listed (ok incidents, s) = (success (incident_list incidents), s)
  listed (err e, s) = (internal_error, s)

  unfoldable pub handle_incidents :
      (List Incident → List Incident) → Request → Store → Response W × Store
  unfolding query_int list_all
  handle_incidents order r s =
      if r.method == "GET"
      then listed (list_all order (query_int r "limit" (pos 20)) (query_int r "offset" (pos 0)) s)
      else (method_not_allowed, s)

  abbrev pub found : Result (Option Incident) × Store → Response W × Store
  found (ok none, s) = (failure 404 "not found", s)
  found (ok (some inc), s) = (success (incident inc), s)
  found (err e, s) = (internal_error, s)

  abbrev pub by_id : Option ℤ → Store → Response W × Store
  by_id none s = (failure 400 "invalid id", s)
  by_id (some id) s = found (get_by_id id s)

-- `strings.TrimPrefix`
abbrev pub trim_prefix_or : String → String → String → String
trim_prefix_or whole String.[] s = s
trim_prefix_or whole (String.◌∷◌ c p) String.[] = whole
trim_prefix_or whole (String.◌∷◌ c p) (String.◌∷◌ d s) =
    let rest = trim_prefix_or whole p s in if code c == code d then rest else whole

-- `parts[0]`; the split of a text is never empty.
abbrev pub first_or_empty : List String → String
first_or_empty [] = ""
first_or_empty (part ∷ parts) = part

-- The part of the path behind the prefix, up to the next slash.
unfoldable pub id_part : String → String
unfolding split
id_part path = first_or_empty (split 47 (trim_prefix_or path "/api/incidents/" path))

module _ {W : Type 0} where
  unfoldable pub handle_incident_by_id :
      (List Incident → List Incident) → Request → Store → Response W × Store
  unfolding handle_incidents atoi id_part get_by_id
  handle_incident_by_id order r s =
      if r.method == "GET"
      then (if id_part r.path == ""
          then handle_incidents order r s
          else by_id (atoi (id_part r.path)) s)
      else (method_not_allowed, s)
