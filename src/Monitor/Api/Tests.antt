-- ===== src/Monitor/Api/Tests.antt =====
-- Requests to the monitor's API.
use monitower.Prelude.{[], ◌∷◌, none, ◌==◌, if◌then◌else◌, ◌≡◌, refl, string_eq}
use monitower.Prelude.Int.{pos, negsuc}
use monitower.Prelude.Decimal.{atoi}
use monitower.Float64.Hundredths.{Hundredths, hundredths_float}
use monitower.Monitor.Incidents.{Incident, Store}
use monitower.Monitor.Poller.Tests.{poller, as_given}
use monitower.Monitor.Api.{Request, query_int, handle_state, handle_incident_by_id, id_part}
use monitower.Monitor.Api.Lookup.{Answered, handle_incident_by_id-Answered}

abbrev stalled : Incident
stalled = record {
  id = 7;
  started_at = 5000;
  resolved_at = none;
  severity = "warning";
  root_cause = "";
  root_service = "payment";
  affected = "payment" ∷ [];
  fault_type = none;
  timeline = [];
  status = "active";
}

abbrev table : Store
table = record { incidents = stalled ∷ record stalled { id = 8 } ∷ []; next_id = 9; refusals = [] }

abbrev request : Request
request = record {
  method = "GET";
  path = "/api/incidents/8";
  query = λ key. if key == "limit" then "-1" else "";
}

no_limit : query_int request "limit" (pos 20) ≡ negsuc 0
unfolding query_int
no_limit = refl

max_int : atoi "9223372036854775808" ≡ none
unfolding atoi
max_int = refl

posted : (handle_state {W = Hundredths} (record request { method = "POST" }) poller).status ≡ 405
unfolding handle_state
posted = refl

found_status : (handle_incident_by_id {W = Hundredths} as_given request table).0.status ≡ 200
unfolding handle_incident_by_id
found_status = refl

slash_only : id_part "/api/incidents//3" ≡ ""
unfolding id_part
slash_only = refl

handle_incident_by_id-Answered_example :
    Answered {W = Hundredths} (atoi "8") table (handle_incident_by_id as_given request table).0
handle_incident_by_id-Answered_example =
    handle_incident_by_id-Answered Hundredths as_given request table "8" refl refl refl refl
