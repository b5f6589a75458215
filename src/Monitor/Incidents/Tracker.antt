-- ===== src/Monitor/Incidents/Tracker.antt =====
-- `ResolutionTracker` of internal/monitor/incidents.go: for each incident, how many checks in a row
-- found none of its services anomalous.
use monitower.Prelude.{
  ℕ, suc, Bool, not, ◌==◌, leb, if◌then◌else◌, String, List, [], ◌∷◌, ◌++◌, Option, none, some, any,
  string_eq, nat_eq,
}
use monitower.Prelude.Dict.{lookup, insert}
use monitower.Monitor.Signal.{AnomalySignal, queue_owner}
use monitower.Monitor.Correlator.Build.{contains}
use monitower.Monitor.Incidents.{Incident}

pub record ResolutionTracker : Type 0 where
  pub counts : List (ℕ × ℕ)

unfoldable pub new_resolution_tracker : ResolutionTracker
new_resolution_tracker = record { counts = [] }

abbrev pub owner_list : Option String → List String
owner_list none = []
owner_list (some owner) = owner ∷ []

module _ {W : Type 0} where
  -- What one signal adds to the set of anomalous services and queues.
  unfoldable pub anomalous_of : AnomalySignal W → List String
  anomalous_of sig =
      (if not (sig.service == "") then sig.service ∷ [] else [])
      ++ (if not (sig.queue == "")
          then sig.queue ∷ owner_list (lookup sig.queue queue_owner)
          else [])

  unfoldable pub anomalous_services : List (AnomalySignal W) → List String
  unfolding anomalous_of
  anomalous_services [] = []
  anomalous_services (sig ∷ signals) = anomalous_of sig ++ anomalous_services signals

unfoldable pub still_anomalous : List String → Incident → Bool
still_anomalous anomalous inc = any (λ svc. contains svc anomalous) inc.affected

-- `counts[id]` of a missing id is 0.
abbrev pub count_or_zero : Option ℕ → ℕ
count_or_zero none = 0
count_or_zero (some n) = n

-- One round of the loop over the active incidents: the counts, and the ids to resolve.
unfoldable pub check_incident :
    List String → Incident → List (ℕ × ℕ) → List ℕ → List (ℕ × ℕ) × List ℕ
unfolding still_anomalous
check_incident anomalous inc counts to_resolve =
    let count = suc (count_or_zero (lookup inc.id counts)) in
    if still_anomalous anomalous inc
    then (insert inc.id 0 counts, to_resolve)
    else (insert inc.id count counts, if leb 2 count then to_resolve ++ inc.id ∷ [] else to_resolve)

unfoldable pub check_loop :
    List String → List Incident → List (ℕ × ℕ) → List ℕ → List (ℕ × ℕ) × List ℕ
unfolding check_incident
check_loop anomalous [] counts to_resolve = (counts, to_resolve)
check_loop anomalous (inc ∷ actives) counts to_resolve =
    let r = check_incident anomalous inc counts to_resolve in check_loop anomalous actives r.0 r.1

abbrev pub has_id : ℕ → List Incident → Bool
has_id id = any (λ inc. inc.id == id)

-- The last loop deletes the counts of incidents that are not active.
unfoldable pub clean_up : List Incident → List (ℕ × ℕ) → List (ℕ × ℕ)
clean_up actives [] = []
clean_up actives ((id, n) ∷ counts) =
    let rest = clean_up actives counts in if has_id id actives then (id, n) ∷ rest else rest

unfoldable pub check :
    {W : Type 0}
    → List Incident
    → List (AnomalySignal W)
    → ResolutionTracker
    → ResolutionTracker × List ℕ
unfolding check_loop clean_up anomalous_services
check actives active_signals rt =
    let (counts, to_resolve) =
      check_loop (anomalous_services active_signals) actives rt.counts [] in
    (record { counts = clean_up actives counts }, to_resolve)
