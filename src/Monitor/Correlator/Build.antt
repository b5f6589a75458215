-- ===== src/Monitor/Correlator/Build.antt =====
-- The correlated event of a group (`buildCorrelatedEvent` and what it calls), and `Correlate`.
use Prim.Native.Nat.{Ordering}
use Prim.Native.String.{◌++◌ as concat, compare as compare_strings}
use text.Mathlib.Text.{find?}
use monitower.Prelude.{
  ℕ, ◌+◌, ◌-◌, Bool, false, not, ◌&&◌, ◌||◌, leb, ◌==◌, if◌then◌else◌, String, List, [], ◌∷◌,
  is_some, any, string_eq, nat_eq,
}
use monitower.Float64.{Float64, of_int, lt}
use monitower.Monitor.Signal.{AnomalySignal, downstream_of, service_for_signal, is_dlq_signal}
use monitower.Monitor.Correlator.{FaultEvent, CorrelatedEvent, Correlator, group_loop, first_ts}
use monitower.Monitor.Correlator.Nominate.{nominate_root, has_service_signal}

unfoldable pub contains : String → List String → Bool
contains x = any (λ y. y == x)

-- `seen[d] = true` for each downstream service that is the signal's.
unfoldable pub mark_downstream : String → List String → List String → List String
mark_downstream svc [] seen = seen
mark_downstream svc (d ∷ downstream) seen =
    mark_downstream svc downstream (if svc == d && not (contains d seen) then d ∷ seen else seen)

-- `sort.Strings`: the order of the bytes, which is that of the code points.
unfoldable pub insert_string : String → List String → List String
insert_string x [] = x ∷ []
insert_string x (y ∷ ys) = elim (compare_strings x y) [
  | Ordering.gt ↦ y ∷ insert_string x ys
  | _ ↦ x ∷ y ∷ ys
]

unfoldable pub sort_strings : List String → List String
sort_strings [] = []
sort_strings (x ∷ xs) = insert_string x (sort_strings xs)

unfoldable pub is_match : String → ℕ → FaultEvent → Bool
is_match root_service group_start fe =
    fe.action == "start"
    && fe.origin == root_service
    && leb (group_start - 5000) fe.ts
    && leb fe.ts (group_start + 2000)

unfoldable pub match_fault_type : String → ℕ → List FaultEvent → String
unfolding is_match
match_fault_type root_service group_start [] = ""
match_fault_type root_service group_start (fe ∷ events) =
    if is_match root_service group_start fe
    then fe.fault_type
    else match_fault_type root_service group_start events

contains_text : String → String → Bool
contains_text s sub = is_some (find? s sub)

module _ {W : Type 0} where
  unfoldable pub mark_signals : List String → List (AnomalySignal W) → List String → List String
  mark_signals downstream [] seen = seen
  mark_signals downstream (sig ∷ signals) seen =
      mark_signals downstream signals (mark_downstream (service_for_signal sig) downstream seen)

  unfoldable pub build_affected : String → List (AnomalySignal W) → List String
  unfolding mark_signals mark_downstream contains sort_strings insert_string
  build_affected root_service signals =
      sort_strings (mark_signals (downstream_of root_service) signals (root_service ∷ []))

  unfoldable pub build_root_cause : String → List (AnomalySignal W) → String → String
  unfolding has_service_signal
  build_root_cause root_service signals fault_type =
      if not (has_service_signal signals)
      then concat root_service ": silent failure — no correlated upstream anomaly"
      else if not (fault_type == "")
      then concat root_service (concat ": " fault_type)
      else concat root_service ": anomaly detected"

module _ {W : Type 0} ⦃f : Float64 W⦄ where
  unfoldable pub is_critical : AnomalySignal W → Bool
  unfolding contains_text
  is_critical sig =
      (sig.metric == "dlq_depth" && lt (of_int 50) sig.value)
      || (sig.service == "payment" && sig.metric == "throughput" && sig.direction == "low")
      || (contains_text sig.service "crash" || contains_text sig.metric "crash")

  unfoldable pub compute_severity : List (AnomalySignal W) → String
  unfolding is_critical
  compute_severity signals = if any is_critical signals then "critical" else "warning"

  -- `signals[0]` is there: the groups are not empty.
  unfoldable pub build_correlated_event :
      List (AnomalySignal W) → List FaultEvent → CorrelatedEvent W
  unfolding nominate_root build_affected match_fault_type build_root_cause compute_severity
  build_correlated_event signals fault_events =
      let group_start = first_ts signals in
      let root_service = nominate_root signals group_start fault_events in
      let fault_type = match_fault_type root_service group_start fault_events in
      let root_cause = build_root_cause root_service signals fault_type in
      record {
        start_ts = group_start;
        root_service = root_service;
        root_cause = root_cause;
        fault_type = fault_type;
        severity = compute_severity signals;
        affected = build_affected root_service signals;
        signals = signals;
        timeline =
            record { ts = group_start; message = concat "anomaly detected: " root_cause } ∷ [];
      }

  -- A group of one signal counts only if that is a DLQ signal.
  unfoldable pub is_skipped : List (AnomalySignal W) → Bool
  is_skipped [] = false
  is_skipped (sig ∷ []) = not (is_dlq_signal sig)
  is_skipped (sig ∷ more ∷ signals) = false

  unfoldable pub build_events :
      List (List (AnomalySignal W)) → List FaultEvent → List (CorrelatedEvent W)
  unfolding is_skipped
  build_events [] fault_events = []
  build_events (group ∷ groups) fault_events =
      let rest = build_events groups fault_events in
      if is_skipped group then rest else build_correlated_event group fault_events ∷ rest

  unfoldable pub correlate_active :
      (List (AnomalySignal W) → List (AnomalySignal W))
      → ℕ
      → List FaultEvent
      → List (AnomalySignal W)
      → List (CorrelatedEvent W)
  unfolding build_events
  correlate_active sort window fault_events [] = []
  correlate_active sort window fault_events (s ∷ signals) =
      build_events (group_loop window [] [] 0 (sort (s ∷ signals))) fault_events

  unfoldable pub correlate :
      (List (AnomalySignal W) → List (AnomalySignal W))
      → List FaultEvent
      → Correlator W
      → List (CorrelatedEvent W)
  unfolding correlate_active
  correlate sort fault_events c = correlate_active sort c.group_window fault_events c.active_signals
