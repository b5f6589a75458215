-- ===== src/Monitor/Correlator/Tests.antt =====
-- The correlator at work: a slow payment service behind a failing order service, and a DLQ that
-- fills on its own.
use mathlib.Core.List.{flatten}
use monitower.Prelude.{
  String, List, [], ◌∷◌, ◌≡◌, refl, Memᴰ, All, of_All, map, ◌≢◌, ◌==◌, ==_iff, string_eq, any, ◌||◌,
  ◌&&◌, arith,
}
use monitower.Prelude.Dict.{lookup}
use monitower.Float64.{of_int}
use monitower.Float64.Hundredths.{Hundredths, hundredths_float, Hundredths-IsOrdered}
use monitower.Monitor.Signal.{
  AnomalySignal, service_for_signal, topology_depth, is_dlq_signal, downstream_of, queue_owner,
}
use monitower.Monitor.Correlator.{
  Correlator, CorrelatedEvent, FaultEvent, add_signals, group_loop, new_correlator,
}
use monitower.Monitor.Correlator.Nominate.{nominate_root}
use monitower.Monitor.Correlator.Build.{
  build_affected, correlate, contains, match_fault_type, build_correlated_event,
}
use monitower.Monitor.Correlator.Represented.{Represented, add_signals-Represented}
use monitower.Monitor.Correlator.Groups.{IsGroup, Separated, group_loop_lem}
use monitower.Monitor.Correlator.Evidence.{Evidence}
use monitower.Monitor.Correlator.Root.{Named, IsUpstreamMost}
use monitower.Monitor.Correlator.Blame.{nominate_root-IsUpstreamMost, nominate_root-Evidence}
use monitower.Monitor.Correlator.Affected.{is_deeper, build_affected_lem}
use monitower.Monitor.Correlator.Events.{Reports, correlate-Reports}
use monitower.Monitor.Correlator.Sorting.{sort_by_ts, sort_by_ts-IsSort}

abbrev pub slow_payment : AnomalySignal Hundredths
slow_payment = record {
  ts = 100000;
  service = "payment";
  queue = "";
  metric = "p99_latency";
  value = of_int 8000;
  baseline = of_int 100;
  deviation = of_int 9;
  direction = "high";
}

abbrev failing_order : AnomalySignal Hundredths
failing_order = record slow_payment { ts = 104000; service = "order"; metric = "error_rate" }

abbrev pub full_dlq : AnomalySignal Hundredths
full_dlq = record slow_payment {
  ts = 130000;
  service = "";
  queue = "notification-dlq";
  metric = "dlq_depth";
}

abbrev cascading : FaultEvent
cascading = record {
  ts = 99000;
  fault_type = "cascading-failure";
  action = "start";
  origin = "payment";
}

abbrev correlator : Correlator Hundredths
correlator = record new_correlator { active_signals = failing_order ∷ slow_payment ∷ full_dlq ∷ [] }

abbrev summary : List (CorrelatedEvent Hundredths) → List (String × String × List String)
summary = map (λ ev. (ev.root_service, ev.fault_type, ev.affected))

-- Two events: order drags payment along, and the DLQ is on its own.
correlate_two :
    summary (correlate sort_by_ts [] correlator)
    ≡ ("order", "", "order" ∷ "payment" ∷ []) ∷ ("notification", "", "notification" ∷ []) ∷ []
unfolding correlate sort_by_ts new_correlator group_loop build_correlated_event is_dlq_signal
    topology_depth downstream_of queue_owner service_for_signal
correlate_two = refl

-- The injected fault moves the blame to payment.
correlate_fault :
    summary (correlate sort_by_ts (cascading ∷ []) correlator)
    ≡ ("payment", "cascading-failure", "payment" ∷ [])
      ∷ ("notification", "", "notification" ∷ [])
      ∷ []
unfolding correlate sort_by_ts new_correlator group_loop build_correlated_event is_dlq_signal
    topology_depth downstream_of queue_owner service_for_signal
correlate_fault = refl

abbrev later : Correlator Hundredths
later = add_signals 131000 (full_dlq ∷ failing_order ∷ []) correlator

add_signals-Represented_example : Represented Hundredths-IsOrdered full_dlq later.active_signals
add_signals-Represented_example =
    add_signals-Represented Hundredths-IsOrdered 131000 (full_dlq ∷ failing_order ∷ []) correlator
      full_dlq (Memᴰ.head refl)

group_loop_lem_example :
    let groups = group_loop 10000 [] [] 0 (slow_payment ∷ failing_order ∷ full_dlq ∷ []) in
    (flatten groups ≡ slow_payment ∷ failing_order ∷ full_dlq ∷ [])
    × All (IsGroup 10000) groups
    × Separated 10000 groups
group_loop_lem_example = group_loop_lem 10000 (slow_payment ∷ failing_order ∷ full_dlq ∷ [])

abbrev lone_event : CorrelatedEvent Hundredths
lone_event = build_correlated_event (full_dlq ∷ []) []

correlate-Reports_example :
    Reports [] sort_by_ts sort_by_ts-IsSort correlator lone_event correlator.active_signals
unfolding correlate sort_by_ts new_correlator group_loop is_dlq_signal
correlate-Reports_example =
    correlate-Reports [] sort_by_ts sort_by_ts-IsSort correlator lone_event
      (Memᴰ.tail (Memᴰ.head refl))

group-Named : Named (slow_payment ∷ failing_order ∷ [])
unfolding service_for_signal
group-Named s =
    of_All (λ s. service_for_signal s ≢ "") s (slow_payment ∷ failing_order ∷ [])
      (
        λ e. ground (arith, ==_iff {K = String} "payment" ""),
        (λ e. ground (arith, ==_iff {K = String} "order" ""), tt),
      )

nominate_root-IsUpstreamMost_example :
    IsUpstreamMost
      (nominate_root (slow_payment ∷ failing_order ∷ []) 100000 [])
      (slow_payment ∷ failing_order ∷ [])
nominate_root-IsUpstreamMost_example =
    nominate_root-IsUpstreamMost slow_payment (failing_order ∷ []) 100000 [] slow_payment
      group-Named (λ fe m. absurd (elim m [ ])) (Memᴰ.head refl)
      (λ e. ground (arith, ==_iff {K = String} "payment" ""))

nominate_root-Evidence_example :
    let root = nominate_root (slow_payment ∷ failing_order ∷ []) 100000 (cascading ∷ []) in
    ((fe : FaultEvent) × Memᴰ fe (cascading ∷ [])
      × Evidence (slow_payment ∷ failing_order ∷ []) 100000 fe
      × (root ≡ fe.origin))
    × ((fe : FaultEvent) × Memᴰ fe (cascading ∷ [])
        × (fe.action ≡ "start")
        × (fe.origin ≡ root)
        × (match_fault_type root 100000 (cascading ∷ []) ≡ fe.fault_type))
unfolding service_for_signal
nominate_root-Evidence_example =
    nominate_root-Evidence (slow_payment ∷ failing_order ∷ []) 100000 (cascading ∷ []) cascading
      (Memᴰ.head refl) (refl, omega arith, omega arith, (slow_payment, Memᴰ.head refl, refl))

build_affected_lem_example :
    contains "payment" (build_affected "order" (slow_payment ∷ failing_order ∷ [])) ≡ (
      ◌==◌ {K = String} "order" "payment"
      || (is_deeper (lookup "order" topology_depth) (lookup "payment" topology_depth)
          && any (λ sig. service_for_signal sig == "payment") (slow_payment ∷ failing_order ∷ [])))
build_affected_lem_example =
    (build_affected_lem "order" (slow_payment ∷ failing_order ∷ [])).0 "payment"
