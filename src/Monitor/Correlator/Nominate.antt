-- ===== src/Monitor/Correlator/Nominate.antt =====
-- Which service a group of signals is blamed on: `nominateRoot` and what it calls.
use monitower.Prelude.{
  ℕ, ◌-◌, Bool, true, not, ◌&&◌, ◌||◌, ltb, leb, ◌==◌, if◌then◌else◌, String, List, [], ◌∷◌, Option,
  none, some, is_some, any, string_eq, nat_eq,
}
use monitower.Prelude.Dict.{lookup, insert}
use monitower.Monitor.Signal.{
  AnomalySignal, topology_depth, queue_owner, upstream_of, service_for_signal,
}
use monitower.Monitor.Correlator.{FaultEvent}

abbrev pub depth_or : Option ℕ → ℕ
depth_or none = 999
depth_or (some depth) = depth

unfoldable pub depth_of : String → ℕ
depth_of svc = depth_or (lookup svc topology_depth)

abbrev pub or_else : Option String → String → String
or_else (some s) rest = s
or_else none rest = rest

module _ {W : Type 0} where
  -- The first round of the evidence loop that returns: a 'start' row within 5 s before the group,
  -- whose origin is a service of the group.
  unfoldable pub is_evidence : List (AnomalySignal W) → ℕ → FaultEvent → Bool
  is_evidence signals group_start fe =
      fe.action == "start"
      && leb (group_start - 5000) fe.ts
      && leb fe.ts group_start
      && any (λ sig. service_for_signal sig == fe.origin) signals

  unfoldable pub fault_evidence : List (AnomalySignal W) → ℕ → List FaultEvent → Option String
  unfolding is_evidence
  fault_evidence signals group_start [] = none
  fault_evidence signals group_start (fe ∷ events) =
      if is_evidence signals group_start fe
      then some fe.origin
      else fault_evidence signals group_start events

  unfoldable pub low_throughput :
      List (AnomalySignal W) → List (String × Bool) → List (String × Bool)
  low_throughput [] seen = seen
  low_throughput (sig ∷ signals) seen = low_throughput signals (
      if sig.metric == "throughput" && sig.direction == "low"
      then insert sig.service true seen
      else seen)

  -- The code collects the services with low throughput, and returns the empty text all the same.
  unfoldable pub detect_starvation : List (AnomalySignal W) → String
  detect_starvation signals = let seen = low_throughput signals [] in ""

  unfoldable pub has_service_signal : List (AnomalySignal W) → Bool
  has_service_signal = any (λ sig. not (sig.service == ""))

  unfoldable pub first_owner : List (AnomalySignal W) → Option String
  first_owner [] = none
  first_owner (sig ∷ signals) =
      let owner = lookup sig.queue queue_owner in
      if not (sig.queue == "") && is_some owner then owner else first_owner signals

  -- The test of the last loop of `nominateRoot`.
  unfoldable pub is_better : AnomalySignal W → String → ℕ → ℕ → Bool
  unfolding depth_of
  is_better sig best best_depth best_ts =
      let depth = depth_of (service_for_signal sig) in
      ltb depth best_depth || (depth == best_depth && (best == "" || ltb sig.ts best_ts))

  -- The last loop of `nominateRoot`, over its three variables.
  unfoldable pub best_root : List (AnomalySignal W) → String → ℕ → ℕ → String
  unfolding is_better depth_of
  best_root [] best best_depth best_ts = best
  best_root (sig ∷ signals) best best_depth best_ts =
      let svc = service_for_signal sig in
      let better = is_better sig best best_depth best_ts in
      best_root signals (if better then svc else best) (if better then depth_of svc else best_depth)
        (if better then sig.ts else best_ts)

  unfoldable pub nominate_root : List (AnomalySignal W) → ℕ → List FaultEvent → String
  unfolding fault_evidence detect_starvation has_service_signal first_owner best_root upstream_of
  nominate_root signals group_start fault_events =
      let best = best_root signals "" 999 0 in
      let owner = if has_service_signal signals then best else or_else (first_owner signals) best in
      let starved = detect_starvation signals in
      or_else (fault_evidence signals group_start fault_events) (
        if not (starved == "") && not (upstream_of starved == "")
        then upstream_of starved
        else owner)
