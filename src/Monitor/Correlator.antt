-- ===== src/Monitor/Correlator.antt =====
-- The correlator of internal/monitor/correlator.go.
-- `sort` stands for the order in which `sort.Slice` leaves the signals, and is a parameter since that
-- sort is not stable. A subtraction of times stops at 0 here: it is only compared, and both sides
-- stay the same for times that are not negative.
pub mod Nominate
pub mod Build
pub mod Active
pub mod Origin
pub mod Represented
pub mod Groups
pub mod Root
pub mod Evidence
pub mod Blame
pub mod Affected
pub mod Events
pub mod Sorting
pub mod Tests
use Prim.Native.Nat.{Ordering}
use Prim.Native.String.{◌++◌ as concat, compare as compare_strings}
use text.Mathlib.Text.{find?}
use monitower.Prelude.{
  ℕ, zero, suc, ◌+◌, ◌-◌, Bool, true, false, not, ◌&&◌, ◌||◌, ltb, leb, ◌==◌, if◌then◌else◌, String,
  List, [], ◌∷◌, ◌++◌, Option, none, some, is_some, any, string_eq, nat_eq,
}
use monitower.Prelude.Dict.{lookup, insert}
use monitower.Float64.{Float64, of_int, lt, le, abs_float}
use monitower.Monitor.Signal.{
  AnomalySignal, topology_depth, downstream_of, queue_owner, upstream_of, service_for_signal,
  is_dlq_signal, signal_key,
}

pub record TimelineEvent : Type 0 where
  pub ts : ℕ
  pub message : String

pub record CorrelatedEvent (W : Type 0) : Type 0 where
  pub start_ts : ℕ
  pub root_service : String
  pub root_cause : String
  pub fault_type : String
  pub severity : String
  pub affected : List String
  pub signals : List (AnomalySignal W)
  pub timeline : List TimelineEvent

pub record FaultEvent : Type 0 where
  pub ts : ℕ
  pub fault_type : String
  pub action : String
  pub origin : String

pub record Correlator (W : Type 0) : Type 0 where
  pub active_signals : List (AnomalySignal W)
  pub signal_window : ℕ
  pub group_window : ℕ

unfoldable pub new_correlator : {W : Type 0} → Correlator W
new_correlator = record { active_signals = []; signal_window = 30000; group_window = 10000 }

module _ {W : Type 0} where
  -- The loop that keeps the signals since the cutoff.
  unfoldable pub prune : ℕ → List (AnomalySignal W) → List (AnomalySignal W)
  prune cutoff [] = []
  prune cutoff (s ∷ signals) =
      let rest = prune cutoff signals in if leb cutoff s.ts then s ∷ rest else rest

module _ {W : Type 0} ⦃f : Float64 W⦄ where
  -- One round of the second loop: replace the signal with the same key if the new one deviates as
  -- much or more, or append the new one if there is none.
  unfoldable pub merge_signal : AnomalySignal W → List (AnomalySignal W) → List (AnomalySignal W)
  merge_signal ns [] = ns ∷ []
  merge_signal ns (existing ∷ rest) =
      if signal_key existing == signal_key ns
      then (if le (abs_float existing.deviation) (abs_float ns.deviation) then ns else existing)
        ∷ rest
      else existing ∷ merge_signal ns rest

  unfoldable pub merge_signals :
      List (AnomalySignal W) → List (AnomalySignal W) → List (AnomalySignal W)
  unfolding merge_signal
  merge_signals [] active = active
  merge_signals (ns ∷ signals) active = merge_signals signals (merge_signal ns active)

  unfoldable pub add_signals : ℕ → List (AnomalySignal W) → Correlator W → Correlator W
  unfolding prune merge_signals
  add_signals now signals c =
      let cutoff = now - c.signal_window in
      record c { active_signals = merge_signals signals (prune cutoff c.active_signals) }

module _ {W : Type 0} where
  -- `signals[0].TS` of a group.
  abbrev pub first_ts : List (AnomalySignal W) → ℕ
  first_ts [] = 0
  first_ts (s ∷ signals) = s.ts

  unfoldable pub active_signals : Correlator W → List (AnomalySignal W)
  active_signals c = c.active_signals

  -- The loop over the sorted signals: the groups so far, the current one and its start.
  unfoldable pub group_loop :
      ℕ
      → List (List (AnomalySignal W))
      → List (AnomalySignal W)
      → ℕ
      → List (AnomalySignal W)
      → List (List (AnomalySignal W))
  group_loop window groups [] start [] = groups
  group_loop window groups (c ∷ current) start [] = groups ++ (c ∷ current) ∷ []
  group_loop window groups [] start (sig ∷ sorted) =
      group_loop window groups (sig ∷ []) sig.ts sorted
  group_loop window groups (c ∷ current) start (sig ∷ sorted) =
      let joined = group_loop window groups ((c ∷ current) ++ sig ∷ []) start sorted in
      let opened = group_loop window (groups ++ (c ∷ current) ∷ []) (sig ∷ []) sig.ts sorted in
      if leb (sig.ts - start) window then joined else opened
