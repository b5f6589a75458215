-- ===== src/Monitor/Correlator/Active.antt =====
-- The set of active signals under `AddSignals`: one signal for each key.
use monitower.Prelude.{
  ℕ, ◌-◌, leb, ◌==◌, ==_iff, if◌then◌else◌, String, List, [], ◌∷◌, Option, none, some, ◌≡◌, refl,
  inl, inr, Bool-cases, arith, string_eq,
}
use monitower.Float64.{Float64, le, abs_float}
use monitower.Monitor.Signal.{AnomalySignal, signal_key}
use monitower.Monitor.Correlator.{Correlator, prune, merge_signal, merge_signals, add_signals}

module _ {W : Type 0} where
  -- The active signal of a key.
  abbrev pub find_key : String → List (AnomalySignal W) → Option (AnomalySignal W)
  find_key k [] = none
  find_key k (s ∷ signals) = if signal_key s == k then some s else find_key k signals

  abbrev pub DistinctKeys : List (AnomalySignal W) → Type 0
  DistinctKeys [] = Unit
  DistinctKeys (s ∷ signals) = (find_key (signal_key s) signals ≡ none) × DistinctKeys signals

  pub find_key-prune :
      (cutoff : ℕ) (k : String) (signals : List (AnomalySignal W))
      → find_key k signals ≡ none
      → find_key k (prune cutoff signals) ≡ none
  unfolding prune
  find_key-prune cutoff k [] h = refl
  find_key-prune cutoff k (s ∷ signals) h = ground (arith, find_key-prune cutoff k signals)

  prune-DistinctKeys :
      (cutoff : ℕ) (signals : List (AnomalySignal W))
      → DistinctKeys signals
      → DistinctKeys (prune cutoff signals)
  unfolding prune
  prune-DistinctKeys cutoff [] d = tt
  prune-DistinctKeys cutoff (s ∷ signals) d = elim (Bool-cases (leb cutoff s.ts)) [
    | inl fresh ↦
        rw fresh
          (find_key-prune cutoff (signal_key s) signals d.0, prune-DistinctKeys cutoff signals d.1)
    | inr stale ↦ rw stale (prune-DistinctKeys cutoff signals d.1)
  ]

module _ {W : Type 0} ⦃f : Float64 W⦄ where
  -- What is kept of an existing signal and a new one with its key.
  abbrev pub stronger : Option (AnomalySignal W) → AnomalySignal W → AnomalySignal W
  stronger none ns = ns
  stronger (some existing) ns =
      if le (abs_float existing.deviation) (abs_float ns.deviation) then ns else existing

  pub key-stronger :
      (k : String) (ns : AnomalySignal W) (existing : AnomalySignal W)
      → signal_key existing ≡ signal_key ns
      → signal_key (stronger (some existing) ns) ≡ signal_key ns
  key-stronger k ns existing h =
      elim (Bool-cases (le (abs_float existing.deviation) (abs_float ns.deviation))) [
        | inl e ↦ rw e
        | inr e ↦ rw e h
      ]

  pub find_key-merge_signal :
      (k : String) (ns : AnomalySignal W) (active : List (AnomalySignal W))
      → find_key k (merge_signal ns active)
        ≡ (if signal_key ns == k then some (stronger (find_key k active) ns) else find_key k active)
  unfolding merge_signal
  find_key-merge_signal k ns [] = refl
  find_key-merge_signal k ns (s ∷ active) = ground (
    arith,
    ==_iff (signal_key s) (signal_key ns),
    ==_iff (signal_key s) k,
    ==_iff (signal_key ns) k,
    find_key-merge_signal k ns active,
  )

  merge_signal-DistinctKeys :
      (ns : AnomalySignal W) (active : List (AnomalySignal W))
      → DistinctKeys active
      → DistinctKeys (merge_signal ns active)
  unfolding merge_signal
  merge_signal-DistinctKeys ns [] d = (refl, tt)
  merge_signal-DistinctKeys ns (s ∷ active) d = ground (
    arith,
    ==_iff (signal_key s) (signal_key ns),
    ==_iff (signal_key ns) (signal_key s),
    find_key-merge_signal (signal_key s) ns active,
    merge_signal-DistinctKeys ns active d.1,
  )

  merge_signals-DistinctKeys :
      (signals active : List (AnomalySignal W))
      → DistinctKeys active
      → DistinctKeys (merge_signals signals active)
  unfolding merge_signals
  merge_signals-DistinctKeys [] active d = d
  merge_signals-DistinctKeys (ns ∷ signals) active d =
      merge_signals-DistinctKeys signals (merge_signal ns active)
        (merge_signal-DistinctKeys ns active d)

  -- After any batch of signals no two active signals have one key (service, queue and metric), if
  -- that held before.
  pub add_signals-DistinctKeys :
      (now : ℕ) (signals : List (AnomalySignal W)) (c : Correlator W)
      → DistinctKeys c.active_signals
      → DistinctKeys (add_signals now signals c).active_signals
  unfolding add_signals
  add_signals-DistinctKeys now signals c d =
      merge_signals-DistinctKeys signals _
        (prune-DistinctKeys (now - c.signal_window) c.active_signals d)
