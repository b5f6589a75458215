-- ===== src/Monitor/Correlator/Represented.antt =====
-- No active signal is weaker than what was reported.
use monitower.Prelude.{
  ℕ, ◌-◌, false, ◌==◌, ==_self, List, [], ◌∷◌, Option, none, some, ◌≡◌, inl, inr, Memᴰ, Bool-cases,
  eq_false_of_not_true, string_eq,
}
use monitower.Float64.{Float64, IsOrdered, lt, le, abs_float}
use monitower.Monitor.Signal.{AnomalySignal, signal_key}
use monitower.Monitor.Correlator.{Correlator, prune, merge_signal, merge_signals, add_signals}
use monitower.Monitor.Correlator.Active.{find_key, stronger, find_key-merge_signal}

module _ {W : Type 0} ⦃f : Float64 W⦄ (o : IsOrdered W) where
  -- The active signal with the key of `x` does not deviate less than `x`.
  abbrev pub Represented : AnomalySignal W → List (AnomalySignal W) → Type 0
  Represented x active =
      (s : AnomalySignal W) × (find_key (signal_key x) active ≡ some s)
      × (lt (abs_float s.deviation) (abs_float x.deviation) ≡ false)

  not-lt-stronger :
      (ns : AnomalySignal W) (before : Option (AnomalySignal W))
      → lt (abs_float (stronger before ns).deviation) (abs_float ns.deviation) ≡ false
  not-lt-stronger ns none = o.lt_irrefl _
  not-lt-stronger ns (some s) =
      elim (Bool-cases (le (abs_float s.deviation) (abs_float ns.deviation))) [
        | inl e ↦ rw e (o.lt_irrefl _)
        | inr e ↦ rw e (eq_false_of_not_true _ (λ l. cc (o.le_of_lt _ _ l, e)))
      ]

  not-lt-stronger_mono :
      (x ns s : AnomalySignal W)
      → lt (abs_float s.deviation) (abs_float x.deviation) ≡ false
      → lt (abs_float (stronger (some s) ns).deviation) (abs_float x.deviation) ≡ false
  not-lt-stronger_mono x ns s h =
      elim (Bool-cases (le (abs_float s.deviation) (abs_float ns.deviation))) [
        | inl e ↦ rw e (eq_false_of_not_true _ (λ l. cc (o.lt_of_le_of_lt _ _ _ e l, h)))
        | inr e ↦ rw e h
      ]

  merge_signal-Represented_self :
      (ns : AnomalySignal W) (active : List (AnomalySignal W))
      → Represented ns (merge_signal ns active)
  merge_signal-Represented_self ns active = (
    stronger (find_key (signal_key ns) active) ns,
    rw (find_key-merge_signal (signal_key ns) ns active, ==_self (signal_key ns)),
    not-lt-stronger ns (find_key (signal_key ns) active),
  )

  merge_signal-Represented :
      (x ns : AnomalySignal W) (active : List (AnomalySignal W))
      → Represented x active
      → Represented x (merge_signal ns active)
  merge_signal-Represented x ns active (s, found, h) =
      elim (Bool-cases (signal_key ns == signal_key x)) [
        | inl same ↦ (
          stronger (some s) ns,
          rw (find_key-merge_signal (signal_key x) ns active, same, found),
          not-lt-stronger_mono x ns s h,
        )
        | inr other ↦ (s, rw (find_key-merge_signal (signal_key x) ns active, other, found), h)
      ]

  merge_signals-Represented :
      (x : AnomalySignal W) (signals active : List (AnomalySignal W))
      → Represented x active
      → Represented x (merge_signals signals active)
  unfolding merge_signals
  merge_signals-Represented x [] active r = r
  merge_signals-Represented x (ns ∷ signals) active r =
      merge_signals-Represented x signals (merge_signal ns active)
        (merge_signal-Represented x ns active r)

  mem-Represented :
      (x : AnomalySignal W) (signals active : List (AnomalySignal W))
      → Memᴰ x signals
      → Represented x (merge_signals signals active)
  unfolding merge_signals
  mem-Represented x [] active m = elim m [ ]
  mem-Represented x (ns ∷ signals) active (Memᴰ.head e) =
      merge_signals-Represented x signals (merge_signal ns active)
        (rw e (merge_signal-Represented_self ns active))
  mem-Represented x (ns ∷ signals) active (Memᴰ.tail m) =
      mem-Represented x signals (merge_signal ns active) m

  -- Where comparisons follow IEEE 754, every signal of the batch is represented afterwards: the
  -- active set has a signal with its key, and that one's deviation is not smaller in size.
  pub add_signals-Represented :
      (now : ℕ) (signals : List (AnomalySignal W)) (c : Correlator W) (x : AnomalySignal W)
      → Memᴰ x signals
      → Represented x (add_signals now signals c).active_signals
  unfolding add_signals
  add_signals-Represented now signals c x m =
      mem-Represented x signals (prune (now - c.signal_window) c.active_signals) m
