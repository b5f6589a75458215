-- ===== src/Monitor/Correlator/Origin.antt =====
-- Where the active signals come from.
use monitower.Prelude.{
  ℕ, ◌+◌, ◌-◌, ◌≤◌, true, leb, ◌==◌, List, [], ◌∷◌, ◌≡◌, ap, ◌⊎◌, inl, inr, Memᴰ, Bool-cases, arith,
  string_eq,
}
use monitower.Float64.{Float64, le, abs_float}
use monitower.Monitor.Signal.{AnomalySignal, signal_key}
use monitower.Monitor.Correlator.{Correlator, prune, merge_signal, merge_signals, add_signals}

module _ {W : Type 0} ⦃f : Float64 W⦄ where
  mem-merge_signal :
      (s ns : AnomalySignal W) (active : List (AnomalySignal W))
      → Memᴰ s (merge_signal ns active)
      → (s ≡ ns) ⊎ Memᴰ s active
  unfolding merge_signal
  mem-merge_signal s ns [] (Memᴰ.head e) = inl e
  mem-merge_signal s ns [] (Memᴰ.tail m) = elim m [ ]
  mem-merge_signal s ns (x ∷ active) m = elim (Bool-cases (signal_key x == signal_key ns)) [
    | inl same ↦ elim (Bool-cases (le (abs_float x.deviation) (abs_float ns.deviation))) [
      | inl e ↦ replaced (rw (same, e) at m)
      | inr e ↦ inr (rw (same, e) at m)
    ]
    | inr other ↦ kept (mem-merge_signal s ns active) (rw other at m)
  ]
    where
      replaced : Memᴰ s (ns ∷ active) → (s ≡ ns) ⊎ Memᴰ s (x ∷ active)
      replaced (Memᴰ.head e) = inl e
      replaced (Memᴰ.tail h) = inr (Memᴰ.tail h)

      kept :
          (Memᴰ s (merge_signal ns active) → (s ≡ ns) ⊎ Memᴰ s active)
          → Memᴰ s (x ∷ merge_signal ns active)
          → (s ≡ ns) ⊎ Memᴰ s (x ∷ active)
      kept ih (Memᴰ.head e) = inr (Memᴰ.head e)
      kept ih (Memᴰ.tail h) = elim (ih h) [ inl e ↦ inl e | inr h' ↦ inr (Memᴰ.tail h') ]

  mem-merge_signals :
      (s : AnomalySignal W) (signals active : List (AnomalySignal W))
      → Memᴰ s (merge_signals signals active)
      → Memᴰ s signals ⊎ Memᴰ s active
  unfolding merge_signals
  mem-merge_signals s [] active m = inr m
  mem-merge_signals s (ns ∷ signals) active m =
      elim (mem-merge_signals s signals (merge_signal ns active) m) [
        | inl h ↦ inl (Memᴰ.tail h)
        | inr h ↦ elim (mem-merge_signal s ns active h) [
          | inl e ↦ inl (Memᴰ.head e)
          | inr h' ↦ inr h'
        ]
      ]

  mem-prune :
      (cutoff : ℕ) (s : AnomalySignal W) (signals : List (AnomalySignal W))
      → Memᴰ s (prune cutoff signals)
      → Memᴰ s signals × (cutoff ≤ s.ts)
  unfolding prune
  mem-prune cutoff s [] m = elim m [ ]
  mem-prune cutoff s (x ∷ signals) m = elim (Bool-cases (leb cutoff x.ts)) [
    | inl fresh ↦ kept fresh (mem-prune cutoff s signals) (rw fresh at m)
    | inr stale ↦ let (h, le) = mem-prune cutoff s signals (rw stale at m) in (Memᴰ.tail h, le)
  ]
    where
      kept :
          leb cutoff x.ts ≡ true
          → (Memᴰ s (prune cutoff signals) → Memᴰ s signals × (cutoff ≤ s.ts))
          → Memᴰ s (x ∷ prune cutoff signals)
          → Memᴰ s (x ∷ signals) × (cutoff ≤ s.ts)
      kept fresh ih (Memᴰ.head e) =
          (Memᴰ.head e, ground (arith, ap (λ (t : AnomalySignal W). t.ts) e))
      kept fresh ih (Memᴰ.tail h) = let (h', le) = ih h in (Memᴰ.tail h', le)

  -- Every active signal is one of the batch, or was active before and is no older than the window.
  pub add_signals_origin :
      (now : ℕ) (signals : List (AnomalySignal W)) (c : Correlator W) (s : AnomalySignal W)
      → Memᴰ s (add_signals now signals c).active_signals
      → Memᴰ s signals ⊎ (Memᴰ s c.active_signals × (now ≤ s.ts + c.signal_window))
  unfolding add_signals
  add_signals_origin now signals c s m =
      elim (mem-merge_signals s signals (prune (now - c.signal_window) c.active_signals) m) [
        | inl h ↦ inl h
        | inr h ↦
            let (h', le) = mem-prune (now - c.signal_window) s c.active_signals h in
            inr (h', omega arith)
      ]
