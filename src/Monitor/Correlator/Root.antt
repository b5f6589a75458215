-- ===== src/Monitor/Correlator/Root.antt =====
-- The last loop of `nominateRoot`: the earliest of the most upstream signals.
use monitower.Prelude.{
  ◌≤◌, ◌<◌, true, false, ==_iff, String, List, [], ◌∷◌, ◌≡◌, refl, ◌∙◌, ◌≢◌, ◌⊎◌, inl, inr, Memᴰ,
  Bool-cases, arith, string_eq, nat_eq,
}
use monitower.Monitor.Signal.{AnomalySignal, topology_depth, service_for_signal}
use monitower.Monitor.Correlator.Nominate.{depth_of, is_better, best_root}

depth_of-le : (svc : String) → depth_of svc ≤ 999
unfolding depth_of topology_depth
depth_of-le svc = ground arith

module _ {W : Type 0} where
  -- `s` stands further upstream than `t`, or as far and is not later.
  abbrev pub Before : AnomalySignal W → AnomalySignal W → Type 0
  Before s t =
      (depth_of (service_for_signal s) < depth_of (service_for_signal t))
      ⊎ ((depth_of (service_for_signal s) ≡ depth_of (service_for_signal t)) × (s.ts ≤ t.ts))

  Before-trans : (a b c : AnomalySignal W) → Before a b → Before b c → Before a c
  Before-trans a b c p q = ground arith

  abbrev pub Named : List (AnomalySignal W) → Type 0
  Named signals = (s : AnomalySignal W) → Memᴰ s signals → service_for_signal s ≢ ""

  -- The root is the service of a signal that stands before all of the group.
  abbrev pub IsUpstreamMost : String → List (AnomalySignal W) → Type 0
  IsUpstreamMost root signals =
      (s : AnomalySignal W) × Memᴰ s signals
      × (root ≡ service_for_signal s)
      × ((t : AnomalySignal W) → Memᴰ t signals → Before s t)

  -- A minimum of `d` and the rest is one of `c`, `sig` and the rest, if `d` is one of these two and
  -- stands before both.
  widen :
      (root : String) (c sig d : AnomalySignal W) (signals : List (AnomalySignal W))
      → Memᴰ d (c ∷ sig ∷ [])
      → Before d c
      → Before d sig
      → IsUpstreamMost root (d ∷ signals)
      → IsUpstreamMost root (c ∷ sig ∷ signals)
  widen root c sig d signals m dc ds (s, s_in, e, least) = (s, inside s_in, e, before)
    where
      at : Memᴰ d (c ∷ sig ∷ []) → (s ≡ d) → Memᴰ s (c ∷ sig ∷ signals)
      at (Memᴰ.head h) k = Memᴰ.head (k ∙ h)
      at (Memᴰ.tail (Memᴰ.head h)) k = Memᴰ.tail (Memᴰ.head (k ∙ h))
      at (Memᴰ.tail (Memᴰ.tail h)) k = elim h [ ]

      inside : Memᴰ s (d ∷ signals) → Memᴰ s (c ∷ sig ∷ signals)
      inside (Memᴰ.head k) = at m k
      inside (Memᴰ.tail h) = Memᴰ.tail (Memᴰ.tail h)

      before : (t : AnomalySignal W) → Memᴰ t (c ∷ sig ∷ signals) → Before s t
      before t (Memᴰ.head k) = rw k (Before-trans s d c (least d (Memᴰ.head refl)) dc)
      before t (Memᴰ.tail (Memᴰ.head k)) = rw k (Before-trans s d sig (least d (Memᴰ.head refl)) ds)
      before t (Memᴰ.tail (Memᴰ.tail h)) = least t (Memᴰ.tail h)

  module _ (c sig : AnomalySignal W) where
    better_Before :
        service_for_signal c ≢ ""
        → is_better sig (service_for_signal c) (depth_of (service_for_signal c)) c.ts ≡ true
        → Before sig c
    unfolding is_better
    better_Before named h = ground (arith, ==_iff (service_for_signal c) "")

    worse_Before :
        is_better sig (service_for_signal c) (depth_of (service_for_signal c)) c.ts ≡ false
        → Before c sig
    unfolding is_better
    worse_Before h = ground arith

  best_root_from :
      (c : AnomalySignal W) (signals : List (AnomalySignal W))
      → Named (c ∷ signals)
      → IsUpstreamMost
          (best_root signals (service_for_signal c) (depth_of (service_for_signal c)) c.ts)
          (c ∷ signals)
  unfolding best_root
  best_root_from c [] named = (c, Memᴰ.head refl, refl, only)
    where
      only : (t : AnomalySignal W) → Memᴰ t (c ∷ []) → Before c t
      only t (Memᴰ.head e) = rw e (inr (refl, omega arith))
      only t (Memᴰ.tail m) = elim m [ ]
  best_root_from c (sig ∷ signals) named =
      elim (Bool-cases
        (is_better sig (service_for_signal c) (depth_of (service_for_signal c)) c.ts)) [
          | inl b ↦ rw b (
              widen _ c sig sig signals (Memᴰ.tail (Memᴰ.head refl))
                (better_Before c sig (named c (Memᴰ.head refl)) b) (inr (refl, omega arith))
                (best_root_from sig signals (λ s m. named s (Memᴰ.tail m))))
          | inr w ↦ rw w (
              widen _ c sig c signals (Memᴰ.head refl) (inr (refl, omega arith))
                (worse_Before c sig w) (best_root_from c signals (λ s m. named s (skip s m))))
        ]
    where
      skip : (s : AnomalySignal W) → Memᴰ s (c ∷ signals) → Memᴰ s (c ∷ sig ∷ signals)
      skip s (Memᴰ.head e) = Memᴰ.head e
      skip s (Memᴰ.tail m) = Memᴰ.tail (Memᴰ.tail m)

  first_better : (sig : AnomalySignal W) → is_better sig "" 999 0 ≡ true
  unfolding is_better
  first_better sig = ground (arith, depth_of-le (service_for_signal sig))

  pub best_root_lem :
      (c : AnomalySignal W) (signals : List (AnomalySignal W))
      → Named (c ∷ signals)
      → IsUpstreamMost (best_root (c ∷ signals) "" 999 0) (c ∷ signals)
  unfolding best_root
  best_root_lem c signals named = rw (first_better c) (best_root_from c signals named)
