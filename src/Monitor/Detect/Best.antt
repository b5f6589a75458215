-- ===== src/Monitor/Detect/Best.antt =====
-- The map of the best signals: what it holds, and that no signal in it is weaker than one offered.
use monitower.Prelude.{
  false, ◌==◌, ==_iff, ==_self, if◌then◌else◌, String, List, [], ◌∷◌, map, Option, none, some,
  some-injective, ◌≡◌, refl, ap, inl, inr, Memᴰ, Bool-cases, Option-cases, All,
  eq_false_of_not_true, arith, string_eq,
}
use monitower.Prelude.Dict.{lookup, insert, lookup-insert}
use monitower.Float64.{Float64, IsOrdered, lt, abs_float}
use monitower.Monitor.Signal.{AnomalySignal}
use monitower.Monitor.Detect.{keep_best, is_stronger}

module _ {V : Type 0} (P : String × V → Type 0) where
  pub insert-All :
      (k : String) (v : V) (m : List (String × V)) → P (k, v) → All P m → All P (insert k v m)
  insert-All k v [] h all = (h, tt)
  insert-All k v ((j, w) ∷ m) h all = elim (Bool-cases (j == k)) [
    | inl e ↦ rw e (h, all.1)
    | inr e ↦ rw e (all.0, insert-All k v m h all.1)
  ]

module _ {V : Type 0} where
  pub mem-lookup :
      (k : String) (v : V) (m : List (String × V)) → lookup k m ≡ some v → Memᴰ (k, v) m
  mem-lookup k v [] h = cc
  mem-lookup k v ((j, w) ∷ m) h = elim (Bool-cases (j == k)) [
    | inl e ↦ Memᴰ.head (ground (arith, ==_iff j k, some-injective w v (rw e at h)))
    | inr e ↦ Memᴰ.tail (mem-lookup k v m (rw e at h))
  ]

  abbrev pub values_of : List (String × V) → List V
  values_of = map (λ (key, v). v)

  pub mem-values_of :
      (k : String) (v : V) (m : List (String × V)) → Memᴰ (k, v) m → Memᴰ v (values_of m)
  mem-values_of k v [] h = elim h [ ]
  mem-values_of k v (e ∷ m) (Memᴰ.head h) = Memᴰ.head (ap (λ e. e.1) h)
  mem-values_of k v (e ∷ m) (Memᴰ.tail h) = Memᴰ.tail (mem-values_of k v m h)

  pub values_of-mem :
      (v : V) (m : List (String × V)) → Memᴰ v (values_of m) → (k : String) × Memᴰ (k, v) m
  values_of-mem v [] h = elim h [ ]
  values_of-mem v ((k, w) ∷ m) (Memᴰ.head h) = (k, Memᴰ.head (ap (λ x. (k, x)) h))
  values_of-mem v ((k, w) ∷ m) (Memᴰ.tail h) =
      let (j, mem) = values_of-mem v m h in (j, Memᴰ.tail mem)

module _ {W : Type 0} ⦃f : Float64 W⦄ where
  -- The map has a signal under the key that is not weaker.
  abbrev pub Beats : String → AnomalySignal W → List (String × AnomalySignal W) → Type 0
  Beats key sig best =
      (e : AnomalySignal W) × (lookup key best ≡ some e)
      × (lt (abs_float e.deviation) (abs_float sig.deviation) ≡ false)

  pub keep_best-All :
      (P : String × AnomalySignal W → Type 0) (key : String) (sig : AnomalySignal W)
      (best : List (String × AnomalySignal W))
      → P (key, sig)
      → All P best
      → All P (keep_best key sig best)
  unfolding keep_best
  keep_best-All P key sig best h all = elim (Bool-cases (is_stronger sig (lookup key best))) [
    | inl e ↦ rw e (insert-All P key sig best h all)
    | inr e ↦ rw e all
  ]

  -- What the map holds under a signal's key once the signal is offered.
  abbrev better_of : AnomalySignal W → Option (AnomalySignal W) → AnomalySignal W
  better_of sig none = sig
  better_of sig (some e) = if lt (abs_float e.deviation) (abs_float sig.deviation) then sig else e

  lookup-keep_best :
      (k key : String) (sig : AnomalySignal W) (best : List (String × AnomalySignal W))
      → lookup k (keep_best key sig best)
        ≡ (if key == k then some (better_of sig (lookup key best)) else lookup k best)
  unfolding keep_best
  lookup-keep_best k key sig best = elim (Option-cases (lookup key best)) [
    | inl e ↦ rw e (lookup-insert key k sig best)
    | inr (x, e) ↦ rw e (
        ground (
          arith,
          e,
          lookup-insert key k sig best,
          ==_iff key k,
          λ (h : key ≡ k). ap (λ i. lookup i best) h,
        ))
  ]

  module _ (o : IsOrdered W) where
    not-lt-better_of :
        (sig : AnomalySignal W) (before : Option (AnomalySignal W))
        → lt (abs_float (better_of sig before).deviation) (abs_float sig.deviation) ≡ false
    not-lt-better_of sig none = o.lt_irrefl _
    not-lt-better_of sig (some e) =
        elim (Bool-cases (lt (abs_float e.deviation) (abs_float sig.deviation))) [
          | inl h ↦ rw h (o.lt_irrefl _)
          | inr h ↦ rw h h
        ]

    not-lt-better_of_mono :
        (x sig e : AnomalySignal W)
        → lt (abs_float e.deviation) (abs_float x.deviation) ≡ false
        → lt (abs_float (better_of sig (some e)).deviation) (abs_float x.deviation) ≡ false
    not-lt-better_of_mono x sig e h =
        elim (Bool-cases (lt (abs_float e.deviation) (abs_float sig.deviation))) [
          | inl l ↦ rw l (eq_false_of_not_true _ (λ m. cc (o.lt_trans _ _ _ l m, h)))
          | inr l ↦ rw l h
        ]

    pub keep_best-Beats_self :
        (key : String) (sig : AnomalySignal W) (best : List (String × AnomalySignal W))
        → Beats key sig (keep_best key sig best)
    keep_best-Beats_self key sig best = (
      better_of sig (lookup key best),
      rw (lookup-keep_best key key sig best, ==_self key) refl,
      not-lt-better_of sig (lookup key best),
    )

    pub keep_best-Beats :
        (key k : String) (sig x : AnomalySignal W) (best : List (String × AnomalySignal W))
        → Beats k x best
        → Beats k x (keep_best key sig best)
    keep_best-Beats key k sig x best (e, found, h) = elim (Bool-cases (key == k)) [
      | inl same ↦ (
        better_of sig (some e),
        ground (
          arith,
          lookup-keep_best k key sig best,
          ==_iff key k,
          found,
          λ (q : key ≡ k). ap (λ i. lookup i best) q,
        ),
        not-lt-better_of_mono x sig e h,
      )
      | inr other ↦ (e, rw (lookup-keep_best k key sig best, other, found) refl, h)
    ]
