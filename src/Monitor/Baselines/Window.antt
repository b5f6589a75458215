-- ===== src/Monitor/Baselines/Window.antt =====
-- What a baseline keeps of the samples that it is given.
use monitower.Prelude.{
  ℕ, zero, suc, ◌-◌, ◌≤◌, ltb, leb, if◌then◌else◌, List, [], ◌∷◌, ◌++◌, ◌≡◌, refl, ap, ◌∙◌, inl,
  inr, Bool-cases, All, All-append, length, arith,
}
use monitower.Float64.{Float64}
use monitower.Monitor.Baselines.{
  TimestampedValue, Baseline, drop_before, add_sample, stats, min_samples,
}

module _ {W : Type 0} where
  -- The samples are in order of time.
  abbrev pub InOrder : List (TimestampedValue W) → Type 0
  InOrder [] = Unit
  InOrder (v ∷ values) = All (λ w. v.ts ≤ w.ts) values × InOrder values

  abbrev pub since : ℕ → List (TimestampedValue W) → List (TimestampedValue W)
  since cutoff [] = []
  since cutoff (v ∷ values) =
      let rest = since cutoff values in if leb cutoff v.ts then v ∷ rest else rest

  abbrev pub sample : ℕ → W → TimestampedValue W
  sample ts value = record { ts = ts; value = value }

  since-All :
      (cutoff n : ℕ) (values : List (TimestampedValue W))
      → cutoff ≤ n
      → All (λ w. n ≤ w.ts) values
      → since cutoff values ≡ values
  since-All cutoff n [] h all = refl
  since-All cutoff n (v ∷ values) h all = ground (arith, since-All cutoff n values h all.1, all.0)

  drop_before-since :
      (cutoff : ℕ) (values : List (TimestampedValue W))
      → InOrder values
      → drop_before cutoff values ≡ since cutoff values
  unfolding drop_before
  drop_before-since cutoff [] o = refl
  drop_before-since cutoff (v ∷ values) o = elim (Bool-cases (ltb v.ts cutoff)) [
    | inl e ↦ ground (arith, drop_before-since cutoff values o.1)
    | inr e ↦ ground (arith, since-All cutoff v.ts values (ground arith) o.0)
  ]

  drop_before-InOrder :
      (cutoff : ℕ) (values : List (TimestampedValue W))
      → InOrder values
      → InOrder (drop_before cutoff values)
  unfolding drop_before
  drop_before-InOrder cutoff [] o = tt
  drop_before-InOrder cutoff (v ∷ values) o = elim (Bool-cases (ltb v.ts cutoff)) [
    | inl e ↦ rw e (drop_before-InOrder cutoff values o.1)
    | inr e ↦ rw e o
  ]

  append-InOrder :
      (v : TimestampedValue W) (values : List (TimestampedValue W))
      → InOrder values
      → All (λ w. w.ts ≤ v.ts) values
      → InOrder (values ++ v ∷ [])
  append-InOrder v [] o all = (tt, tt)
  append-InOrder v (w ∷ values) o all = (
    All-append (λ x. w.ts ≤ x.ts) values (v ∷ []) o.0 (all.0, tt),
    append-InOrder v values o.1 all.1,
  )

  -- While a baseline gets its samples in order of time, it holds exactly those of the window before
  -- the last one, and holds them in order.
  pub add_sample-InOrder :
      (ts : ℕ) (value : W) (b : Baseline W)
      → InOrder b.values
      → All (λ w. w.ts ≤ ts) b.values
      → ((add_sample ts value b).values ≡ since (ts - b.window) (b.values ++ sample ts value ∷ []))
        × InOrder (add_sample ts value b).values
  unfolding add_sample
  add_sample-InOrder ts value b o all =
      let appended = append-InOrder (sample ts value) b.values o all in
      (
        drop_before-since (ts - b.window) (b.values ++ sample ts value ∷ []) appended,
        drop_before-InOrder (ts - b.window) (b.values ++ sample ts value ∷ []) appended,
      )

  -- Out of order, a sample that is too old stays behind one that is not.
  pub add_sample_stale :
      (ts : ℕ) (value : W) (b : Baseline W) (v : TimestampedValue W)
      (values : List (TimestampedValue W))
      → b.values ≡ v ∷ values
      → ts - b.window ≤ v.ts
      → (add_sample ts value b).values ≡ v ∷ values ++ sample ts value ∷ []
  unfolding add_sample drop_before
  add_sample_stale ts value b v values e h = rw e (ground arith)

  -- A row that is read and added n times.
  abbrev pub add_again : ℕ → ℕ → W → Baseline W → Baseline W
  add_again zero ts value b = b
  add_again (suc n) ts value b = add_sample ts value (add_again n ts value b)

  abbrev copies : ℕ → TimestampedValue W → List (TimestampedValue W)
  copies zero v = []
  copies (suc n) v = v ∷ copies n v

  copies-append : (n : ℕ) (v : TimestampedValue W) → copies n v ++ v ∷ [] ≡ v ∷ copies n v
  copies-append zero v = refl
  copies-append (suc n) v = ap (◌∷◌ v) (copies-append n v)

  length-copies : (n : ℕ) (v : TimestampedValue W) → length (copies n v) ≡ n
  length-copies zero v = refl
  length-copies (suc n) v = ap suc (length-copies n v)

  drop_before-fresh :
      (cutoff : ℕ) (v : TimestampedValue W) (values : List (TimestampedValue W))
      → cutoff ≤ v.ts
      → drop_before cutoff (v ∷ values) ≡ v ∷ values
  unfolding drop_before
  drop_before-fresh cutoff v values h = ground arith

  abbrev empty : ℕ → Baseline W
  empty window = record { values = []; window = window }

  add_again-copies :
      (n ts window : ℕ) (value : W)
      → (add_again n ts value (empty window)).values ≡ copies n (sample ts value)
  unfolding add_sample
  add_again-copies zero ts window value = refl
  add_again-copies (suc n) ts window value =
      let b = add_again n ts value (empty window) in
      ap (λ values. drop_before (ts - b.window) (values ++ sample ts value ∷ []))
        (add_again-copies n ts window value)
      ∙ ap (drop_before (ts - b.window)) (copies-append n (sample ts value))
      ∙ drop_before-fresh (ts - b.window) (sample ts value) (copies n (sample ts value))
          (omega arith)

module _ {W : Type 0} ⦃f : Float64 W⦄ where
  stats-valid : (b : Baseline W) → (stats b).valid ≡ leb min_samples (length b.values)
  unfolding stats
  stats-valid b = ground arith

  -- One row that is added again by each of n polls counts as n samples: ten polls of it make the
  -- baseline valid.
  pub stats-add_again :
      (n ts window : ℕ) (value : W)
      → (stats (add_again n ts value (record { values = []; window = window }))).valid ≡ leb 10 n
  stats-add_again n ts window value =
      stats-valid (add_again n ts value (empty window))
      ∙ ap (λ values. leb 10 (length values)) (add_again-copies n ts window value)
      ∙ ap (leb 10) (length-copies n (sample ts value))
