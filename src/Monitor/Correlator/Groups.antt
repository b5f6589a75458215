-- ===== src/Monitor/Correlator/Groups.antt =====
-- How `Correlate` cuts the sorted signals into groups.
use mathlib.Core.List.{flatten, Permᴰ}
use monitower.Prelude.{
  ℕ, ◌+◌, ◌-◌, ◌≤◌, ◌<◌, leb, List, [], ◌∷◌, ◌++◌, ◌≡◌, refl, sym, ap, ◌∙◌, inl, inr, Bool-cases,
  All, All-append, All-left, append-nil, append_assoc, arith,
}
use monitower.Monitor.Signal.{AnomalySignal}
use monitower.Monitor.Correlator.{group_loop, first_ts}

module _ {W : Type 0} where
  abbrev pub Ordered : List (AnomalySignal W) → Type 0
  Ordered [] = Unit
  Ordered (s ∷ signals) = All (λ t. s.ts ≤ t.ts) signals × Ordered signals

  -- What `sort.Slice` promises: the same signals, by ascending time, equal times in any order.
  pub record IsSort (sort : List (AnomalySignal W) → List (AnomalySignal W)) : Type 0 where
    pub perm : (signals : List (AnomalySignal W)) → Permᴰ (sort signals) signals
    pub ordered : (signals : List (AnomalySignal W)) → Ordered (sort signals)

  -- A group is not empty, and spans no more than the window from its first signal.
  abbrev pub IsGroup : ℕ → List (AnomalySignal W) → Type 0
  IsGroup window [] = ⊥
  IsGroup window (c ∷ group) = All (λ s. s.ts ≤ c.ts + window) group

  -- The first of the groups starts later than the window after `t`.
  abbrev pub StartsAfter : ℕ → ℕ → List (List (AnomalySignal W)) → Type 0
  StartsAfter window t [] = Unit
  StartsAfter window t (g ∷ groups) = t + window < first_ts g

  abbrev pub Separated : ℕ → List (List (AnomalySignal W)) → Type 0
  Separated window [] = Unit
  Separated window (g ∷ groups) = StartsAfter window (first_ts g) groups × Separated window groups

  Ordered-split : (xs ys : List (AnomalySignal W)) → Ordered (xs ++ ys) → Ordered xs × Ordered ys
  Ordered-split [] ys h = (tt, h)
  Ordered-split (x ∷ xs) ys h =
      let (left, right) = Ordered-split xs ys h.1 in
      ((All-left (λ t. x.ts ≤ t.ts) xs ys h.0, left), right)

  pub Ordered-flatten :
      (groups : List (List (AnomalySignal W))) → Ordered (flatten groups) → All Ordered groups
  unfolding flatten
  Ordered-flatten [] h = tt
  Ordered-flatten (g ∷ groups) h =
      let (left, right) = Ordered-split g (flatten groups) h in (left, Ordered-flatten groups right)

module _ {W : Type 0} (window : ℕ) where
  group_loop_accumulates :
      (groups : List (List (AnomalySignal W))) (current : List (AnomalySignal W)) (start : ℕ)
      (sorted : List (AnomalySignal W))
      → group_loop window groups current start sorted
        ≡ groups ++ group_loop window [] current start sorted
  unfolding group_loop
  group_loop_accumulates groups [] start [] = sym (append-nil groups)
  group_loop_accumulates groups (c ∷ current) start [] = refl
  group_loop_accumulates groups [] start (sig ∷ sorted) =
      group_loop_accumulates groups (sig ∷ []) sig.ts sorted
  group_loop_accumulates groups (c ∷ current) start (sig ∷ sorted) =
      elim (Bool-cases (leb (sig.ts - start) window)) [
        | inl joins ↦
            rw joins (group_loop_accumulates groups ((c ∷ current) ++ sig ∷ []) start sorted)
        | inr opens ↦ rw opens (
            group_loop_accumulates (groups ++ (c ∷ current) ∷ []) (sig ∷ []) sig.ts sorted
            ∙ append_assoc groups ((c ∷ current) ∷ []) _
            ∙ ap (◌++◌ groups)
                (sym (group_loop_accumulates ((c ∷ current) ∷ []) (sig ∷ []) sig.ts sorted)))
      ]

  group_loop_opens :
      (current : List (AnomalySignal W)) (sig : AnomalySignal W) (sorted : List (AnomalySignal W))
      → group_loop window (current ∷ []) (sig ∷ []) sig.ts sorted
        ≡ current ∷ group_loop window [] (sig ∷ []) sig.ts sorted
  group_loop_opens current sig sorted =
      group_loop_accumulates (current ∷ []) (sig ∷ []) sig.ts sorted

  flatten-group_loop :
      (current : List (AnomalySignal W)) (start : ℕ) (sorted : List (AnomalySignal W))
      → flatten (group_loop window [] current start sorted) ≡ current ++ sorted
  unfolding group_loop flatten
  flatten-group_loop [] start [] = refl
  flatten-group_loop (c ∷ current) start [] = refl
  flatten-group_loop [] start (sig ∷ sorted) = flatten-group_loop (sig ∷ []) sig.ts sorted
  flatten-group_loop (c ∷ current) start (sig ∷ sorted) =
      elim (Bool-cases (leb (sig.ts - start) window)) [
        | inl joins ↦ rw joins (
            flatten-group_loop ((c ∷ current) ++ sig ∷ []) start sorted
            ∙ append_assoc (c ∷ current) (sig ∷ []) sorted)
        | inr opens ↦
            rw (opens, group_loop_opens (c ∷ current) sig sorted)
              (ap (◌++◌ (c ∷ current)) (flatten-group_loop (sig ∷ []) sig.ts sorted))
      ]

  group_loop-IsGroup :
      (c : AnomalySignal W) (current sorted : List (AnomalySignal W))
      → IsGroup window (c ∷ current)
      → All (IsGroup window) (group_loop window [] (c ∷ current) c.ts sorted)
  unfolding group_loop
  group_loop-IsGroup c current [] g = (g, tt)
  group_loop-IsGroup c current (sig ∷ sorted) g = elim (Bool-cases (leb (sig.ts - c.ts) window)) [
    | inl joins ↦ rw joins (
        group_loop-IsGroup c (current ++ sig ∷ []) sorted
          (All-append _ current (sig ∷ []) g (ground arith, tt)))
    | inr opens ↦
        rw (opens, group_loop_opens (c ∷ current) sig sorted)
          (g, group_loop-IsGroup sig [] sorted tt)
  ]

  group_loop-StartsAfter :
      (t : ℕ) (c : AnomalySignal W) (current : List (AnomalySignal W)) (start : ℕ)
      (sorted : List (AnomalySignal W))
      → t + window < c.ts
      → StartsAfter window t (group_loop window [] (c ∷ current) start sorted)
  unfolding group_loop
  group_loop-StartsAfter t c current start [] h = h
  group_loop-StartsAfter t c current start (sig ∷ sorted) h =
      elim (Bool-cases (leb (sig.ts - start) window)) [
        | inl joins ↦ rw joins (group_loop-StartsAfter t c (current ++ sig ∷ []) start sorted h)
        | inr opens ↦ rw (opens, group_loop_opens (c ∷ current) sig sorted) h
      ]

  group_loop-Separated :
      (c : AnomalySignal W) (current sorted : List (AnomalySignal W))
      → Separated window (group_loop window [] (c ∷ current) c.ts sorted)
  unfolding group_loop
  group_loop-Separated c current [] = (tt, tt)
  group_loop-Separated c current (sig ∷ sorted) = elim (Bool-cases (leb (sig.ts - c.ts) window)) [
    | inl joins ↦ rw joins (group_loop-Separated c (current ++ sig ∷ []) sorted)
    | inr opens ↦
        rw (opens, group_loop_opens (c ∷ current) sig sorted)
          (
            group_loop-StartsAfter c.ts sig [] sig.ts sorted (ground arith),
            group_loop-Separated sig [] sorted,
          )
  ]

-- Put one after another the groups are the given signals, in order; no group is empty or reaches
-- further than the window behind its first signal; and each group starts later than the window
-- after the start of the one before.
pub group_loop_lem :
    {W : Type 0} (window : ℕ) (sorted : List (AnomalySignal W))
    → let groups = group_loop window [] [] 0 sorted in
      (flatten groups ≡ sorted) × All (IsGroup window) groups × Separated window groups
unfolding group_loop
group_loop_lem window [] = (flatten-group_loop window [] 0 [], tt, tt)
group_loop_lem window (s ∷ sorted) = (
  flatten-group_loop window [] 0 (s ∷ sorted),
  group_loop-IsGroup window s [] sorted tt,
  group_loop-Separated window s [] sorted,
)
