-- ===== src/Monitor/Correlator/Sorting.antt =====
-- A sort of signals by time that keeps what `IsSort` asks of `sort.Slice`.
use mathlib.Core.List.{Permᴰ}
use monitower.Prelude.{
  ◌≤◌, leb, if◌then◌else◌, List, [], ◌∷◌, refl, inl, inr, Bool-cases, All, arith,
}
use monitower.Monitor.Signal.{AnomalySignal}
use monitower.Monitor.Correlator.Groups.{Ordered, IsSort}

module _ {W : Type 0} where
  insert_by_ts : AnomalySignal W → List (AnomalySignal W) → List (AnomalySignal W)
  insert_by_ts s [] = s ∷ []
  insert_by_ts s (t ∷ signals) =
      if leb s.ts t.ts then s ∷ t ∷ signals else t ∷ insert_by_ts s signals

  unfoldable pub sort_by_ts : List (AnomalySignal W) → List (AnomalySignal W)
  unfolding insert_by_ts
  sort_by_ts [] = []
  sort_by_ts (s ∷ signals) = insert_by_ts s (sort_by_ts signals)

  insert_by_ts-perm :
      (s : AnomalySignal W) (signals : List (AnomalySignal W))
      → Permᴰ (insert_by_ts s signals) (s ∷ signals)
  unfolding insert_by_ts
  insert_by_ts-perm s [] = Permᴰ.cons refl Permᴰ.nil
  insert_by_ts-perm s (t ∷ signals) = elim (Bool-cases (leb s.ts t.ts)) [
    | inl e ↦ rw e (same (s ∷ t ∷ signals))
    | inr e ↦
        rw e (Permᴰ.trans (Permᴰ.cons refl (insert_by_ts-perm s signals)) (Permᴰ.swap refl refl))
  ]
    where
      same : (xs : List (AnomalySignal W)) → Permᴰ xs xs
      same [] = Permᴰ.nil
      same (x ∷ xs) = Permᴰ.cons refl (same xs)

  sort_by_ts-perm : (signals : List (AnomalySignal W)) → Permᴰ (sort_by_ts signals) signals
  unfolding sort_by_ts
  sort_by_ts-perm [] = Permᴰ.nil
  sort_by_ts-perm (s ∷ signals) =
      Permᴰ.trans (insert_by_ts-perm s (sort_by_ts signals))
        (Permᴰ.cons refl (sort_by_ts-perm signals))

  All-later :
      (a b : AnomalySignal W) (signals : List (AnomalySignal W))
      → a.ts ≤ b.ts
      → All (λ t. b.ts ≤ t.ts) signals
      → All (λ t. a.ts ≤ t.ts) signals
  All-later a b [] h all = tt
  All-later a b (t ∷ signals) h all = (omega arith, All-later a b signals h all.1)

  All-insert_by_ts :
      (a s : AnomalySignal W) (signals : List (AnomalySignal W))
      → a.ts ≤ s.ts
      → All (λ t. a.ts ≤ t.ts) signals
      → All (λ t. a.ts ≤ t.ts) (insert_by_ts s signals)
  unfolding insert_by_ts
  All-insert_by_ts a s [] h all = (h, tt)
  All-insert_by_ts a s (t ∷ signals) h all = elim (Bool-cases (leb s.ts t.ts)) [
    | inl e ↦ rw e (h, all)
    | inr e ↦ rw e (all.0, All-insert_by_ts a s signals h all.1)
  ]

  insert_by_ts-Ordered :
      (s : AnomalySignal W) (signals : List (AnomalySignal W))
      → Ordered signals
      → Ordered (insert_by_ts s signals)
  unfolding insert_by_ts
  insert_by_ts-Ordered s [] o = (tt, tt)
  insert_by_ts-Ordered s (t ∷ signals) o = elim (Bool-cases (leb s.ts t.ts)) [
    | inl e ↦ rw e ((ground arith, All-later s t signals (ground arith) o.0), o)
    | inr e ↦
        rw e (All-insert_by_ts t s signals (ground arith) o.0, insert_by_ts-Ordered s signals o.1)
  ]

  sort_by_ts-Ordered : (signals : List (AnomalySignal W)) → Ordered (sort_by_ts signals)
  unfolding sort_by_ts
  sort_by_ts-Ordered [] = tt
  sort_by_ts-Ordered (s ∷ signals) =
      insert_by_ts-Ordered s (sort_by_ts signals) (sort_by_ts-Ordered signals)

  pub sort_by_ts-IsSort : IsSort sort_by_ts
  sort_by_ts-IsSort = record { perm = sort_by_ts-perm; ordered = sort_by_ts-Ordered }
