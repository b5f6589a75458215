-- ===== src/Simulator/Metrics/Ranks.antt =====
-- The percentiles as ranks: how many latencies lie below them.
use monitower.Prelude.{
  ℕ, zero, suc, ◌≤◌, ◌<◌, ◌^◌, true, false, List, [], ◌∷◌, some, length, ◌≡◌, refl, sym, subst, ◌∙◌,
  some-injective, Memᴰ, arith,
}
use monitower.Float64.{Float64, IsOrdered, IsMeasured, of_int, literal, mul, trunc, lt, le}
use monitower.Simulator.Metrics.{get_elem?, sort_floats, half_index, most_index, percentiles, pick}
use monitower.Simulator.Metrics.Sorting.{
  count, AllNumbers, LeAll, Sorted, count-sort_floats, length-sort_floats, mem-sort_floats,
  sort_floats-AllNumbers, sort_floats-Sorted,
}

module _ {W : Type 0} ⦃f : Float64 W⦄ where
  -- The element that stands at place `k` of the sorted list: at most `k` are less than it, and more
  -- than `k` are no greater.
  pub record IsRanked (k : ℕ) (p : W) (xs : List W) : Type 0 where
    pub few_below : count (λ x. lt x p) xs ≤ k
    pub many_up_to : k < count (λ x. le x p) xs

  module _ (o : IsOrdered W) (m : IsMeasured W) where
    le_not_lt : (x y : W) → le x y ≡ true → lt y x ≡ false
    le_not_lt x y h = ground (arith, o.not_le_of_lt y x)

    none_below : (x : W) (ys : List W) → LeAll x ys → count (λ y. lt y x) ys ≡ 0
    none_below x [] h = refl
    none_below x (y ∷ ys) h = ground (arith, le_not_lt x y h.0, none_below x ys h.1)

    le-get_elem :
        (x p : W) (ys : List W) (k : ℕ) → LeAll x ys → get_elem? ys k ≡ some p → le x p ≡ true
    le-get_elem x p [] k h e = cc
    le-get_elem x p (y ∷ ys) zero h e = ground (arith, h.0)
    le-get_elem x p (y ∷ ys) (suc k) h e = le-get_elem x p ys k h.1 e

    ranked :
        (p : W) (xs : List W) (k : ℕ)
        → AllNumbers xs
        → Sorted xs
        → get_elem? xs k ≡ some p
        → IsRanked k p xs
    ranked p [] k h s e = cc
    ranked p (x ∷ xs) zero h s e =
        subst (λ p. IsRanked 0 p (x ∷ xs)) (some-injective x p e)
          (record {
            few_below = ground (arith, o.lt_irrefl x, none_below x xs s.0);
            many_up_to = ground (arith, h.0);
          })
    ranked p (x ∷ xs) (suc k) h s e =
        let r = ranked p xs k h.1 s.1 e in
        record {
          few_below = ground (arith, r.few_below);
          many_up_to = ground (arith, r.many_up_to, le-get_elem x p xs k s.0 e);
        }

    get_elem_le :
        (p q : W) (xs : List W) (i j : ℕ)
        → AllNumbers xs
        → Sorted xs
        → i ≤ j
        → get_elem? xs i ≡ some p
        → get_elem? xs j ≡ some q
        → le p q ≡ true
    get_elem_le p q [] i j h s l ei ej = cc
    get_elem_le p q (x ∷ xs) zero zero h s l ei ej =
        subst (λ r. le p r ≡ true) (some-injective p q (sym ei ∙ ej))
          (subst (λ r. le r r ≡ true) (some-injective x p ei) h.0)
    get_elem_le p q (x ∷ xs) zero (suc j) h s l ei ej =
        subst (λ r. le r q ≡ true) (some-injective x p ei) (le-get_elem x q xs j s.0 ej)
    get_elem_le p q (x ∷ xs) (suc i) zero h s l ei ej = absurd (omega (arith, l))
    get_elem_le p q (x ∷ xs) (suc i) (suc j) h s l ei ej =
        get_elem_le p q xs i j h.1 s.1 (omega (arith, l)) ei ej

    mem_of_element : (p : W) (xs : List W) (k : ℕ) → get_elem? xs k ≡ some p → Memᴰ p xs
    mem_of_element p [] k e = cc
    mem_of_element p (x ∷ xs) zero e = Memᴰ.head (sym (some-injective x p e))
    mem_of_element p (x ∷ xs) (suc k) e = Memᴰ.tail (mem_of_element p xs k e)

    some_element : (xs : List W) (k : ℕ) → k < length xs → (p : W) × (get_elem? xs k ≡ some p)
    some_element [] k h = absurd (omega (arith, h))
    some_element (x ∷ xs) zero h = (x, refl)
    some_element (x ∷ xs) (suc k) h = some_element xs k (omega (arith, h))

    both_found :
        (sorted : List W) (n : ℕ)
        → length sorted ≡ n
        → (p q : W) → get_elem? sorted (trunc {W = W} (mul (of_int n) (literal 50 2))) ≡ some p
        → get_elem? sorted (trunc {W = W} (mul (of_int n) (literal 99 2))) ≡ some q
        → pick sorted ≡ some (p, q)
    both_found sorted n e p q ep eq = rw (e, ep, eq) refl

    -- What is picked from the sorted copy, at a place that the length of the list gives.
    picked :
        (xs : List W) (k : ℕ)
        → AllNumbers xs
        → k < length xs
        → (p : W) × (get_elem? (sort_floats xs) k ≡ some p) × Memᴰ p xs × IsRanked k p xs
    picked xs k h small =
        let (p, e) =
          some_element (sort_floats xs) k
            (subst (λ n. k < n) (sym (length-sort_floats xs)) small) in
        let r =
          ranked p (sort_floats xs) k (sort_floats-AllNumbers o m xs h)
            (sort_floats-Sorted o m xs h) e in
        (
          p,
          e,
          mem-sort_floats p xs (mem_of_element p (sort_floats xs) k e),
          record {
            few_below = subst (λ n. n ≤ k) (count-sort_floats (λ x. lt x p) xs) r.few_below;
            many_up_to = subst (λ n. k < n) (count-sort_floats (λ x. le x p) xs) r.many_up_to;
          },
        )

    -- Of one or more latencies, none of which is NaN, and fewer than 2 ^ 53 of them, the two
    -- percentiles exist: no index is out of range. Each is one of the latencies and has the rank that
    -- its index says, and the first is not above the second.
    pub percentiles-IsRanked :
        (x : W) (xs : List W)
        → AllNumbers (x ∷ xs)
        → length (x ∷ xs) < 2 ^ 53
        → (p50 p99 : W) × (percentiles (x ∷ xs) ≡ some (p50, p99))
          × Memᴰ p50 (x ∷ xs)
          × Memᴰ p99 (x ∷ xs)
          × IsRanked (half_index (x ∷ xs)) p50 (x ∷ xs)
          × IsRanked (most_index (x ∷ xs)) p99 (x ∷ xs)
          × (le p50 p99 ≡ true)
    unfolding percentiles
    percentiles-IsRanked x xs h small =
        let n = length (x ∷ xs) in
        let sorted = sort_floats (x ∷ xs) in
        let (p50, e50, m50, r50) =
          picked (x ∷ xs) (half_index (x ∷ xs)) h (m.half_below n (omega arith) small) in
        let (p99, e99, m99, r99) =
          picked (x ∷ xs) (most_index (x ∷ xs)) h (m.most_below n (omega arith) small) in
        (
          p50,
          p99,
          both_found sorted n (length-sort_floats (x ∷ xs)) p50 p99 e50 e99,
          m50,
          m99,
          r50,
          r99,
          get_elem_le p50 p99 sorted (half_index (x ∷ xs)) (most_index (x ∷ xs))
              (sort_floats-AllNumbers o m (x ∷ xs) h) (sort_floats-Sorted o m (x ∷ xs) h)
              (m.half_before_most n small) e50 e99,
        )
