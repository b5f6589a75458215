-- ===== src/Simulator/Metrics/Sorting.antt =====
-- The sorted copy of the latencies.
use monitower.Prelude.{
  ℕ, suc, Bool, true, if◌then◌else◌, List, [], ◌∷◌, length, ◌≡◌, refl, ap, ◌∙◌, inl, inr,
  Bool-cases, All, Memᴰ, arith,
}
use monitower.Float64.{Float64, IsOrdered, IsMeasured, IsNumber, lt, le}
use monitower.Simulator.Metrics.{less, insert_float, sort_floats}

abbrev pub count {ℓ} : {A : Type ℓ} → (A → Bool) → List A → ℕ
count p [] = 0
count p (x ∷ xs) = let n = count p xs in if p x then suc n else n

module _ {W : Type 0} ⦃f : Float64 W⦄ where
  abbrev pub AllNumbers : List W → Type 0
  AllNumbers xs = All (λ x. IsNumber x) xs

  abbrev pub LeAll : W → List W → Type 0
  LeAll x xs = All (λ y. le x y ≡ true) xs

  abbrev pub Sorted : List W → Type 0
  Sorted [] = Unit
  Sorted (x ∷ xs) = LeAll x xs × Sorted xs

  count-insert_float :
      (p : W → Bool) (x : W) (xs : List W) → count p (insert_float x xs) ≡ count p (x ∷ xs)
  unfolding insert_float
  count-insert_float p x [] = refl
  count-insert_float p x (y ∷ ys) = ground (arith, count-insert_float p x ys)

  pub count-sort_floats : (p : W → Bool) (xs : List W) → count p (sort_floats xs) ≡ count p xs
  unfolding sort_floats
  count-sort_floats p [] = refl
  count-sort_floats p (x ∷ xs) =
      count-insert_float p x (sort_floats xs)
      ∙ ap (λ n. if p x then suc n else n) (count-sort_floats p xs)

  length-insert_float : (x : W) (xs : List W) → length (insert_float x xs) ≡ suc (length xs)
  unfolding insert_float
  length-insert_float x [] = refl
  length-insert_float x (y ∷ ys) = ground (arith, length-insert_float x ys)

  pub length-sort_floats : (xs : List W) → length (sort_floats xs) ≡ length xs
  unfolding sort_floats
  length-sort_floats [] = refl
  length-sort_floats (x ∷ xs) =
      length-insert_float x (sort_floats xs) ∙ ap suc (length-sort_floats xs)

  insert_float-AllNumbers :
      (x : W) (xs : List W) → IsNumber x → AllNumbers xs → AllNumbers (insert_float x xs)
  unfolding insert_float
  insert_float-AllNumbers x [] h hs = (h, tt)
  insert_float-AllNumbers x (y ∷ ys) h hs = ground (arith, insert_float-AllNumbers x ys h hs.1)

  mem_past :
      (x y z : W) (ys zs : List W)
      → Memᴰ z (y ∷ zs)
      → (Memᴰ z zs → Memᴰ z (x ∷ ys))
      → Memᴰ z (x ∷ y ∷ ys)
  mem_past x y z ys zs (Memᴰ.head k) later = Memᴰ.tail (Memᴰ.head k)
  mem_past x y z ys zs (Memᴰ.tail k) later = shifted (later k)
    where
      shifted : Memᴰ z (x ∷ ys) → Memᴰ z (x ∷ y ∷ ys)
      shifted (Memᴰ.head k) = Memᴰ.head k
      shifted (Memᴰ.tail k) = Memᴰ.tail (Memᴰ.tail k)

  mem-insert_float : (z x : W) (ys : List W) → Memᴰ z (insert_float x ys) → Memᴰ z (x ∷ ys)
  unfolding insert_float
  mem-insert_float z x [] h = h
  mem-insert_float z x (y ∷ ys) h = elim (Bool-cases (less y x)) [
    | inl e ↦ mem_past x y z ys (insert_float x ys) (rw e at h) (mem-insert_float z x ys)
    | inr e ↦ rw e at h
  ]

  pub mem-sort_floats : (z : W) (xs : List W) → Memᴰ z (sort_floats xs) → Memᴰ z xs
  unfolding sort_floats
  mem-sort_floats z [] h = h
  mem-sort_floats z (x ∷ xs) h =
      under (mem-insert_float z x (sort_floats xs) h) (mem-sort_floats z xs)
    where
      under : Memᴰ z (x ∷ sort_floats xs) → (Memᴰ z (sort_floats xs) → Memᴰ z xs) → Memᴰ z (x ∷ xs)
      under (Memᴰ.head k) later = Memᴰ.head k
      under (Memᴰ.tail k) later = Memᴰ.tail (later k)

  module _ (o : IsOrdered W) (m : IsMeasured W) where
    less-number : (x y : W) → IsNumber x → IsNumber y → less x y ≡ lt x y
    less-number x y hx hy = ground (arith, m.eq_of_number x hx)

    LeAll-trans : (x y : W) (ys : List W) → le x y ≡ true → LeAll y ys → LeAll x ys
    LeAll-trans x y [] h hs = tt
    LeAll-trans x y (z ∷ ys) h hs = (o.le_trans x y z h hs.0, LeAll-trans x y ys h hs.1)

    LeAll-insert_float :
        (z x : W) (ys : List W) → le z x ≡ true → LeAll z ys → LeAll z (insert_float x ys)
    unfolding insert_float
    LeAll-insert_float z x [] h hs = (h, tt)
    LeAll-insert_float z x (y ∷ ys) h hs = ground (arith, LeAll-insert_float z x ys h hs.1)

    insert_float-Sorted :
        (x : W) (ys : List W) → IsNumber x → AllNumbers ys → Sorted ys → Sorted (insert_float x ys)
    unfolding insert_float
    insert_float-Sorted x [] h hs s = (tt, tt)
    insert_float-Sorted x (y ∷ ys) h hs s = elim (Bool-cases (lt y x)) [
      | inl e ↦
          rw (less-number y x hs.0 h ∙ e)
            (LeAll-insert_float y x ys (o.le_of_lt y x e) s.0, insert_float-Sorted x ys h hs.1 s.1)
      | inr e ↦
          let front = m.le_of_not_lt y x hs.0 h e in
          rw (less-number y x hs.0 h ∙ e) ((front, LeAll-trans x y ys front s.0), s)
    ]

    pub sort_floats-AllNumbers : (xs : List W) → AllNumbers xs → AllNumbers (sort_floats xs)
    unfolding sort_floats
    sort_floats-AllNumbers [] h = tt
    sort_floats-AllNumbers (x ∷ xs) h =
        insert_float-AllNumbers x (sort_floats xs) h.0 (sort_floats-AllNumbers xs h.1)

    pub sort_floats-Sorted : (xs : List W) → AllNumbers xs → Sorted (sort_floats xs)
    unfolding sort_floats
    sort_floats-Sorted [] h = tt
    sort_floats-Sorted (x ∷ xs) h =
        insert_float-Sorted x (sort_floats xs) h.0 (sort_floats-AllNumbers xs h.1)
          (sort_floats-Sorted xs h.1)
