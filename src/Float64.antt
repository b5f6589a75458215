-- ===== src/Float64.antt =====
-- What the code does with a Go `float64`: constants, arithmetic, comparisons and a square root.
-- The values are abstract. The laws asked for are those of IEEE 754, and NaN is not excluded: a
-- comparison with NaN is false, so `lt` is no total order and `le` is not its complement.
pub mod Hundredths
use monitower.Prelude.{ℕ, ◌^◌, ◌<◌, ◌≤◌, ◌≡◌, Bool, true, false, if◌then◌else◌}

pub record Float64 (W : Type 0) : Type 0 where
  -- `float64(n)` for a count, and a literal with its digits and the number of decimals
  pub of_int : ℕ → W
  pub literal : ℕ → ℕ → W
  pub add : W → W → W
  pub sub : W → W → W
  pub mul : W → W → W
  pub div : W → W → W
  pub neg : W → W
  pub sqrt : W → W
  -- `int(x)` of a value that is not negative
  pub trunc : W → ℕ
  pub lt : W → W → Bool
  pub le : W → W → Bool
  pub eq : W → W → Bool

module _ {W : Type 0} ⦃f : Float64 W⦄ where
  abbrev pub lt : W → W → Bool
  lt = f.lt

  abbrev pub le : W → W → Bool
  le = f.le

  abbrev pub of_int : ℕ → W
  of_int = f.of_int

  abbrev pub literal : ℕ → ℕ → W
  literal = f.literal

  abbrev pub add : W → W → W
  add = f.add

  abbrev pub sub : W → W → W
  sub = f.sub

  abbrev pub mul : W → W → W
  mul = f.mul

  abbrev pub div : W → W → W
  div = f.div

  abbrev pub sqrt : W → W
  sqrt = f.sqrt

  abbrev pub trunc : W → ℕ
  trunc = f.trunc

  abbrev pub eq : W → W → Bool
  eq = f.eq

  -- `absFloat` of internal/monitor/correlator.go
  unfoldable pub abs_float : W → W
  abs_float x = if f.lt x (f.of_int 0) then f.neg x else x

-- IEEE 754 comparisons: `<` and `<=` are transitive, also through one another, and `<` excludes
-- `<=` the other way round.
pub record IsOrdered (W : Type 0) ⦃f : Float64 W⦄ : Type 0 where
  pub lt_irrefl : (x : W) → f.lt x x ≡ false
  pub lt_trans : (x y z : W) → f.lt x y ≡ true → f.lt y z ≡ true → f.lt x z ≡ true
  pub le_trans : (x y z : W) → f.le x y ≡ true → f.le y z ≡ true → f.le x z ≡ true
  pub lt_of_lt_of_le : (x y z : W) → f.lt x y ≡ true → f.le y z ≡ true → f.lt x z ≡ true
  pub lt_of_le_of_lt : (x y z : W) → f.le x y ≡ true → f.lt y z ≡ true → f.lt x z ≡ true
  pub le_of_lt : (x y : W) → f.lt x y ≡ true → f.le x y ≡ true
  pub not_le_of_lt : (x y : W) → f.lt x y ≡ true → f.le y x ≡ false
  -- the literals that the code compares
  pub zero_lt_one : f.lt (f.of_int 0) (f.literal 10 1) ≡ true
  pub fifteen_lt_one : f.lt (f.literal 15 2) (f.literal 10 1) ≡ true
  pub zero_lt_fifteen : f.lt (f.of_int 0) (f.literal 15 2) ≡ true

-- A value that equals itself, which all but NaN do.
abbrev pub IsNumber : {W : Type 0} ⦃f : Float64 W⦄ → W → Type 0
IsNumber ⦃f⦄ x = f.le x x ≡ true

-- IEEE 754 on what the services measure. Counts are numbers, and exact below 2 ^ 53. The quotient of
-- a count by one that is not less lies between 0 and 1. The comparison of numbers is total. And the
-- two products that pick a percentile, cut to an integer, are places below the count they come from.
pub record IsMeasured (W : Type 0) ⦃f : Float64 W⦄ : Type 0 where
  pub count_number : (n : ℕ) → f.le (f.of_int n) (f.of_int n) ≡ true
  pub eq_of_number : (x : W) → f.le x x ≡ true → f.eq x x ≡ true
  pub le_of_not_lt :
      (x y : W) → f.le x x ≡ true → f.le y y ≡ true → f.lt x y ≡ false → f.le y x ≡ true
  pub ratio_nonneg : (a b : ℕ) → 0 < b → f.le (f.of_int 0) (f.div (f.of_int a) (f.of_int b)) ≡ true
  pub ratio_le_one :
      (a b : ℕ) → 0 < b → a ≤ b → f.le (f.div (f.of_int a) (f.of_int b)) (f.literal 10 1) ≡ true
  pub zero_le_one : f.le (f.of_int 0) (f.literal 10 1) ≡ true
  pub half_below : (n : ℕ) → 0 < n → n < 2 ^ 53 → f.trunc (f.mul (f.of_int n) (f.literal 50 2)) < n
  pub most_below : (n : ℕ) → 0 < n → n < 2 ^ 53 → f.trunc (f.mul (f.of_int n) (f.literal 99 2)) < n
  pub half_before_most :
      (n : ℕ)
      → n < 2 ^ 53
      → f.trunc (f.mul (f.of_int n) (f.literal 50 2))
        ≤ f.trunc (f.mul (f.of_int n) (f.literal 99 2))
