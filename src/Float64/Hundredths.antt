-- ===== src/Float64/Hundredths.antt =====
-- An instance of the interface, for tests and to show that its laws can be met: whole hundredths,
-- rounded towards zero.
use native.Mathlib.Nat.{zero-div, div-le_of_le-mul}
use monitower.Prelude.{ℕ, zero, suc, ◌+◌, ◌*◌, ◌/◌, ◌^◌, ◌&&◌, leb, if◌then◌else◌, arith, refl, ◌≡◌}
use monitower.Prelude.Int.{ℤ, pos, pos_part, neg_part, sub_ℕ, neg, ◌+ℤ◌, ◌-ℤ◌, ◌*ℤ◌, ltb_ℤ, leb_ℤ}
use monitower.Float64.{Float64, IsOrdered, IsMeasured}

-- The quotient of an integer by a number.
abbrev pub scale_down : ℤ → ℕ → ℤ
scale_down a n = sub_ℕ (pos_part a / n) (neg_part a / n)

abbrev pub divide : ℤ → ℤ → ℤ
divide a b =
    let q = scale_down (a *ℤ pos 100) (pos_part b + neg_part b) in
    if ltb_ℤ b (pos 0) then neg q else q

-- The largest number below or at `n` whose square is at most `n`.
abbrev pub isqrt : ℕ → ℕ → ℕ
isqrt zero n = zero
isqrt (suc k) n = let rest = isqrt k n in if leb (suc k * suc k) n then suc k else rest

pub data Hundredths : Type 0 where
  hundredths : ℤ → Hundredths

abbrev pub units : Hundredths → ℤ
units (hundredths a) = a

instance abbrev pub hundredths_float : Float64 Hundredths
hundredths_float = record {
  of_int = λ n. hundredths (pos (100 * n));
  literal = λ digits decimals. hundredths (pos (100 * digits / 10 ^ decimals));
  add = λ a b. hundredths (units a +ℤ units b);
  sub = λ a b. hundredths (units a -ℤ units b);
  mul = λ a b. hundredths (scale_down (units a *ℤ units b) 100);
  div = λ a b. hundredths (divide (units a) (units b));
  neg = λ a. hundredths (neg (units a));
  sqrt = λ a.
      let n = 100 * pos_part (units a) in hundredths (pos (isqrt (pos_part (units a) + 100) n));
  trunc = λ a. pos_part (units a) / 100;
  lt = λ a b. ltb_ℤ (units a) (units b);
  le = λ a b. leb_ℤ (units a) (units b);
  eq = λ a b. leb_ℤ (units a) (units b) && leb_ℤ (units b) (units a);
}

pub Hundredths-IsOrdered : IsOrdered Hundredths
Hundredths-IsOrdered = ground arith

units-divide : (a b : ℕ) → divide (pos a) (pos b) ≡ pos (a * 100 / b)
units-divide a b = grind (arith, zero-div b)

pub Hundredths-IsMeasured : IsMeasured Hundredths
Hundredths-IsMeasured = record {
  count_number = λ n. ground arith;
  eq_of_number = λ x h. ground arith;
  le_of_not_lt = λ x y hx hy h. ground arith;
  ratio_nonneg = λ a b h. rw (units-divide (100 * a) (100 * b)) (ground arith);
  ratio_le_one = λ a b h k.
      rw (units-divide (100 * a) (100 * b))
        (ground (arith, div-le_of_le-mul (100 * b) {m = 100 * a * 100} {n = 100} (omega arith)));
  zero_le_one = refl;
  half_below = λ n h k. grind arith;
  most_below = λ n h k. grind arith;
  half_before_most = λ n k. grind arith;
}
