-- ===== src/Monitor/Api/Numbers.antt =====
-- The texts that the API reads as numbers.
use Prim.Native.Char.{Char, code}
use monitower.Prelude.{
  ℕ, ◌+◌, ◌-◌, ◌*◌, ◌^◌, Bool, true, false, ◌&&◌, ◌==◌, if◌then◌else◌, leb, ltb, String, Option,
  none, some, ◌≡◌, refl, ap, ◌∙◌, inl, inr, Bool-cases, arith, nat_eq,
}
use monitower.Prelude.Int.{ℤ, pos, sub_ℕ}
use monitower.Prelude.Decimal.{is_digit, scan_digits, positive, negative, magnitude, atoi}

abbrev pub all_digits : String → Bool
all_digits String.[] = true
all_digits (String.◌∷◌ c s) = is_digit (code c) && all_digits s

-- The weight of a digit in front of `s`, and the number that the digits of `s` stand for.
abbrev tens : String → ℕ
tens String.[] = 1
tens (String.◌∷◌ c s) = 10 * tens s

abbrev pub value : String → ℕ
value String.[] = 0
value (String.◌∷◌ c s) = (code c - 48) * tens s + value s

place : (n d t v : ℕ) → (n * 10 + d) * t + v ≡ n * (10 * t) + (d * t + v)
place n d t v = grind arith

scan_digits_lem :
    (s : String) (n : ℕ)
    → scan_digits s n ≡ (if all_digits s then some (n * tens s + value s) else none)
unfolding scan_digits
scan_digits_lem String.[] n = ap some (omega arith)
scan_digits_lem (String.◌∷◌ c s) n = elim (Bool-cases (is_digit (code c))) [
  | inl e ↦ rw e (
      scan_digits_lem s (n * 10 + (code c - 48))
      ∙ ap (λ m. if all_digits s then some m else none) (place n (code c - 48) (tens s) (value s)))
  | inr e ↦ rw e refl
]

magnitude_lem :
    (c : Char) (s : String)
    → magnitude (String.◌∷◌ c s)
      ≡ (if all_digits (String.◌∷◌ c s) then some (value (String.◌∷◌ c s)) else none)
magnitude_lem c s =
    scan_digits_lem (String.◌∷◌ c s) 0
    ∙ ap (λ m. if all_digits (String.◌∷◌ c s) then some m else none) (grind arith)

-- The integer that a text with a value stands for: none if it is no row of digits, or out of range.
abbrev pub up_to_max : String → Option ℤ
up_to_max w = if all_digits w && ltb (value w) (2 ^ 63) then some (pos (value w)) else none

abbrev pub down_to_min : String → Option ℤ
down_to_min w = if all_digits w && leb (value w) (2 ^ 63) then some (sub_ℕ 0 (value w)) else none

positive_lem :
    (b : Bool) (n : ℕ)
    → positive (if b then some n else none) ≡ (if b && ltb n (2 ^ 63) then some (pos n) else none)
positive_lem true n = refl
positive_lem false n = refl

negative_lem :
    (b : Bool) (n : ℕ)
    → negative (if b then some n else none)
      ≡ (if b && leb n (2 ^ 63) then some (sub_ℕ 0 n) else none)
negative_lem true n = refl
negative_lem false n = refl

-- What the API reads from the texts: behind a minus sign, behind a plus sign, and without a sign, where
-- the text starts with a digit. One digit or more, and no other character, is the number that the
-- digits stand for by their places, if it is in the range of a signed 64-bit integer. Any other text
-- that is not empty behind its sign is refused.
pub atoi_signs :
    (c d : Char) (s t : String)
    → is_digit (code d) ≡ true
    → (atoi (String.◌∷◌ "-" (String.◌∷◌ c s)) ≡ down_to_min (String.◌∷◌ c s))
      × (atoi (String.◌∷◌ "+" (String.◌∷◌ c s)) ≡ up_to_max (String.◌∷◌ c s))
      × (atoi (String.◌∷◌ d t) ≡ up_to_max (String.◌∷◌ d t))
unfolding atoi
atoi_signs c d s t h = (
  ap negative (magnitude_lem c s)
      ∙ negative_lem (all_digits (String.◌∷◌ c s)) (value (String.◌∷◌ c s)),
  ap positive (magnitude_lem c s)
      ∙ positive_lem (all_digits (String.◌∷◌ c s)) (value (String.◌∷◌ c s)),
  unsigned d t h
      ∙ ap positive (magnitude_lem d t)
      ∙ positive_lem (all_digits (String.◌∷◌ d t)) (value (String.◌∷◌ d t)),
)
  where
    no_sign : (k : ℕ) → is_digit k ≡ true → ((k == 45) ≡ false) × ((k == 43) ≡ false)
    no_sign k h = ground arith

    unsigned :
        (d : Char) (t : String)
        → is_digit (code d) ≡ true
        → atoi (String.◌∷◌ d t) ≡ positive (magnitude (String.◌∷◌ d t))
    unsigned d t h = let (minus, plus) = no_sign (code d) h in rw (minus, plus) refl
