-- ===== src/Prelude/Decimal.antt =====
-- What the code uses of Go's package strconv: Atoi, and ParseInt in base 10 for 64 bits, which are the
-- same on a machine with 64-bit integers. The wrap-around of an int64.
use Prim.Native.Char.{code}
use Prim.Native.Nat.{ℕ, ◌+◌, ◌-◌, ◌*◌, ◌%◌, ◌^◌}
use Prim.Native.String.{String}
use mathlib.Core.Bool.{Bool, ◌&&◌}
use mathlib.Core.Option.{Option, none, some}
use monitower.Prelude.Tests.{◌==◌, if◌then◌else◌, leb, ltb, nat_eq}
use monitower.Prelude.Int.{ℤ, pos, pos_part, neg_part, sub_ℕ}

abbrev pub is_digit : ℕ → Bool
is_digit c = leb 48 c && leb c 57

-- The number that the digits spell behind `n`.
unfoldable pub scan_digits : String → ℕ → Option ℕ
scan_digits String.[] n = some n
scan_digits (String.◌∷◌ c s) n =
    let rest = scan_digits s (n * 10 + (code c - 48)) in if is_digit (code c) then rest else none

-- One digit or more.
abbrev pub magnitude : String → Option ℕ
magnitude String.[] = none
magnitude (String.◌∷◌ c s) = scan_digits (String.◌∷◌ c s) 0

-- In the range of an int64, or an error.
abbrev pub positive : Option ℕ → Option ℤ
positive none = none
positive (some n) = if ltb n (2 ^ 63) then some (pos n) else none

abbrev pub negative : Option ℕ → Option ℤ
negative none = none
negative (some n) = if leb n (2 ^ 63) then some (sub_ℕ 0 n) else none

unfoldable pub atoi : String → Option ℤ
unfolding scan_digits
atoi String.[] = none
atoi (String.◌∷◌ c s) =
    if code c == 45
    then negative (magnitude s)
    else if code c == 43
    then positive (magnitude s)
    else positive (magnitude (String.◌∷◌ c s))

-- The int64 with the same 64 bits.
abbrev pub signed : ℕ → ℤ
signed n = if ltb n (2 ^ 63) then pos n else sub_ℕ n (2 ^ 64)

unfoldable pub wrap_int64 : ℤ → ℤ
wrap_int64 z = signed ((pos_part z % 2 ^ 64 + (2 ^ 64 - neg_part z % 2 ^ 64)) % 2 ^ 64)
