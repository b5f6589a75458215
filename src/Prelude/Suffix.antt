-- ===== src/Prelude/Suffix.antt =====
-- The part of a text behind the last separator: how a joined key gives back its last part.
use Prim.Native.Char.{Char, code}
use Prim.Native.Nat.{ℕ}
use Prim.Native.String.{String, ◌++◌ as concat}
use mathlib.Core.Path.{◌≡◌, refl, ap, ◌∙◌}
use mathlib.Core.Bool.{Bool, true, false, ◌||◌}
use text.Mathlib.TextLemmas.{nil-append, cons-append}
use monitower.Prelude.Tests.{◌==◌, if◌then◌else◌, nat_eq, ==_self}
use monitower.Prelude.Text.{has_char}

abbrev pub last_part : ℕ → String → String
last_part sep String.[] = ""
last_part sep (String.◌∷◌ c s) =
    let rest = last_part sep s in if has_char sep (String.◌∷◌ c s) then rest else String.◌∷◌ c s

or_true : (a b : Bool) → b ≡ true → (a || b) ≡ true
or_true true b h = refl
or_true false b h = h

pub has_char-concat :
    (sep : ℕ) (a s : String) → has_char sep s ≡ true → has_char sep (concat a s) ≡ true
has_char-concat sep String.[] s h = ap (has_char sep) (nil-append s) ∙ h
has_char-concat sep (String.◌∷◌ c a) s h =
    ap (has_char sep) (cons-append c a s)
    ∙ or_true (code c == sep) (has_char sep (concat a s)) (has_char-concat sep a s h)

last_part-plain : (sep : ℕ) (m : String) → has_char sep m ≡ false → last_part sep m ≡ m
last_part-plain sep String.[] h = refl
last_part-plain sep (String.◌∷◌ c m) h = rw h refl

-- What stands before a text with a separator in it does not matter.
pub last_part-concat :
    (sep : ℕ) (a s : String) → has_char sep s ≡ true → last_part sep (concat a s) ≡ last_part sep s
last_part-concat sep String.[] s h = ap (last_part sep) (nil-append s)
last_part-concat sep (String.◌∷◌ c a) s h =
    ap (last_part sep) (cons-append c a s)
    ∙ rw (or_true (code c == sep) (has_char sep (concat a s)) (has_char-concat sep a s h))
        (last_part-concat sep a s h)

abbrev one : Char → String
one c = String.◌∷◌ c ""

concat-one : (c : Char) (m : String) → concat (one c) m ≡ String.◌∷◌ c m
concat-one c m = cons-append c "" m ∙ ap (String.◌∷◌ c) (nil-append m)

pub has_char-separator : (c : Char) (m : String) → has_char (code c) (concat (one c) m) ≡ true
has_char-separator c m = ap (has_char (code c)) (concat-one c m) ∙ rw (==_self (code c)) refl

-- The last part behind a separator, if it has none itself.
pub last_part-separator :
    (c : Char) (a m : String)
    → has_char (code c) m ≡ false
    → last_part (code c) (concat a (concat (one c) m)) ≡ m
last_part-separator c a m h =
    last_part-concat (code c) a (concat (one c) m) (has_char-separator c m)
    ∙ ap (last_part (code c)) (concat-one c m)
    ∙ rw (==_self (code c)) (last_part-plain (code c) m h)
