-- ===== src/Prelude/Text.antt =====
-- What the code uses of Go's package strings: Split at a comma, Join with one, TrimSpace.
use Prim.Native.Char.{Char, code}
use Prim.Native.Nat.{ℕ}
use Prim.Native.String.{String, ◌++◌ as concat}
use mathlib.Core.Path.{◌≡◌, refl, ap, ◌∙◌}
use mathlib.Core.Bool.{Bool, true, false, ◌&&◌, ◌||◌}
use mathlib.Core.List.{List, [], ◌∷◌}
use text.Mathlib.TextLemmas.{nil-append, cons-append}
use monitower.Prelude.Tests.{◌==◌, if◌then◌else◌, leb, nat_eq, string_eq}
use monitower.Prelude.Lists.{All}

abbrev pub cons_first : Char → List String → List String
cons_first c [] = String.◌∷◌ c "" ∷ []
cons_first c (w ∷ words) = String.◌∷◌ c w ∷ words

-- `strings.Split(s, sep)` for a separator of one character
unfoldable pub split : ℕ → String → List String
split sep String.[] = "" ∷ []
split sep (String.◌∷◌ c s) =
    let rest = split sep s in if code c == sep then "" ∷ rest else cons_first c rest

-- `strings.Join(names, ",")`
unfoldable pub join_comma : List String → String
join_comma [] = ""
join_comma (w ∷ []) = w
join_comma (w ∷ v ∷ words) = concat w (concat "," (join_comma (v ∷ words)))

-- `unicode.IsSpace`
unfoldable pub is_space : ℕ → Bool
is_space c =
    (leb 9 c && leb c 13)
    || c == 32
    || c == 0x85
    || c == 0xa0
    || c == 0x1680
    || (leb 0x2000 c && leb c 0x200a)
    || c == 0x2028
    || c == 0x2029
    || c == 0x202f
    || c == 0x205f
    || c == 0x3000

unfoldable pub trim_left : String → String
unfolding is_space
trim_left String.[] = ""
trim_left (String.◌∷◌ c s) =
    let rest = trim_left s in if is_space (code c) then rest else String.◌∷◌ c s

unfoldable pub trim_right : String → String
unfolding is_space
trim_right String.[] = ""
trim_right (String.◌∷◌ c s) =
    let rest = trim_right s in if is_space (code c) && rest == "" then "" else String.◌∷◌ c rest

-- `strings.TrimSpace`
unfoldable pub trim_space : String → String
unfolding trim_left trim_right
trim_space s = trim_right (trim_left s)

abbrev comma : ℕ
comma = 44

abbrev pub has_char : ℕ → String → Bool
has_char sep String.[] = false
has_char sep (String.◌∷◌ c s) = code c == sep || has_char sep s

abbrev pub has_comma : String → Bool
has_comma = has_char comma

split-cons :
    (sep : ℕ) (c : Char) (s : String)
    → (code c == sep) ≡ false
    → split sep (String.◌∷◌ c s) ≡ cons_first c (split sep s)
unfolding split
split-cons sep c s h = rw h refl

neither : {a b : Bool} → (a || b) ≡ false → (a ≡ false) × (b ≡ false)
neither {a = false} h = (refl, h)
neither {a = true} h = cc

pub split_plain : (sep : ℕ) (w : String) → has_char sep w ≡ false → split sep w ≡ w ∷ []
unfolding split
split_plain sep String.[] h = refl
split_plain sep (String.◌∷◌ c w) h =
    let (here, later) = neither h in
    split-cons sep c w here ∙ ap (cons_first c) (split_plain sep w later)

comma_front : (s : String) → split comma (concat "," s) ≡ "" ∷ split comma s
unfolding split
comma_front s = ap (split comma) (cons-append "," "" s ∙ ap (String.◌∷◌ ",") (nil-append s))

split-concat :
    (w s : String) → has_comma w ≡ false → split comma (concat w (concat "," s)) ≡ w ∷ split comma s
split-concat String.[] s h = ap (split comma) (nil-append (concat "," s)) ∙ comma_front s
split-concat (String.◌∷◌ c w) s h =
    let (here, later) = neither h in
    ap (split comma) (cons-append c w (concat "," s))
    ∙ split-cons comma c (concat w (concat "," s)) here
    ∙ ap (cons_first c) (split-concat w s later)

-- Splitting at the comma is the inverse of joining with it, for words without a comma.
pub split-join_comma :
    (w : String) (words : List String)
    → All (λ w. has_comma w ≡ false) (w ∷ words)
    → split comma (join_comma (w ∷ words)) ≡ w ∷ words
unfolding join_comma
split-join_comma w [] h = split_plain comma w h.0
split-join_comma w (v ∷ words) h =
    split-concat w (join_comma (v ∷ words)) h.0 ∙ ap (λ ws. w ∷ ws) (split-join_comma v words h.1)

split_words : split comma "a,b c,,d" ≡ "a" ∷ "b c" ∷ "" ∷ "d" ∷ []
unfolding split
split_words = refl

trim_words : trim_space "  a b\t\n" ≡ "a b"
unfolding trim_space
trim_words = refl
