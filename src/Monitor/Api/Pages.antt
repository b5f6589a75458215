-- ===== src/Monitor/Api/Pages.antt =====
-- Pages of the list of incidents.
use monitower.Prelude.{
  ℕ, zero, suc, ◌+◌, List, [], ◌∷◌, ◌++◌, ◌≡◌, refl, ap, sym, ◌∙◌, arith, string_eq,
}
use monitower.Prelude.Int.{pos}
use monitower.Monitor.Incidents.{Incident, Store, Result, ok, err, statement, take, drop, list_all}

take-nil : (n : ℕ) → take n [] ≡ []
take-nil zero = refl
take-nil (suc n) = refl

drop-nil : (n : ℕ) → drop n [] ≡ []
drop-nil zero = refl
drop-nil (suc n) = refl

drop-drop : (m n : ℕ) (rows : List Incident) → drop (m + n) rows ≡ drop m (drop n rows)
drop-drop m zero rows = ap (λ k. drop k rows) (omega arith)
drop-drop m (suc n) [] = drop-nil (m + suc n) ∙ sym (drop-nil m)
drop-drop m (suc n) (inc ∷ rows) =
    ap (λ k. drop k (inc ∷ rows)) {y = suc (m + n)} (omega arith) ∙ drop-drop m n rows

take-take :
    (n m : ℕ) (rows : List Incident) → take n rows ++ take m (drop n rows) ≡ take (n + m) rows
take-take zero m rows = ap (λ k. take k rows) (omega arith)
take-take (suc n) m [] = take-nil m ∙ sym (take-nil (suc n + m))
take-take (suc n) m (inc ∷ rows) =
    ap (λ l. inc ∷ l) (take-take n m rows)
    ∙ ap (λ k. take k (inc ∷ rows)) {x = suc (n + m)} (omega arith)

-- The incidents of an answer; an error has none.
abbrev pub rows_of : Result (List Incident) × Store → List Incident
rows_of (ok rows, s) = rows
rows_of (err e, s) = []

-- While the database refuses nothing and orders the rows the same way, a page of the list and the page
-- that starts where it ends make up the page of both: no incident is shown twice, none left out. The
-- order is one that depends on the rows only.
pub list_all-pages :
    (order : List Incident → List Incident) (n m k : ℕ) (s : Store)
    → s.refusals ≡ []
    → rows_of (list_all order (pos n) (pos k) s) ++ rows_of (list_all order (pos m) (pos (n + k)) s)
      ≡ rows_of (list_all order (pos (n + m)) (pos k) s)
unfolding list_all statement
list_all-pages order n m k s h = rw h (
    ap (λ l. take n (drop k (order s.incidents)) ++ take m l) (drop-drop n k (order s.incidents))
    ∙ take-take n m (drop k (order s.incidents)))
