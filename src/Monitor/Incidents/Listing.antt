-- ===== src/Monitor/Incidents/Listing.antt =====
-- The ids of the listed incidents.
use mathlib.Core.List.{Permᴰ}
use monitower.Prelude.{
  ℕ, false, ◌==◌, List, [], ◌∷◌, none, some, ◌≡◌, refl, sym, subst, inl, inr, Bool-cases, arith,
  string_eq, nat_eq,
}
use monitower.Monitor.Incidents.{Incident, find_id, active_rows}
use monitower.Monitor.Incidents.Rows.{DistinctIds}

-- No incident of the list has the id.
abbrev Absent : ℕ → List Incident → Type 0
Absent id rows = find_id id rows ≡ none

active_rows-Absent : (id : ℕ) (rows : List Incident) → Absent id rows → Absent id (active_rows rows)
unfolding find_id active_rows
active_rows-Absent id [] h = refl
active_rows-Absent id (inc ∷ rows) h = ground (arith, active_rows-Absent id rows)

pub active_rows-DistinctIds :
    (rows : List Incident) → DistinctIds rows → DistinctIds (active_rows rows)
unfolding active_rows
active_rows-DistinctIds [] d = tt
active_rows-DistinctIds (inc ∷ rows) d = elim (Bool-cases (inc.status == "active")) [
  | inl e ↦ rw e (active_rows-Absent inc.id rows d.0, active_rows-DistinctIds rows d.1)
  | inr e ↦ rw e (active_rows-DistinctIds rows d.1)
]

uncons-Absent :
    (id : ℕ) (x : Incident) (xs : List Incident)
    → Absent id (x ∷ xs)
    → ((x.id == id) ≡ false) × Absent id xs
unfolding find_id
uncons-Absent id x xs h = elim (Bool-cases (x.id == id)) [
  | inl e ↦ absurd (some_ne_none (rw e at h))
  | inr e ↦ (e, rw e at h)
]
  where
    some_ne_none : ¬ (some x ≡ none)
    some_ne_none h = cc

cons-Absent :
    (id : ℕ) (x : Incident) (xs : List Incident)
    → (x.id == id) ≡ false
    → Absent id xs
    → Absent id (x ∷ xs)
unfolding find_id
cons-Absent id x xs e h = rw e h

Absent-perm : {xs ys : List Incident} (id : ℕ) → Permᴰ xs ys → Absent id ys → Absent id xs
Absent-perm id Permᴰ.nil h = h
Absent-perm id (Permᴰ.cons {a = a} {b = b} {l₁ = l₁} {l₂ = l₂} e p) h =
    let (here, later) = uncons-Absent id b l₂ h in
    cons-Absent id a l₁ (subst (λ x. (x.id == id) ≡ false) (sym e) here) (Absent-perm id p later)
Absent-perm id (Permᴰ.swap {a = a} {b = b} {a' = a'} {b' = b'} {l = l} e k) h =
    let (first, rest) = uncons-Absent id a' (b' ∷ l) h in
    let (second, later) = uncons-Absent id b' l rest in
    cons-Absent id a (b ∷ l) (subst (λ x. (x.id == id) ≡ false) (sym e) second)
      (cons-Absent id b l (subst (λ x. (x.id == id) ≡ false) (sym k) first) later)
Absent-perm id (Permᴰ.trans p q) h = Absent-perm id p (Absent-perm id q h)

other_way : (m n : ℕ) → (m == n) ≡ false → (n == m) ≡ false
other_way m n h = ground arith

swapped-DistinctIds :
    (x y : Incident) (l : List Incident) → DistinctIds (y ∷ x ∷ l) → DistinctIds (x ∷ y ∷ l)
swapped-DistinctIds x y l (first, (second, rest)) =
    let (other, later) = uncons-Absent y.id x l first in
    (cons-Absent x.id y l (other_way x.id y.id other) second, (later, rest))

pub perm-DistinctIds : {xs ys : List Incident} → Permᴰ xs ys → DistinctIds ys → DistinctIds xs
perm-DistinctIds Permᴰ.nil d = d
perm-DistinctIds (Permᴰ.cons {a = a} {b = b} {l₁ = l₁} {l₂ = l₂} e p) d =
    (Absent-perm a.id p (subst (λ x. Absent x.id l₂) (sym e) d.0), perm-DistinctIds p d.1)
perm-DistinctIds (Permᴰ.swap {a = a} {b = b} {a' = a'} {b' = b'} {l = l} e k) d =
    swapped-DistinctIds a b l (
      subst (λ y. DistinctIds (y ∷ a ∷ l)) (sym k)
        (subst (λ x. DistinctIds (a' ∷ x ∷ l)) (sym e) d))
perm-DistinctIds (Permᴰ.trans p q) d = perm-DistinctIds p (perm-DistinctIds q d)
