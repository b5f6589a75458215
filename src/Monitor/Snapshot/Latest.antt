-- ===== src/Monitor/Snapshot/Latest.antt =====
-- The loop that keeps the latest row of each service, against a search for one service.
use monitower.Prelude.{
  both_true, ℕ, ◌≤◌, Bool, true, false, ◌&&◌, ◌==◌, ltb, if◌then◌else◌, String, List, [], ◌∷◌,
  Option, none, some, some-injective, Memᴰ, ◌≡◌, refl, sym, ap, subst, ◌∙◌, ◌⊎◌, inl, inr,
  Bool-cases, All, ==_iff, arith, string_eq,
}
use monitower.Prelude.Dict.{lookup, insert, lookup-insert}
use monitower.Monitor.Detect.{ServiceRow}
use monitower.Monitor.Snapshot.{latest_service, is_newer}

passed : {b : Bool} → (b && true) ≡ false → b ≡ false
passed {b = true} h = h
passed {b = false} h = refl

some_ne_none {ℓ} : {A : Type ℓ} {a : A} → ¬ (some a ≡ none)
some_ne_none h = cc

not_ltb : {m n : ℕ} → ltb m n ≡ false → n ≤ m
not_ltb h = ground arith

ltb-true : (m n : ℕ) → ltb m n ≡ true → m ≤ n
ltb-true m n h = ground arith

module _ {W : Type 0} where
  -- The latest of the service's rows, the first of equal ones, and `best` if none is later than it.
  abbrev pub latest_of :
      String → List (ServiceRow W) → Option (ServiceRow W) → Option (ServiceRow W)
  latest_of svc [] best = best
  latest_of svc (r ∷ rows) best =
      latest_of svc rows (if r.service == svc && is_newer r.ts best then some r else best)

  lookup-latest_step :
      (key svc : String) (r : ServiceRow W) (m : List (String × ServiceRow W))
      → lookup svc (if is_newer r.ts (lookup key m) then insert key r m else m)
        ≡ (if key == svc && is_newer r.ts (lookup svc m) then some r else lookup svc m)
  lookup-latest_step key svc r m = ground (arith, ==_iff key svc, lookup-insert key svc r m)

  pub lookup-latest_service :
      (svc : String) (rows : List (ServiceRow W)) (m : List (String × ServiceRow W))
      → lookup svc (latest_service rows m) ≡ latest_of svc rows (lookup svc m)
  unfolding latest_service
  lookup-latest_service svc [] m = refl
  lookup-latest_service svc (r ∷ rows) m =
      lookup-latest_service svc rows
        (if is_newer r.ts (lookup r.service m) then insert r.service r m else m)
      ∙ ap (latest_of svc rows) (lookup-latest_step r.service svc r m)

  -- What a row is about a service: another one's, or not later than `r`.
  abbrev pub NotLater : String → ServiceRow W → ServiceRow W → Type 0
  NotLater svc r x = ((x.service == svc) ≡ false) ⊎ (x.ts ≤ r.ts)

  abbrev pub IsLatest : String → List (ServiceRow W) → Option (ServiceRow W) → Type 0
  IsLatest svc rows none = All (λ x. (x.service == svc) ≡ false) rows
  IsLatest svc rows (some r) = Memᴰ r rows × (r.service ≡ svc) × All (λ x. NotLater svc r x) rows

  -- The same with a best row from before: nothing is earlier than it.
  abbrev NotBefore : Option (ServiceRow W) → ServiceRow W → Type 0
  NotBefore none r = Unit
  NotBefore (some b) r = b.ts ≤ r.ts

  abbrev IsLatestFrom :
      Option (ServiceRow W) → String → List (ServiceRow W) → Option (ServiceRow W) → Type 0
  IsLatestFrom best svc rows none = (best ≡ none) × All (λ x. (x.service == svc) ≡ false) rows
  IsLatestFrom best svc rows (some r) =
      ((Memᴰ r rows × (r.service ≡ svc)) ⊎ (best ≡ some r))
      × NotBefore best r
      × All (λ x. NotLater svc r x) rows

  IsLatestFrom-self : (best : Option (ServiceRow W)) (svc : String) → IsLatestFrom best svc [] best
  IsLatestFrom-self none svc = (refl, tt)
  IsLatestFrom-self (some b) svc = (inr refl, omega arith, tt)

  -- A row that is passed over.
  pass_over :
      (best : Option (ServiceRow W)) (svc : String) (x : ServiceRow W) (rows : List (ServiceRow W))
      (o : Option (ServiceRow W))
      → (x.service == svc && is_newer x.ts best) ≡ false
      → IsLatestFrom best svc rows o
      → IsLatestFrom best svc (x ∷ rows) o
  pass_over none svc x rows none h (none_yet, others) = (none_yet, (passed h, others))
  pass_over (some b) svc x rows none h (none_yet, others) = absurd (some_ne_none none_yet)
  pass_over best svc x rows (some r) h (from, before, later) =
      (past from, before, (not_later best h before, later))
    where
      past :
          (Memᴰ r rows × (r.service ≡ svc)) ⊎ (best ≡ some r)
          → (Memᴰ r (x ∷ rows) × (r.service ≡ svc)) ⊎ (best ≡ some r)
      past (inl (m, e)) = inl (Memᴰ.tail m, e)
      past (inr e) = inr e

      not_later :
          (best : Option (ServiceRow W))
          → (x.service == svc && is_newer x.ts best) ≡ false
          → NotBefore best r
          → NotLater svc r x
      not_later none h before = inl (passed h)
      not_later (some b) h before = elim (Bool-cases (x.service == svc)) [
        | inl e ↦ inr (omega (arith, before, not_ltb (rw e at h)))
        | inr e ↦ inl e
      ]

  -- A row that becomes the best one.
  take_over :
      (best : Option (ServiceRow W)) (svc : String) (x : ServiceRow W) (rows : List (ServiceRow W))
      (o : Option (ServiceRow W))
      → (x.service == svc && is_newer x.ts best) ≡ true
      → IsLatestFrom (some x) svc rows o
      → IsLatestFrom best svc (x ∷ rows) o
  take_over best svc x rows none h (none_yet, others) = cc
  take_over best svc x rows (some r) h (from, before, later) =
      (inl (taken from), older best h, (inr before, later))
    where
      taken :
          (Memᴰ r rows × (r.service ≡ svc)) ⊎ (some x ≡ some r)
          → Memᴰ r (x ∷ rows) × (r.service ≡ svc)
      taken (inl (m, e)) = (Memᴰ.tail m, e)
      taken (inr e) =
          let same = some-injective x r e in
          (
            Memᴰ.head (sym same),
            ap (λ y. y.service) (sym same) ∙ (==_iff x.service svc).0 (both_true h).0,
          )

      older :
          (best : Option (ServiceRow W))
          → (x.service == svc && is_newer x.ts best) ≡ true
          → NotBefore best r
      older none h = tt
      older (some b) h = omega (arith, before, ltb-true b.ts x.ts (both_true h).1)

  latest_of-IsLatestFrom :
      (svc : String) (rows : List (ServiceRow W)) (best : Option (ServiceRow W))
      → IsLatestFrom best svc rows (latest_of svc rows best)
  latest_of-IsLatestFrom svc [] best = IsLatestFrom-self best svc
  latest_of-IsLatestFrom svc (x ∷ rows) best =
      elim (Bool-cases (x.service == svc && is_newer x.ts best)) [
        | inl e ↦ rw e (
            take_over best svc x rows (latest_of svc rows (some x)) e
              (latest_of-IsLatestFrom svc rows (some x)))
        | inr e ↦ rw e (
            pass_over best svc x rows (latest_of svc rows best) e
              (latest_of-IsLatestFrom svc rows best))
      ]

  pub latest_service-IsLatest :
      (svc : String) (rows : List (ServiceRow W))
      → IsLatest svc rows (lookup svc (latest_service rows []))
  latest_service-IsLatest svc rows =
      subst (IsLatest svc rows) (sym (lookup-latest_service svc rows []))
        (from_nothing (latest_of svc rows none) (latest_of-IsLatestFrom svc rows none))
    where
      from_nothing :
          (o : Option (ServiceRow W)) → IsLatestFrom none svc rows o → IsLatest svc rows o
      from_nothing none (e, others) = others
      from_nothing (some r) (inl (m, e), before, later) = (m, e, later)
      from_nothing (some r) (inr h, before, later) = absurd (some_ne_none (sym h))
