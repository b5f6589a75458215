-- ===== src/Monitor/Snapshot/Statuses.antt =====
-- The statuses that the snapshot makes of the latest rows, one for each service.
use monitower.Prelude.{
  ℕ, suc, ◌≤◌, Bool, true, false, not, ◌&&◌, ◌||◌, ◌==◌, if◌then◌else◌, any, String, List, [], ◌∷◌,
  map, Option, none, some, ◌≡◌, refl, subst, ◌∙◌, inl, inr, Bool-cases, All, ==_iff, arith,
  string_eq,
}
use monitower.Prelude.Dict.{lookup, insert, lookup-insert, insert-Distinct, Distinct}
use monitower.Monitor.Signal.{AnomalySignal}
use monitower.Monitor.Detect.{ServiceRow}
use monitower.Monitor.Snapshot.{
  ServiceStatus, or_false, build_service_status, mark_anomalous, is_newer, latest_service,
}

abbrev pub status_text : Bool → String
status_text degraded = if degraded then "degraded" else "healthy"

pub or_nothing : (b : Bool) → (b || false) ≡ b
or_nothing b = ground arith

some_ne_none {ℓ} : {A : Type ℓ} {a : A} → ¬ (some a ≡ none)
some_ne_none h = cc

at_most_one : {n : ℕ} → n ≡ 0 → suc n ≤ 1
at_most_one h = omega arith

module _ {W : Type 0} where
  -- The first status of that name, and how many there are.
  abbrev pub find_status : String → List (ServiceStatus W) → Option (ServiceStatus W)
  find_status svc [] = none
  find_status svc (st ∷ statuses) = if st.name == svc then some st else find_status svc statuses

  abbrev pub count_status : String → List (ServiceStatus W) → ℕ
  count_status svc [] = 0
  count_status svc (st ∷ statuses) =
      let n = count_status svc statuses in if st.name == svc then suc n else n

  abbrev pub has_signal : String → List (AnomalySignal W) → Bool
  has_signal svc sigs = not (svc == "") && any (λ s. s.service == svc) sigs

  pub lookup-mark_anomalous :
      (svc : String) (sigs : List (AnomalySignal W)) (m : List (String × Bool))
      → or_false (lookup svc (mark_anomalous sigs m))
        ≡ (has_signal svc sigs || or_false (lookup svc m))
  unfolding mark_anomalous
  lookup-mark_anomalous svc [] m = ground arith
  lookup-mark_anomalous svc (sig ∷ sigs) m =
      lookup-mark_anomalous svc sigs (if sig.service == "" then m else insert sig.service true m)
      ∙ ground (
        arith,
        ==_iff sig.service "",
        ==_iff svc "",
        ==_iff sig.service svc,
        lookup-insert sig.service svc true m,
      )

  -- Every entry is under the name of its row.
  abbrev pub Keyed : List (String × ServiceRow W) → Type 0
  Keyed m = All (λ (k, r). k ≡ r.service) m

  insert-Keyed :
      (r : ServiceRow W) (m : List (String × ServiceRow W)) → Keyed m → Keyed (insert r.service r m)
  insert-Keyed r [] h = (refl, tt)
  insert-Keyed r ((k, x) ∷ m) h = elim (Bool-cases (k == r.service)) [
    | inl e ↦ rw e (refl, h.1)
    | inr e ↦ rw e (h.0, insert-Keyed r m h.1)
  ]

  pub latest_service-Keyed :
      (rows : List (ServiceRow W)) (m : List (String × ServiceRow W))
      → Keyed m
      → Keyed (latest_service rows m)
  unfolding latest_service
  latest_service-Keyed [] m h = h
  latest_service-Keyed (r ∷ rows) m h = elim (Bool-cases (is_newer r.ts (lookup r.service m))) [
    | inl e ↦ rw e (latest_service-Keyed rows (insert r.service r m) (insert-Keyed r m h))
    | inr e ↦ rw e (latest_service-Keyed rows m h)
  ]

  pub latest_service-Distinct :
      (rows : List (ServiceRow W)) (m : List (String × ServiceRow W))
      → Distinct m
      → Distinct (latest_service rows m)
  unfolding latest_service
  latest_service-Distinct [] m h = h
  latest_service-Distinct (r ∷ rows) m h = elim (Bool-cases (is_newer r.ts (lookup r.service m))) [
    | inl e ↦
        rw e (latest_service-Distinct rows (insert r.service r m) (insert-Distinct r.service r m h))
    | inr e ↦ rw e (latest_service-Distinct rows m h)
  ]

  abbrev pub statuses : List (String × Bool) → List (String × ServiceRow W) → List (ServiceStatus W)
  statuses anomalous m = map (λ (svc, r). build_service_status r anomalous) m

  abbrev pub status_of : List (String × Bool) → Option (ServiceRow W) → Option (ServiceStatus W)
  status_of anomalous none = none
  status_of anomalous (some r) = some (build_service_status r anomalous)

  pub find_status-statuses :
      (svc : String) (anomalous : List (String × Bool)) (m : List (String × ServiceRow W))
      → Keyed m
      → find_status svc (statuses anomalous m) ≡ status_of anomalous (lookup svc m)
  unfolding build_service_status
  find_status-statuses svc anomalous [] h = refl
  find_status-statuses svc anomalous ((k, r) ∷ m) h = elim (Bool-cases (k == svc)) [
    | inl e ↦ rw (e, subst (λ j. (j == svc) ≡ true) h.0 e) refl
    | inr e ↦
        rw (e, subst (λ j. (j == svc) ≡ false) h.0 e) (find_status-statuses svc anomalous m h.1)
  ]

  count_status-absent :
      (svc : String) (anomalous : List (String × Bool)) (m : List (String × ServiceRow W))
      → Keyed m
      → lookup svc m ≡ none
      → count_status svc (statuses anomalous m) ≡ 0
  unfolding build_service_status
  count_status-absent svc anomalous [] h absent = refl
  count_status-absent svc anomalous ((k, r) ∷ m) h absent = elim (Bool-cases (k == svc)) [
    | inl e ↦ absurd (some_ne_none (rw e at absent))
    | inr e ↦
        rw (subst (λ j. (j == svc) ≡ false) h.0 e)
          (count_status-absent svc anomalous m h.1 (rw e at absent))
  ]

  pub count_status-statuses :
      (svc : String) (anomalous : List (String × Bool)) (m : List (String × ServiceRow W))
      → Keyed m
      → Distinct m
      → count_status svc (statuses anomalous m) ≤ 1
  unfolding build_service_status
  count_status-statuses svc anomalous [] h d = omega arith
  count_status-statuses svc anomalous ((k, r) ∷ m) h d = elim (Bool-cases (k == svc)) [
    | inl e ↦ rw (subst (λ j. (j == svc) ≡ true) h.0 e) (
        at_most_one (
          count_status-absent svc anomalous m h.1
            (subst (λ j. lookup j m ≡ none) ((==_iff k svc).0 e) d.0)))
    | inr e ↦
        rw (subst (λ j. (j == svc) ≡ false) h.0 e) (count_status-statuses svc anomalous m h.1 d.1)
  ]
