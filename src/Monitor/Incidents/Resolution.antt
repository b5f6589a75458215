-- ===== src/Monitor/Incidents/Resolution.antt =====
-- When the tracker resolves an incident.
use monitower.Prelude.{
  ℕ, suc, Bool, true, false, not, ◌&&◌, ◌||◌, ◌==◌, leb, if◌then◌else◌, String, List, [], ◌∷◌, ◌++◌,
  Option, none, some, ◌≡◌, refl, ap, ap₂, ◌∙◌, fun_ext, any, is_some, arith, string_eq, nat_eq,
}
use monitower.Prelude.Dict.{lookup, lookup-insert}
use monitower.Monitor.Signal.{AnomalySignal, queue_owner}
use monitower.Monitor.Correlator.Build.{contains}
use monitower.Monitor.Incidents.{Incident, find_id}
use monitower.Monitor.Incidents.Rows.{DistinctIds}
use monitower.Monitor.Incidents.Tracker.{
  ResolutionTracker, anomalous_services, still_anomalous, count_or_zero, check_incident, check_loop,
  has_id, clean_up, check, anomalous_of,
}

-- Is the id among the ids?
abbrev pub is_listed : ℕ → List ℕ → Bool
is_listed id = any (λ i. i == id)

-- The count of an incident after a check that finds it anomalous or clean.
abbrev next_count : Bool → ℕ → ℕ
next_count true n = 0
next_count false n = suc n

abbrev count_of : ℕ → List (ℕ × ℕ) → ℕ
count_of id counts = count_or_zero (lookup id counts)

is_listed-append :
    (id i : ℕ) (ids : List ℕ) → is_listed id (ids ++ i ∷ []) ≡ (is_listed id ids || i == id)
is_listed-append id i [] = ground arith
is_listed-append id i (j ∷ ids) = ground (arith, is_listed-append id i ids)

module _ (anomalous : List String) where
  -- The count of the first incident with the id, or the old count if there is none.
  abbrev after_check : ℕ → Option Incident → ℕ → ℕ
  after_check id none n = n
  after_check id (some inc) n = next_count (still_anomalous anomalous inc) n

  count_of-check_incident :
      (id : ℕ) (inc : Incident) (counts : List (ℕ × ℕ)) (ids : List ℕ)
      → count_of id (check_incident anomalous inc counts ids).0 ≡ (
          if inc.id == id
          then next_count (still_anomalous anomalous inc) (count_of id counts)
          else count_of id counts)
  unfolding check_incident
  count_of-check_incident id inc counts ids = ground (
    arith,
    lookup-insert inc.id id 0 counts,
    lookup-insert inc.id id (suc (count_of inc.id counts)) counts,
  )

  -- An incident is resolved by a check that finds it clean, if the one before did too.
  abbrev resolves : Option Incident → ℕ → Bool
  resolves none n = false
  resolves (some inc) n = not (still_anomalous anomalous inc) && leb 1 n

  is_listed-check_incident :
      (id : ℕ) (inc : Incident) (counts : List (ℕ × ℕ)) (ids : List ℕ)
      → is_listed id (check_incident anomalous inc counts ids).1
        ≡ (is_listed id ids || (inc.id == id && resolves (some inc) (count_of id counts)))
  unfolding check_incident
  is_listed-check_incident id inc counts ids =
      ground
        (arith, is_listed-append id inc.id ids, λ (e : inc.id ≡ id). ap (λ i. lookup i counts) e)

  count_of-check_loop :
      (id : ℕ) (actives : List Incident) (counts : List (ℕ × ℕ)) (ids : List ℕ)
      → DistinctIds actives
      → count_of id (check_loop anomalous actives counts ids).0
        ≡ after_check id (find_id id actives) (count_of id counts)
  unfolding check_loop find_id
  count_of-check_loop id [] counts ids d = refl
  count_of-check_loop id (inc ∷ actives) counts ids d =
      let r = check_incident anomalous inc counts ids in
      count_of-check_loop id actives r.0 r.1 d.1
      ∙ ground (
        arith,
        count_of-check_incident id inc counts ids,
        λ (e : inc.id ≡ id). ap (λ i. find_id i actives) e,
      )

  is_listed-check_loop :
      (id : ℕ) (actives : List Incident) (counts : List (ℕ × ℕ)) (ids : List ℕ)
      → DistinctIds actives
      → is_listed id (check_loop anomalous actives counts ids).1
        ≡ (is_listed id ids || resolves (find_id id actives) (count_of id counts))
  unfolding check_loop find_id
  is_listed-check_loop id [] counts ids d = ground arith
  is_listed-check_loop id (inc ∷ actives) counts ids d =
      let r = check_incident anomalous inc counts ids in
      is_listed-check_loop id actives r.0 r.1 d.1
      ∙ ground (
        arith,
        is_listed-check_incident id inc counts ids,
        count_of-check_incident id inc counts ids,
        λ (e : inc.id ≡ id). ap (λ i. find_id i actives) e,
      )

has_id-find_id :
    (id : ℕ) (actives : List Incident) → has_id id actives ≡ is_some (find_id id actives)
unfolding find_id
has_id-find_id id [] = refl
has_id-find_id id (inc ∷ actives) = ground (arith, has_id-find_id id actives)

count_or_zero-if :
    (b : Bool) (o : Option ℕ)
    → count_or_zero (if b then o else none) ≡ (if b then count_or_zero o else 0)
count_or_zero-if true o = refl
count_or_zero-if false o = refl

lookup-clean_up :
    (id : ℕ) (actives : List Incident) (counts : List (ℕ × ℕ))
    → lookup id (clean_up actives counts) ≡ (if has_id id actives then lookup id counts else none)
unfolding clean_up
lookup-clean_up id actives [] = ground arith
lookup-clean_up id actives ((j, n) ∷ counts) =
    ground (arith, lookup-clean_up id actives counts, λ (e : j ≡ id). ap (λ i. has_id i actives) e)

contains-append :
    (x : String) (xs ys : List String) → contains x (xs ++ ys) ≡ (contains x xs || contains x ys)
unfolding contains
contains-append x [] ys = refl
contains-append x (y ∷ xs) ys = ground (arith, contains-append x xs ys)

abbrev pub owner_is : String → Option String → Bool
owner_is svc none = false
owner_is svc (some owner) = owner == svc

module _ {W : Type 0} where
  -- The signal is about the service or queue, or about a queue that the service writes to.
  abbrev pub concerns : String → AnomalySignal W → Bool
  concerns svc sig =
      (not (sig.service == "") && sig.service == svc)
      || (not (sig.queue == "")
          && (sig.queue == svc || owner_is svc (lookup sig.queue queue_owner)))

  contains-anomalous_of :
      (svc : String) (sig : AnomalySignal W) → contains svc (anomalous_of sig) ≡ concerns svc sig
  unfolding anomalous_of contains
  contains-anomalous_of svc sig = ground arith

  contains-anomalous_services :
      (svc : String) (signals : List (AnomalySignal W))
      → contains svc (anomalous_services signals) ≡ any (concerns svc) signals
  unfolding anomalous_services
  contains-anomalous_services svc [] = unfold contains in refl
  contains-anomalous_services svc (sig ∷ signals) =
      contains-append svc (anomalous_of sig) (anomalous_services signals)
      ∙ rw (contains-anomalous_of svc sig, contains-anomalous_services svc signals)

  abbrev pub no_signal_on : List (AnomalySignal W) → Option Incident → Bool
  no_signal_on signals none = false
  no_signal_on signals (some inc) = not (any (λ svc. any (concerns svc) signals) inc.affected)

  -- The incident with the id is active, and no signal concerns one of its affected services.
  abbrev pub is_clean : ℕ → List Incident → List (AnomalySignal W) → Bool
  is_clean id actives signals = no_signal_on signals (find_id id actives)

  still_anomalous-clean :
      (signals : List (AnomalySignal W)) (inc : Incident)
      → not (still_anomalous (anomalous_services signals) inc) ≡ no_signal_on signals (some inc)
  unfolding still_anomalous
  still_anomalous-clean signals inc = rw (fun_ext (λ svc. contains-anomalous_services svc signals))

  after_check-clean :
      (signals : List (AnomalySignal W)) (id : ℕ) (o : Option Incident) (n : ℕ)
      → leb 1 (if is_some o then after_check (anomalous_services signals) id o n else 0)
        ≡ no_signal_on signals o
  after_check-clean signals id none n = refl
  after_check-clean signals id (some inc) n = ground (arith, still_anomalous-clean signals inc)

  resolves-clean :
      (signals : List (AnomalySignal W)) (o : Option Incident) (n : ℕ)
      → resolves (anomalous_services signals) o n ≡ (no_signal_on signals o && leb 1 n)
  resolves-clean signals none n = refl
  resolves-clean signals (some inc) n = rw (still_anomalous-clean signals inc)

  -- A count after a check is positive exactly if that check found the incident clean.
  count_of-check :
      (id : ℕ) (actives : List Incident) (signals : List (AnomalySignal W)) (rt : ResolutionTracker)
      → DistinctIds actives
      → leb 1 (count_of id (check actives signals rt).0.counts) ≡ is_clean id actives signals
  unfolding check
  count_of-check id actives signals rt d =
      let r = check_loop (anomalous_services signals) actives rt.counts [] in
      ap (λ o. leb 1 (count_or_zero o)) (lookup-clean_up id actives r.0)
      ∙ ap (leb 1) (
          count_or_zero-if (has_id id actives) (lookup id r.0)
          ∙ ap₂ (λ b n. if b then n else 0) (has_id-find_id id actives)
              (count_of-check_loop (anomalous_services signals) id actives rt.counts [] d))
      ∙ after_check-clean signals id (find_id id actives) (count_of id rt.counts)

  pub is_listed-check :
      (id : ℕ) (actives : List Incident) (signals : List (AnomalySignal W)) (rt : ResolutionTracker)
      → DistinctIds actives
      → is_listed id (check actives signals rt).1
        ≡ (is_clean id actives signals && leb 1 (count_of id rt.counts))
  unfolding check
  is_listed-check id actives signals rt d =
      is_listed-check_loop (anomalous_services signals) id actives rt.counts [] d
      ∙ resolves-clean signals (find_id id actives) (count_of id rt.counts)

  -- Of two checks in a row on lists with distinct ids, whatever the tracker held before, the
  -- second one asks to resolve exactly the incidents that were active and clean in both: no signal
  -- was about one of their affected services, or about a queue that is one of them or is written
  -- by one.
  pub check_twice :
      (id : ℕ) (actives_a actives_b : List Incident) (signals_a signals_b : List (AnomalySignal W))
      (rt : ResolutionTracker)
      → DistinctIds actives_a
      → DistinctIds actives_b
      → is_listed id (check actives_b signals_b (check actives_a signals_a rt).0).1
        ≡ (is_clean id actives_b signals_b && is_clean id actives_a signals_a)
  check_twice id actives_a actives_b signals_a signals_b rt d_a d_b =
      is_listed-check id actives_b signals_b (check actives_a signals_a rt).0 d_b
      ∙ ap (◌&&◌ (is_clean id actives_b signals_b)) (count_of-check id actives_a signals_a rt d_a)
