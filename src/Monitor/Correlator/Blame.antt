-- ===== src/Monitor/Correlator/Blame.antt =====
-- Which service `nominateRoot` blames, and the fault type that `matchFaultType` adds.
use monitower.Prelude.{
  ℕ, true, false, not, ◌==◌, ==_iff, ==_self, if◌then◌else◌, String, List, [], ◌∷◌, Option, none,
  some, ◌≡◌, refl, sym, ap, ◌∙◌, ◌≢◌, inl, inr, Memᴰ, Bool-cases, Option-cases, any-of_mem,
  eq_false_of_not_true, arith, string_eq, nat_eq,
}
use monitower.Monitor.Signal.{AnomalySignal, service_for_signal}
use monitower.Monitor.Correlator.{FaultEvent}
use monitower.Monitor.Correlator.Nominate.{
  or_else, best_root, nominate_root, fault_evidence, has_service_signal, first_owner,
}
use monitower.Monitor.Correlator.Build.{match_fault_type, is_match}
use monitower.Monitor.Correlator.Root.{Named, IsUpstreamMost, best_root_lem}
use monitower.Monitor.Correlator.Evidence.{
  Evidence, fault_evidence-some, fault_evidence-none, fault_evidence_found, first_owner-some,
}

-- The 'start' row that gives an event its fault type.
match_fault_type_some :
    (root : String) (group_start : ℕ) (events : List FaultEvent) (fe : FaultEvent)
    → Memᴰ fe events
    → is_match root group_start fe ≡ true
    → (fe' : FaultEvent) × Memᴰ fe' events
      × (is_match root group_start fe' ≡ true)
      × (match_fault_type root group_start events ≡ fe'.fault_type)
unfolding match_fault_type
match_fault_type_some root group_start [] fe m h = elim m [ ]
match_fault_type_some root group_start (x ∷ events) fe m h =
    elim (Bool-cases (is_match root group_start x)) [
      | inl e ↦ (x, Memᴰ.head refl, e, rw e)
      | inr e ↦
          let (fe', k, g, t) = match_fault_type_some root group_start events fe (later e m) h in
          (fe', Memᴰ.tail k, g, rw e t)
    ]
  where
    later : is_match root group_start x ≡ false → Memᴰ fe (x ∷ events) → Memᴰ fe events
    later e (Memᴰ.head k) = absurd (cc (h, e, ap (is_match root group_start) k))
    later e (Memᴰ.tail k) = k

Evidence-is_match :
    {W : Type 0} (signals : List (AnomalySignal W)) (group_start : ℕ) (fe : FaultEvent)
    → Evidence signals group_start fe
    → is_match fe.origin group_start fe ≡ true
unfolding is_match
Evidence-is_match signals group_start fe (start, early, late, _) =
    rw ((==_iff fe.action "start").1 start, ==_self fe.origin) (ground arith)

is_match-start :
    (root : String) (group_start : ℕ) (fe : FaultEvent)
    → is_match root group_start fe ≡ true
    → (fe.action ≡ "start") × (fe.origin ≡ root)
unfolding is_match
is_match-start root group_start fe h =
    ((==_iff fe.action "start").0 (ground arith), (==_iff fe.origin root).0 (ground arith))

module _ {W : Type 0} where
  -- `nominateRoot` without its dead starvation branch.
  nominate_root-cases :
      (signals : List (AnomalySignal W)) (group_start : ℕ) (events : List FaultEvent)
      → nominate_root signals group_start events
        ≡ or_else (fault_evidence signals group_start events) (
            if has_service_signal signals
            then best_root signals "" 999 0
            else or_else (first_owner signals) (best_root signals "" 999 0))
  unfolding nominate_root
  nominate_root-cases signals group_start events = refl

  owner_in_group :
      (c : AnomalySignal W) (signals : List (AnomalySignal W)) (owner : Option String)
      → Named (c ∷ signals)
      → has_service_signal (c ∷ signals) ≡ false
      → first_owner (c ∷ signals) ≡ owner
      → (s : AnomalySignal W) × Memᴰ s (c ∷ signals)
        × (or_else owner (best_root (c ∷ signals) "" 999 0) ≡ service_for_signal s)
  owner_in_group c signals none named bare h =
      let (s, m, e, _) = best_root_lem c signals named in (s, m, e)
  owner_in_group c signals (some owner) named bare h = first_owner-some (c ∷ signals) owner bare h

  root_without_evidence :
      (c : AnomalySignal W) (signals : List (AnomalySignal W))
      → Named (c ∷ signals)
      → (s : AnomalySignal W) × Memᴰ s (c ∷ signals)
        × ((if has_service_signal (c ∷ signals)
              then best_root (c ∷ signals) "" 999 0
              else or_else (first_owner (c ∷ signals)) (best_root (c ∷ signals) "" 999 0))
            ≡ service_for_signal s)
  root_without_evidence c signals named = elim (Bool-cases (has_service_signal (c ∷ signals))) [
    | inl some_service ↦
        let (s, m, e, _) = best_root_lem c signals named in rw some_service (s, m, e)
    | inr bare ↦ rw bare (owner_in_group c signals (first_owner (c ∷ signals)) named bare refl)
  ]

  -- In a group whose signals all resolve to a service name, the nominated root is the service of
  -- one of the group's signals, whatever the fault events.
  pub nominate_root_in_group :
      (c : AnomalySignal W) (signals : List (AnomalySignal W)) (group_start : ℕ)
      (events : List FaultEvent)
      → Named (c ∷ signals)
      → (s : AnomalySignal W) × Memᴰ s (c ∷ signals)
        × (nominate_root (c ∷ signals) group_start events ≡ service_for_signal s)
  nominate_root_in_group c signals group_start events named =
      rw nominate_root-cases
        (elim (Option-cases (fault_evidence (c ∷ signals) group_start events)) [
          | inl e ↦ rw e (root_without_evidence c signals named)
          | inr (origin, e) ↦
              let (fe, _, (_, _, _, (s, m, k)), o) =
                fault_evidence-some (c ∷ signals) group_start events origin e in
              rw e (s, m, sym (k ∙ o))
        ])

  -- In a group whose signals all resolve to a service name, with no fault started at most 5 s
  -- before it on one of its services, and with a signal on a service, the root is the service of a
  -- signal that stands before all others of the group: further upstream in the pipeline, or as far
  -- upstream and not later.
  pub nominate_root-IsUpstreamMost :
      (c : AnomalySignal W) (signals : List (AnomalySignal W)) (group_start : ℕ)
      (events : List FaultEvent) (t : AnomalySignal W)
      → Named (c ∷ signals)
      → ((fe : FaultEvent) → Memᴰ fe events → ¬ Evidence (c ∷ signals) group_start fe)
      → Memᴰ t (c ∷ signals)
      → t.service ≢ ""
      → IsUpstreamMost (nominate_root (c ∷ signals) group_start events) (c ∷ signals)
  unfolding has_service_signal
  nominate_root-IsUpstreamMost c signals group_start events t named quiet m on =
      let flagged : has_service_signal (c ∷ signals) ≡ true =
        any-of_mem (λ s. not (s.service == "")) t (c ∷ signals) m
          (rw (eq_false_of_not_true _ (λ e. on ((==_iff t.service "").0 e)))) in
      rw (nominate_root-cases, fault_evidence-none (c ∷ signals) group_start events quiet, flagged)
        (best_root_lem c signals named)

  -- If some fault was started at most 5 s before the group on one of its services, the root is the
  -- origin of such a fault, and the event's fault type is that of a fault started on the root.
  pub nominate_root-Evidence :
      (signals : List (AnomalySignal W)) (group_start : ℕ) (events : List FaultEvent)
      (fe : FaultEvent)
      → Memᴰ fe events
      → Evidence signals group_start fe
      → let root = nominate_root signals group_start events in
        ((fe' : FaultEvent) × Memᴰ fe' events
          × Evidence signals group_start fe'
          × (root ≡ fe'.origin))
        × ((fe' : FaultEvent) × Memᴰ fe' events
            × (fe'.action ≡ "start")
            × (fe'.origin ≡ root)
            × (match_fault_type root group_start events ≡ fe'.fault_type))
  nominate_root-Evidence signals group_start events fe m v =
      let (origin, e) = fault_evidence_found signals group_start events fe m v in
      let (x, x_in, x_ok, o) = fault_evidence-some signals group_start events origin e in
      let root : nominate_root signals group_start events ≡ x.origin =
        nominate_root-cases signals group_start events ∙ rw (e, o) in
      let (y, y_in, y_ok, t) =
        match_fault_type_some x.origin group_start events x x_in
          (Evidence-is_match signals group_start x x_ok) in
      let (start, origin_y) = is_match-start x.origin group_start y y_ok in
      ((x, x_in, x_ok, root), rw root (y, y_in, start, origin_y, t))
