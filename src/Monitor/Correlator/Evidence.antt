-- ===== src/Monitor/Correlator/Evidence.antt =====
-- The fault events as evidence, and the owners of queues, in `nominateRoot`.
use monitower.Prelude.{
  ℕ, ◌+◌, ◌≤◌, true, false, not, ◌&&◌, ◌==◌, ==_iff, String, List, [], ◌∷◌, none, some, is_some,
  ◌≡◌, refl, subst, inl, inr, Memᴰ, Bool-cases, any, any-of_mem, mem_of_any, eq_false_of_not_true,
  arith, string_eq, nat_eq,
}
use monitower.Prelude.Dict.{lookup}
use monitower.Monitor.Signal.{AnomalySignal, queue_owner, service_for_signal}
use monitower.Monitor.Correlator.{FaultEvent}
use monitower.Monitor.Correlator.Nominate.{
  is_evidence, fault_evidence, has_service_signal, first_owner,
}

module _ {W : Type 0} where
  -- A 'start' row at most 5 s before the group, about a service of the group.
  abbrev pub Evidence : List (AnomalySignal W) → ℕ → FaultEvent → Type 0
  Evidence signals group_start fe =
      (fe.action ≡ "start")
      × (group_start ≤ fe.ts + 5000)
      × (fe.ts ≤ group_start)
      × ((s : AnomalySignal W) × Memᴰ s signals × (service_for_signal s ≡ fe.origin))

  module _ (signals : List (AnomalySignal W)) (group_start : ℕ) where
    pub Evidence-is_evidence :
        (fe : FaultEvent)
        → Evidence signals group_start fe
        → is_evidence signals group_start fe ≡ true
    unfolding is_evidence
    Evidence-is_evidence fe (start, early, late, (s, m, e)) =
        let found : any (λ sig. service_for_signal sig == fe.origin) signals ≡ true =
          any-of_mem _ s signals m ((==_iff _ _).1 e) in
        rw ((==_iff fe.action "start").1 start, found) (ground arith)

    pub is_evidence-Evidence :
        (fe : FaultEvent)
        → is_evidence signals group_start fe ≡ true
        → Evidence signals group_start fe
    unfolding is_evidence
    is_evidence-Evidence fe h =
        let found : any (λ sig. service_for_signal sig == fe.origin) signals ≡ true =
          ground arith in
        let (s, m, e) = mem_of_any _ signals found in
        (
          (==_iff fe.action "start").0 (ground arith),
          ground arith,
          ground arith,
          (s, m, (==_iff _ _).0 e),
        )

    -- The rows before the first evidence are passed over.
    pub fault_evidence-some :
        (events : List FaultEvent) (origin : String)
        → fault_evidence signals group_start events ≡ some origin
        → (fe : FaultEvent) × Memᴰ fe events
          × Evidence signals group_start fe
          × (fe.origin ≡ origin)
    unfolding fault_evidence
    fault_evidence-some [] origin h = cc
    fault_evidence-some (fe ∷ events) origin h =
        elim (Bool-cases (is_evidence signals group_start fe)) [
          | inl e ↦
              let k : some fe.origin ≡ some origin = rw e at h in
              (fe, Memᴰ.head refl, is_evidence-Evidence fe e, cc)
          | inr e ↦
              let (fe', m, v, o) = fault_evidence-some events origin (rw e at h) in
              (fe', Memᴰ.tail m, v, o)
        ]

    pub fault_evidence-none :
        (events : List FaultEvent)
        → ((fe : FaultEvent) → Memᴰ fe events → ¬ Evidence signals group_start fe)
        → fault_evidence signals group_start events ≡ none
    unfolding fault_evidence
    fault_evidence-none [] h = refl
    fault_evidence-none (fe ∷ events) h =
        rw (eq_false_of_not_true _ (λ e. h fe (Memᴰ.head refl) (is_evidence-Evidence fe e)))
          (fault_evidence-none events (λ fe' m. h fe' (Memᴰ.tail m)))

    pub fault_evidence_found :
        (events : List FaultEvent) (fe : FaultEvent)
        → Memᴰ fe events
        → Evidence signals group_start fe
        → (origin : String) × (fault_evidence signals group_start events ≡ some origin)
    unfolding fault_evidence
    fault_evidence_found [] fe m v = elim m [ ]
    fault_evidence_found (x ∷ events) fe (Memᴰ.head e) v =
        (x.origin, rw (Evidence-is_evidence x (subst (Evidence signals group_start) e v)))
    fault_evidence_found (x ∷ events) fe (Memᴰ.tail m) v =
        elim (Bool-cases (is_evidence signals group_start x)) [
          | inl e ↦ (x.origin, rw e)
          | inr e ↦ rw e (fault_evidence_found events fe m v)
        ]

  -- `first_owner` names the service of the signal whose queue it looks up, if that signal is about
  -- a queue alone.
  pub first_owner-some :
      (signals : List (AnomalySignal W)) (owner : String)
      → has_service_signal signals ≡ false
      → first_owner signals ≡ some owner
      → (s : AnomalySignal W) × Memᴰ s signals × (owner ≡ service_for_signal s)
  unfolding first_owner has_service_signal service_for_signal
  first_owner-some [] owner bare h = cc
  first_owner-some (sig ∷ signals) owner bare h =
      elim (Bool-cases (not (sig.queue == "") && is_some (lookup sig.queue queue_owner))) [
        | inl e ↦
            let k : lookup sig.queue queue_owner ≡ some owner = rw e at h in
            let plain : not (sig.service == "") ≡ false = ground arith in
            (sig, Memᴰ.head refl, rw (plain, k))
        | inr e ↦
            let (s, m, o) = first_owner-some signals owner (ground arith) (rw e at h) in
            (s, Memᴰ.tail m, o)
      ]
