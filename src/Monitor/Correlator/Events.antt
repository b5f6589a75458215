-- ===== src/Monitor/Correlator/Events.antt =====
-- Which signals `Correlate` reports, and which it leaves out.
use monitower.Prelude.{
  ◌+◌, ◌≤◌, All, true, false, not, List, [], ◌∷◌, ◌≡◌, refl, sym, ap, subst, inl, inr, Memᴰ,
  Bool-cases, arith, mem_of_perm, perm_sym, group_of_mem, mem_of_group, of_All,
}
use monitower.Float64.{Float64}
use monitower.Monitor.Signal.{AnomalySignal, is_dlq_signal}
use monitower.Monitor.Correlator.{CorrelatedEvent, FaultEvent, Correlator, group_loop, first_ts}
use monitower.Monitor.Correlator.Build.{
  build_correlated_event, is_skipped, build_events, correlate, correlate_active,
}
use monitower.Monitor.Correlator.Groups.{IsSort, IsGroup, Ordered, Ordered-flatten, group_loop_lem}

module _ {W : Type 0} ⦃f : Float64 W⦄ (fault_events : List FaultEvent) where
  dlq_not_skipped :
      (s : AnomalySignal W) (group : List (AnomalySignal W))
      → Memᴰ s group
      → is_dlq_signal s ≡ true
      → is_skipped group ≡ false
  unfolding is_skipped
  dlq_not_skipped s [] m h = elim m [ ]
  dlq_not_skipped s (x ∷ []) (Memᴰ.head e) h = rw (← e, h)
  dlq_not_skipped s (x ∷ []) (Memᴰ.tail m) h = elim m [ ]
  dlq_not_skipped s (x ∷ y ∷ group) m h = refl

  build_events-mem :
      (group : List (AnomalySignal W)) (groups : List (List (AnomalySignal W)))
      → Memᴰ group groups
      → is_skipped group ≡ false
      → Memᴰ (build_correlated_event group fault_events) (build_events groups fault_events)
  unfolding build_events
  build_events-mem group [] m h = elim m [ ]
  build_events-mem group (g ∷ groups) (Memᴰ.head e) h =
      rw (subst (λ g. is_skipped g ≡ false) e h)
        (Memᴰ.head (ap (λ g. build_correlated_event g fault_events) e))
  build_events-mem group (g ∷ groups) (Memᴰ.tail m) h = elim (Bool-cases (is_skipped g)) [
    | inl skipped ↦ rw skipped (build_events-mem group groups m h)
    | inr built ↦ rw built (Memᴰ.tail (build_events-mem group groups m h))
  ]

  group_of_event :
      (ev : CorrelatedEvent W) (groups : List (List (AnomalySignal W)))
      → Memᴰ ev (build_events groups fault_events)
      → (g : List (AnomalySignal W)) × Memᴰ g groups
        × (is_skipped g ≡ false)
        × (ev ≡ build_correlated_event g fault_events)
  unfolding build_events
  group_of_event ev [] m = elim m [ ]
  group_of_event ev (g ∷ groups) m = elim (Bool-cases (is_skipped g)) [
    | inl skipped ↦
        let (g', m', s, e) = group_of_event ev groups (rw skipped at m) in (g', Memᴰ.tail m', s, e)
    | inr built ↦ found built (group_of_event ev groups) (rw built at m)
  ]
    where
      found :
          is_skipped g ≡ false
          → (Memᴰ ev (build_events groups fault_events)
              → (h : List (AnomalySignal W)) × Memᴰ h groups
                × (is_skipped h ≡ false)
                × (ev ≡ build_correlated_event h fault_events))
          → Memᴰ ev (build_correlated_event g fault_events ∷ build_events groups fault_events)
          → (h : List (AnomalySignal W)) × Memᴰ h (g ∷ groups)
            × (is_skipped h ≡ false)
            × (ev ≡ build_correlated_event h fault_events)
      found built ih (Memᴰ.head e) = (g, Memᴰ.head refl, built, e)
      found built ih (Memᴰ.tail m') = let (h, k, s, e) = ih m' in (h, Memᴰ.tail k, s, e)

  module _ (sort : List (AnomalySignal W) → List (AnomalySignal W)) (sorts : IsSort sort)
      (c : Correlator W) where
    keeps_dlq :
        (signals : List (AnomalySignal W)) (s : AnomalySignal W)
        → Memᴰ s signals
        → is_dlq_signal s ≡ true
        → (ev : CorrelatedEvent W) × Memᴰ ev
            (correlate_active sort c.group_window fault_events signals)
          × Memᴰ s ev.signals
    unfolding correlate_active build_correlated_event build_events
    keeps_dlq [] s m h = elim m [ ]
    keeps_dlq (x ∷ signals) s m h =
        let groups = group_loop c.group_window [] [] 0 (sort (x ∷ signals)) in
        let sorted = mem_of_perm s (sorts.perm (x ∷ signals)) m in
        let whole = (group_loop_lem c.group_window (sort (x ∷ signals))).0 in
        let (g, m', s_in) = group_of_mem s groups (subst (Memᴰ s) (sym whole) sorted) in
        (
          build_correlated_event g fault_events,
          build_events-mem g groups m' (dlq_not_skipped s g s_in h),
          s_in,
        )

    lone_is_dlq :
        (group : List (AnomalySignal W)) (s : AnomalySignal W)
        → is_skipped group ≡ false
        → group ≡ s ∷ []
        → is_dlq_signal s ≡ true
    unfolding is_skipped
    lone_is_dlq group s h e = not_false (subst (λ g. is_skipped g ≡ false) e h)
      where
        not_false : not (is_dlq_signal s) ≡ false → is_dlq_signal s ≡ true
        not_false k = ground arith

    -- The signals of an ordered group lie within the window from its first one.
    within :
        (group : List (AnomalySignal W))
        → IsGroup c.group_window group
        → Ordered group
        → All (λ s. (first_ts group ≤ s.ts) × (s.ts ≤ first_ts group + c.group_window)) group
          × ((s : AnomalySignal W) × Memᴰ s group × (s.ts ≡ first_ts group))
    within [] g h = absurd g
    within (s ∷ group) g h =
        (((omega arith, omega arith), All-both group h.0 g), (s, Memᴰ.head refl, refl))
      where
        All-both :
            (xs : List (AnomalySignal W))
            → All (λ t. s.ts ≤ t.ts) xs
            → All (λ t. t.ts ≤ s.ts + c.group_window) xs
            → All (λ t. (s.ts ≤ t.ts) × (t.ts ≤ s.ts + c.group_window)) xs
        All-both [] low high = tt
        All-both (x ∷ xs) low high = ((low.0, high.0), All-both xs low.1 high.1)

    -- What an event says of its signals: they are active, none is before its start or more than the
    -- window after it, one is at its start, and a lone one is a DLQ signal.
    abbrev pub Reports : CorrelatedEvent W → List (AnomalySignal W) → Type 0
    Reports ev signals =
        ((s : AnomalySignal W)
          → Memᴰ s ev.signals
          → Memᴰ s signals × (ev.start_ts ≤ s.ts) × (s.ts ≤ ev.start_ts + c.group_window))
        × ((s : AnomalySignal W) × Memᴰ s ev.signals × (s.ts ≡ ev.start_ts))
        × ((s : AnomalySignal W) → ev.signals ≡ s ∷ [] → is_dlq_signal s ≡ true)

    built_Reports :
        (signals : List (AnomalySignal W)) (ev : CorrelatedEvent W)
        → Memᴰ ev (correlate_active sort c.group_window fault_events signals)
        → Reports ev signals
    unfolding correlate_active build_correlated_event build_events
    built_Reports [] ev m = elim m [ ]
    built_Reports (x ∷ signals) ev m =
        let groups = group_loop c.group_window [] [] 0 (sort (x ∷ signals)) in
        let (whole, spans, _) = group_loop_lem c.group_window (sort (x ∷ signals)) in
        let (g, g_in, kept, e) = group_of_event ev groups m in
        let in_order =
          Ordered-flatten groups (subst Ordered (sym whole) (sorts.ordered (x ∷ signals))) in
        let (spanned, first) =
          within g (of_All _ g groups spans g_in) (of_All _ g groups in_order g_in) in
        subst (λ ev. Reports ev (x ∷ signals)) (sym e)
          (
            λ s h. (
              mem_of_perm s (perm_sym (sorts.perm (x ∷ signals)))
                  (subst (Memᴰ s) whole (mem_of_group s g groups g_in h)),
              (of_All _ s g spanned h).0,
              (of_All _ s g spanned h).1,
            ),
            first,
            λ s. lone_is_dlq g s kept,
          )

    -- Whatever sort by time is used: an active DLQ signal is in some event, whatever else is
    -- active.
    pub correlate_keeps_dlq :
        (s : AnomalySignal W)
        → Memᴰ s c.active_signals
        → is_dlq_signal s ≡ true
        → (ev : CorrelatedEvent W) × Memᴰ ev (correlate sort fault_events c) × Memᴰ s ev.signals
    unfolding correlate
    correlate_keeps_dlq s m h = keeps_dlq c.active_signals s m h

    -- Whatever sort by time is used: an event's signals are active, none is before the event's
    -- start or more than the group window after it, one is at the start, and an event on one signal is
    -- about a DLQ.
    pub correlate-Reports :
        (ev : CorrelatedEvent W)
        → Memᴰ ev (correlate sort fault_events c)
        → Reports ev c.active_signals
    unfolding correlate
    correlate-Reports ev m = built_Reports c.active_signals ev m
