-- ===== src/Monitor/Sse/Buffers.antt =====
-- The buffers of the clients of the event stream: their bound, and that what they hold gets written.
use monitower.Prelude.{
  ℕ, suc, ◌<◌, Bool, ◌==◌, if◌then◌else◌, ltb, String, List, [], ◌∷◌, ◌++◌, some, length,
  append-nil, append_assoc, ◌≡◌, refl, sym, ap, subst, ◌∙◌, inl, inr, Bool-cases, arith, nat_eq,
}
use monitower.Prelude.Dict.{lookup}
use monitower.Monitor.Sse.{
  SseClient, SseBroadcaster, Event, connected, disconnected, flushed, sent, offer, flush_one,
  write_first, run,
}
use monitower.Monitor.Sse.Delivery.{Stays, flushes, received, client_run, client_step, lookup-run}

-- A client's response is only written to at its end.
abbrev Grown : ℕ → List Event → SseClient → Type 0
Grown id events c = (more : List String) × ((client_run id events c).written ≡ c.written ++ more)

Grown-from :
    (id : ℕ) (events : List Event) (c d : SseClient) (first : List String)
    → d.written ≡ c.written ++ first
    → Grown id events d
    → (more : List String) × ((client_run id events d).written ≡ c.written ++ more)
Grown-from id events c d first h (more, e) =
    (first ++ more, e ∙ ap (λ w. w ++ more) h ∙ append_assoc c.written first more)

written-flush_one :
    (written ch : List String)
    → (first : List String) × ((write_first written ch).written ≡ written ++ first)
written-flush_one written [] = ([], sym (append-nil written))
written-flush_one written (msg ∷ ch) = (msg ∷ [], refl)

written-step :
    (id : ℕ) (e : Event) (c : SseClient)
    → (first : List String) × ((client_step id e c).written ≡ c.written ++ first)
unfolding flush_one offer
written-step id (connected flusher j) c = ([], sym (append-nil c.written))
written-step id (disconnected j) c = ([], sym (append-nil c.written))
written-step id (flushed j) c = elim (Bool-cases (j == id)) [
  | inl e ↦ rw e (written-flush_one c.written c.ch)
  | inr e ↦ rw e ([], sym (append-nil c.written))
]
written-step id (sent msg) c = elim (Bool-cases (ltb (length c.ch) 8)) [
  | inl e ↦ rw e ([], sym (append-nil c.written))
  | inr e ↦ rw e ([], sym (append-nil c.written))
]

client_run-Grown : (id : ℕ) (events : List Event) (c : SseClient) → Grown id events c
client_run-Grown id [] c = ([], sym (append-nil c.written))
client_run-Grown id (e ∷ events) c =
    let (first, h) = written-step id e c in
    Grown-from id events c (client_step id e c) first h
      (client_run-Grown id events (client_step id e c))

abbrev holding : List String → List String → String → List String → SseClient
holding written before msg behind = record { ch = before ++ msg ∷ behind; written = written }

-- The message gets written right behind those that were there before it.
abbrev Writes : ℕ → List Event → List String → String → SseClient → Type 0
Writes id events before msg c =
    (more : List String) × ((client_run id events c).written ≡ before ++ msg ∷ more)

holding-offer :
    (written before behind : List String) (msg m : String)
    → (behind' : List String) × (offer m (holding written before msg behind)
        ≡ holding written before msg behind')
unfolding offer
holding-offer written before behind msg m =
    elim (Bool-cases (ltb (length (before ++ msg ∷ behind)) 8)) [
      | inl e ↦ rw e (
        behind ++ m ∷ [],
        ap (λ ch. record { ch = ch; written = written })
            (append_assoc before (msg ∷ behind) (m ∷ [])),
      )
      | inr e ↦ rw e (behind, refl)
    ]

Writes-taken :
    (id : ℕ) (events : List Event) (written before behind : List String) (msg : String)
    → length before < suc (flushes id events)
    → ((written before : List String)
        → length before < flushes id events
        → Writes id events (written ++ before) msg (holding written before msg behind))
    → Writes id events (written ++ before) msg (flush_one (holding written before msg behind))
unfolding flush_one
Writes-taken id events written [] behind msg h later =
    let (more, grown) =
      client_run-Grown id events (record { ch = behind; written = written ++ msg ∷ [] }) in
    (
      more,
      grown
          ∙ append_assoc written (msg ∷ []) more
          ∙ ap (λ w. w ++ msg ∷ more) (sym (append-nil written)),
    )
Writes-taken id events written (x ∷ before) behind msg h later =
    subst (λ front. Writes id events front msg (holding (written ++ x ∷ []) before msg behind))
      (append_assoc written (x ∷ []) before) (later (written ++ x ∷ []) before (fewer h))
  where
    fewer : {m n : ℕ} → suc m < suc n → m < n
    fewer h = omega (arith, h)

Writes-held :
    (id : ℕ) (events : List Event) (written before behind : List String) (msg : String)
    → length before < flushes id events
    → Writes id events (written ++ before) msg (holding written before msg behind)
Writes-held id [] written before behind msg h = absurd (omega (arith, h))
Writes-held id (connected flusher j ∷ events) written before behind msg h =
    Writes-held id events written before behind msg h
Writes-held id (disconnected j ∷ events) written before behind msg h =
    Writes-held id events written before behind msg h
Writes-held id (sent m ∷ events) written before behind msg h =
    let (behind', e) = holding-offer written before behind msg m in
    subst (Writes id events (written ++ before) msg) (sym e)
      (Writes-held id events written before behind' msg h)
Writes-held id (flushed j ∷ events) written before behind msg h = elim (Bool-cases (j == id)) [
  | inl e ↦
      subst (λ t. Writes id events (written ++ before) msg (if t then flush_one c else c)) (sym e)
        (Writes-taken id events written before behind msg (counted e)
          (λ written before k. Writes-held id events written before behind msg k))
  | inr e ↦
      subst (λ t. Writes id events (written ++ before) msg (if t then flush_one c else c)) (sym e)
        (Writes-held id events written before behind msg (counted e))
]
  where
    c : SseClient
    c = holding written before msg behind

    counted :
        {t : Bool}
        → (j == id) ≡ t
        → length before < (if t then suc (flushes id events) else flushes id events)
    counted e =
        subst (λ t. length before < (if t then suc (flushes id events) else flushes id events)) e h

-- A message that finds room in the buffer of a connected client is written to the client's response,
-- right behind all that the client was sent before it, if the client stays and its loop then takes
-- more messages than the buffer held before the broadcast, whatever else the other clients do.
pub sent_delivered :
    (id : ℕ) (msg : String) (events : List Event) (b : SseBroadcaster) (c : SseClient)
    → Stays id events
    → lookup id b.clients ≡ some c
    → length c.ch < 8
    → length c.ch < flushes id events
    → (after : SseClient) × (more : List String) × (lookup id (run (sent msg ∷ events) b).clients
        ≡ some after)
      × (after.written ≡ received c ++ msg ∷ more)
unfolding offer
sent_delivered id msg events b c stays h room reads =
    let (more, e) = Writes-held id events c.written c.ch [] msg reads in
    (
      client_run id (sent msg ∷ events) c,
      more,
      lookup-run id (sent msg ∷ events) b c stays h,
      ap (λ d. (client_run id events d).written) (found_room c room) ∙ e,
    )
  where
    found_room : (c : SseClient) → length c.ch < 8 → offer msg c ≡ holding c.written c.ch msg []
    found_room c room = ground arith
