-- ===== src/Monitor/Sse/Delivery.antt =====
-- What a client of the event stream is sent: at most a full buffer, in order, and for certain where its
-- buffer has room and it reads on.
use monitower.Prelude.{
  ℕ, suc, true, false, ◌==◌, if◌then◌else◌, ltb, String, List, [], ◌∷◌, ◌++◌, Option, none, some,
  length, append-nil, append_assoc, ◌≡◌, refl, sym, ap, subst, ◌∙◌, inl, inr, Bool-cases, ==_iff,
  arith, nat_eq,
}
use monitower.Prelude.Dict.{lookup, lookup-insert, lookup-erase}
use monitower.Monitor.Sse.{
  SseClient, SseBroadcaster, Event, connected, disconnected, flushed, sent, offer, new_client,
  offer_all, flush, flush_at, flush_one, write_first, step, run,
}

-- `xs` is `ys` with some elements left out.
pub data Sublist {ℓ} {A : Type ℓ} : List A → List A → Type ℓ where
  done : Sublist [] []
  keep : {x : A} {xs ys : List A} → Sublist xs ys → Sublist (x ∷ xs) (x ∷ ys)
  skip : {x : A} {xs ys : List A} → Sublist xs ys → Sublist xs (x ∷ ys)

-- The messages that the events broadcast.
abbrev pub sent_in : List Event → List String
sent_in [] = []
sent_in (connected flusher id ∷ events) = sent_in events
sent_in (disconnected id ∷ events) = sent_in events
sent_in (flushed id ∷ events) = sent_in events
sent_in (sent msg ∷ events) = msg ∷ sent_in events

-- How often the loop of the client takes a message.
abbrev pub flushes : ℕ → List Event → ℕ
flushes id [] = 0
flushes id (connected flusher j ∷ events) = flushes id events
flushes id (disconnected j ∷ events) = flushes id events
flushes id (flushed j ∷ events) = let n = flushes id events in if j == id then suc n else n
flushes id (sent msg ∷ events) = flushes id events

-- The client neither leaves nor is its pointer used again.
abbrev pub Stays : ℕ → List Event → Type 0
Stays id [] = Unit
Stays id (connected flusher j ∷ events) = ((j == id) ≡ false) × Stays id events
Stays id (disconnected j ∷ events) = ((j == id) ≡ false) × Stays id events
Stays id (flushed j ∷ events) = Stays id events
Stays id (sent msg ∷ events) = Stays id events

-- What the events do to one client.
abbrev pub client_step : ℕ → Event → SseClient → SseClient
client_step id (connected flusher j) c = c
client_step id (disconnected j) c = c
client_step id (flushed j) c = if j == id then flush_one c else c
client_step id (sent msg) c = offer msg c

abbrev pub client_run : ℕ → List Event → SseClient → SseClient
client_run id [] c = c
client_run id (e ∷ events) c = client_run id events (client_step id e c)

abbrev pub offered : String → Option SseClient → Option SseClient
offered msg none = none
offered msg (some c) = some (offer msg c)

pub lookup-offer_all :
    (id : ℕ) (msg : String) (m : List (ℕ × SseClient))
    → lookup id (offer_all msg m) ≡ offered msg (lookup id m)
unfolding offer_all
lookup-offer_all id msg [] = refl
lookup-offer_all id msg ((j, c) ∷ m) = ground (arith, lookup-offer_all id msg m)

pub lookup-flush_at :
    (id j : ℕ) (o : Option SseClient) (b : SseBroadcaster) (c : SseClient)
    → lookup j b.clients ≡ o
    → lookup id b.clients ≡ some c
    → lookup id (flush_at j o b).clients ≡ some (if j == id then flush_one c else c)
unfolding flush_at
lookup-flush_at id j none b c e h = elim (Bool-cases (j == id)) [
  | inl same ↦
      absurd (none_ne_some (sym e ∙ ap (λ k. lookup k b.clients) ((==_iff j id).0 same) ∙ h))
  | inr other ↦ rw other h
]
  where
    none_ne_some : {c : SseClient} → ¬ (none ≡ some c)
    none_ne_some h = cc
lookup-flush_at id j (some d) b c e h =
    ground (arith, ==_iff j id, lookup-insert j id (flush_one d) b.clients)

lookup-flush :
    (id j : ℕ) (b : SseBroadcaster) (c : SseClient)
    → lookup id b.clients ≡ some c
    → lookup id (flush j b).clients ≡ some (if j == id then flush_one c else c)
unfolding flush
lookup-flush id j b c h = lookup-flush_at id j (lookup j b.clients) b c refl h

-- A step leaves the entry of a client that stays to `client_step`.
lookup-step :
    (id : ℕ) (e : Event) (b : SseBroadcaster) (c : SseClient)
    → Stays id (e ∷ [])
    → lookup id b.clients ≡ some c
    → lookup id (step e b).clients ≡ some (client_step id e c)
unfolding step
lookup-step id (connected false j) b c stays h = h
lookup-step id (connected true j) b c stays h =
    ground (arith, lookup-insert j id new_client b.clients)
lookup-step id (disconnected j) b c stays h = ground (arith, lookup-erase j id b.clients)
lookup-step id (flushed j) b c stays h = lookup-flush id j b c h
lookup-step id (sent msg) b c stays h = lookup-offer_all id msg b.clients ∙ ap (offered msg) h

Stays-head : (id : ℕ) (e : Event) (events : List Event) → Stays id (e ∷ events) → Stays id (e ∷ [])
Stays-head id (connected flusher j) events h = (h.0, tt)
Stays-head id (disconnected j) events h = (h.0, tt)
Stays-head id (flushed j) events h = tt
Stays-head id (sent msg) events h = tt

Stays-tail : (id : ℕ) (e : Event) (events : List Event) → Stays id (e ∷ events) → Stays id events
Stays-tail id (connected flusher j) events h = h.1
Stays-tail id (disconnected j) events h = h.1
Stays-tail id (flushed j) events h = h
Stays-tail id (sent msg) events h = h

pub lookup-run :
    (id : ℕ) (events : List Event) (b : SseBroadcaster) (c : SseClient)
    → Stays id events
    → lookup id b.clients ≡ some c
    → lookup id (run events b).clients ≡ some (client_run id events c)
unfolding run
lookup-run id [] b c stays h = h
lookup-run id (e ∷ events) b c stays h =
    lookup-run id events (step e b) (client_step id e c) (Stays-tail id e events stays)
      (lookup-step id e b c (Stays-head id e events stays) h)

-- What a client was sent so far: written to its response, or waiting in its buffer.
abbrev pub received : SseClient → List String
received c = c.written ++ c.ch

received-write_first :
    (written ch : List String) → received (write_first written ch) ≡ written ++ ch
received-write_first written [] = refl
received-write_first written (msg ∷ ch) = append_assoc written (msg ∷ []) ch

received-flush_one : (c : SseClient) → received (flush_one c) ≡ received c
unfolding flush_one
received-flush_one c = received-write_first c.written c.ch

received-flushed : (id j : ℕ) (c : SseClient) → received (client_step id (flushed j) c) ≡ received c
received-flushed id j c = elim (Bool-cases (j == id)) [
  | inl e ↦ rw e (received-flush_one c)
  | inr e ↦ rw e refl
]

received-offer :
    (msg : String) (c : SseClient)
    → received (offer msg c) ≡ (if ltb (length c.ch) 8 then received c ++ msg ∷ [] else received c)
unfolding offer
received-offer msg c = elim (Bool-cases (ltb (length c.ch) 8)) [
  | inl e ↦ rw e (sym (append_assoc c.written c.ch (msg ∷ [])))
  | inr e ↦ rw e refl
]

-- The messages that the events add for a client that starts as `c`.
abbrev InOrder : ℕ → List Event → SseClient → Type 0
InOrder id events c =
    (more : List String) × (received (client_run id events c) ≡ received c ++ more)
    × Sublist more (sent_in events)

from_step :
    (id : ℕ) (e : Event) (events : List Event) (c : SseClient)
    → received (client_step id e c) ≡ received c
    → sent_in (e ∷ events) ≡ sent_in events
    → InOrder id events (client_step id e c)
    → InOrder id (e ∷ events) c
from_step id e events c same nothing (more, grown, sub) =
    (more, grown ∙ ap (λ r. r ++ more) same, subst (Sublist more) (sym nothing) sub)

after_offer :
    (id : ℕ) (msg : String) (events : List Event) (c : SseClient)
    → InOrder id events (offer msg c)
    → InOrder id (sent msg ∷ events) c
after_offer id msg events c (more, grown, sub) = elim (Bool-cases (ltb (length c.ch) 8)) [
  | inl room ↦ (
    msg ∷ more,
    grown
        ∙ ap (λ r. r ++ more) (rw room at (received-offer msg c))
        ∙ append_assoc (received c) (msg ∷ []) more,
    keep sub,
  )
  | inr full ↦ (more, grown ∙ ap (λ r. r ++ more) (rw full at (received-offer msg c)), skip sub)
]

client_run-InOrder : (id : ℕ) (events : List Event) (c : SseClient) → InOrder id events c
client_run-InOrder id [] c = ([], sym (append-nil (received c)), done)
client_run-InOrder id (connected flusher j ∷ events) c =
    from_step id (connected flusher j) events c refl refl (client_run-InOrder id events c)
client_run-InOrder id (disconnected j ∷ events) c =
    from_step id (disconnected j) events c refl refl (client_run-InOrder id events c)
client_run-InOrder id (flushed j ∷ events) c =
    from_step id (flushed j) events c (received-flushed id j c) refl
      (client_run-InOrder id events (client_step id (flushed j) c))
client_run-InOrder id (sent msg ∷ events) c =
    after_offer id msg events c (client_run-InOrder id events (offer msg c))

-- A client that is connected while the events take place has been sent, in the order of the
-- broadcasts, what it had before and then some of the messages that the events broadcast: none twice,
-- none that was not broadcast. The events neither end its request nor use its pointer for another one.
pub run_in_order :
    (id : ℕ) (events : List Event) (b : SseBroadcaster) (c : SseClient)
    → Stays id events
    → lookup id b.clients ≡ some c
    → (after : SseClient) × (more : List String) × (lookup id (run events b).clients ≡ some after)
      × (received after ≡ received c ++ more)
      × Sublist more (sent_in events)
run_in_order id events b c stays h =
    let (more, grown, sub) = client_run-InOrder id events c in
    (client_run id events c, more, lookup-run id events b c stays h, grown, sub)
