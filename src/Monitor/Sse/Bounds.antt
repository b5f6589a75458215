-- ===== src/Monitor/Sse/Bounds.antt =====
-- No client of the event stream ever has more than a full buffer.
use monitower.Prelude.{
  ℕ, ◌≤◌, true, false, ◌==◌, String, List, [], ◌∷◌, Option, none, some, some-injective, length,
  length-append, ◌≡◌, refl, sym, subst, ◌∙◌, inl, inr, Bool-cases, arith, nat_eq,
}
use monitower.Prelude.Dict.{lookup, insert, lookup-insert, lookup-erase}
use monitower.Monitor.Sse.{
  SseClient, SseBroadcaster, Event, connected, disconnected, flushed, sent, new_sse_broadcaster,
  offer, new_client, flush_at, flush, flush_one, write_first, step, run, disconnect, broadcast,
}
use monitower.Monitor.Sse.Delivery.{offered, lookup-offer_all}

abbrev pub IsBounded : SseBroadcaster → Type 0
IsBounded b = (id : ℕ) (c : SseClient) → lookup id b.clients ≡ some c → length c.ch ≤ 8

offer_bounded : (msg : String) (c : SseClient) → length c.ch ≤ 8 → length (offer msg c).ch ≤ 8
unfolding offer
offer_bounded msg c h = ground (arith, length-append c.ch (msg ∷ []))

write_first_bounded :
    (written ch : List String) → length ch ≤ 8 → length (write_first written ch).ch ≤ 8
write_first_bounded written [] h = h
write_first_bounded written (msg ∷ ch) h = omega (arith, h)

-- An entry that is written anew is bounded if the new client is.
IsBounded-insert :
    (j : ℕ) (d : SseClient) (m : List (ℕ × SseClient))
    → length d.ch ≤ 8
    → IsBounded (record { clients = m })
    → IsBounded (record { clients = insert j d m })
IsBounded-insert j d m h bounded id c e = elim (Bool-cases (j == id)) [
  | inl same ↦
      subst (λ x. length x.ch ≤ 8)
        (some-injective d c (rw same at (sym (lookup-insert j id d m) ∙ e))) h
  | inr other ↦ bounded id c (rw other at (sym (lookup-insert j id d m) ∙ e))
]

flush-IsBounded :
    (j : ℕ) (o : Option SseClient) (b : SseBroadcaster)
    → lookup j b.clients ≡ o
    → IsBounded b
    → IsBounded (flush_at j o b)
unfolding flush_at flush_one
flush-IsBounded j none b e bounded = bounded
flush-IsBounded j (some d) b e bounded =
    IsBounded-insert j (flush_one d) b.clients (write_first_bounded d.written d.ch (bounded j d e))
      bounded

erased-IsBounded : (j : ℕ) (b : SseBroadcaster) → IsBounded b → IsBounded (disconnect j b)
unfolding disconnect
erased-IsBounded j b bounded id c h = elim (Bool-cases (j == id)) [
  | inl same ↦ absurd (none_ne_some (rw same at (sym (lookup-erase j id b.clients) ∙ h)))
  | inr other ↦ bounded id c (rw other at (sym (lookup-erase j id b.clients) ∙ h))
]
  where
    none_ne_some : ¬ (none ≡ some c)
    none_ne_some h = cc

offered-IsBounded : (msg : String) (b : SseBroadcaster) → IsBounded b → IsBounded (broadcast msg b)
unfolding broadcast
offered-IsBounded msg b bounded id c h =
    by_entry (lookup id b.clients) refl (sym (lookup-offer_all id msg b.clients) ∙ h)
  where
    by_entry :
        (o : Option SseClient) → lookup id b.clients ≡ o → offered msg o ≡ some c → length c.ch ≤ 8
    by_entry none e h = cc
    by_entry (some d) e h =
        subst (λ x. length x.ch ≤ 8) (some-injective (offer msg d) c h)
          (offer_bounded msg d (bounded id d e))

step-IsBounded : (e : Event) (b : SseBroadcaster) → IsBounded b → IsBounded (step e b)
unfolding step flush
step-IsBounded (connected false j) b bounded = bounded
step-IsBounded (connected true j) b bounded =
    IsBounded-insert j new_client b.clients (omega arith) bounded
step-IsBounded (disconnected j) b bounded = erased-IsBounded j b bounded
step-IsBounded (flushed j) b bounded = flush-IsBounded j (lookup j b.clients) b refl bounded
step-IsBounded (sent msg) b bounded = offered-IsBounded msg b bounded

-- Whatever clients and broadcasts do, in whatever order, no client ever has more than eight messages
-- waiting.
pub run-new-IsBounded : (events : List Event) → IsBounded (run events new_sse_broadcaster)
unfolding new_sse_broadcaster run
run-new-IsBounded events = kept events new_sse_broadcaster (λ id c h. cc)
  where
    kept : (events : List Event) (b : SseBroadcaster) → IsBounded b → IsBounded (run events b)
    kept [] b bounded = bounded
    kept (e ∷ events) b bounded = kept events (step e b) (step-IsBounded e b bounded)
