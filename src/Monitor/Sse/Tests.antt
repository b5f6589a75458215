-- ===== src/Monitor/Sse/Tests.antt =====
-- Two clients of the event stream, one of which never reads.
use monitower.Prelude.{ℕ, true, String, List, [], ◌∷◌, ◌++◌, some, ◌≡◌, refl, arith, nat_eq}
use monitower.Prelude.Dict.{lookup}
use monitower.Monitor.Sse.{
  SseClient, SseBroadcaster, Event, connected, disconnected, flushed, sent, new_sse_broadcaster,
  new_client, run, broadcast_state, client_count,
}
use monitower.Monitor.Sse.Delivery.{Sublist, sent_in, received, run_in_order}
use monitower.Monitor.Sse.Buffers.{sent_delivered}
use monitower.Monitor.Sse.Bounds.{IsBounded, run-new-IsBounded}

abbrev ten_messages : List Event
ten_messages =
    sent "1"
    ∷ sent "2"
    ∷ sent "3"
    ∷ sent "4"
    ∷ sent "5"
    ∷ sent "6"
    ∷ sent "7"
    ∷ sent "8"
    ∷ sent "9"
    ∷ sent "10"
    ∷ []

abbrev two_clients : SseBroadcaster
two_clients = record { clients = (1, new_client) ∷ (2, new_client) ∷ [] }

abbrev reading : List Event
reading = flushed 2 ∷ sent "b" ∷ connected true 3 ∷ flushed 2 ∷ disconnected 1 ∷ []

connected_twice : run (connected true 1 ∷ connected true 2 ∷ []) new_sse_broadcaster ≡ two_clients
unfolding run new_sse_broadcaster
connected_twice = refl

slow_client_drops :
    lookup 1 (run (ten_messages) two_clients).clients
    ≡ some (record { ch = "1" ∷ "2" ∷ "3" ∷ "4" ∷ "5" ∷ "6" ∷ "7" ∷ "8" ∷ []; written = [] })
unfolding run
slow_client_drops = refl

state_frame :
    lookup 2 (broadcast_state {Snapshot = ℕ} (λ n. some "{}") 5 two_clients).clients
    ≡ some (record { ch = "event: state\ndata: {}\n\n" ∷ []; written = [] })
unfolding broadcast_state
state_frame = refl

one_left : client_count (run reading two_clients) ≡ 2
unfolding client_count run
one_left = refl

run_in_order_example :
    (after : SseClient) × (more : List String) × (lookup 1 (run ten_messages two_clients).clients
      ≡ some after)
    × (received after ≡ received new_client ++ more)
    × Sublist more (sent_in ten_messages)
run_in_order_example = run_in_order 1 ten_messages two_clients new_client tt refl

sent_delivered_example :
    (after : SseClient) × (more : List String) × (lookup 2
        (run (sent "a" ∷ reading) two_clients).clients
      ≡ some after)
    × (after.written ≡ received new_client ++ "a" ∷ more)
sent_delivered_example =
    sent_delivered 2 "a" reading two_clients new_client (refl, (refl, tt)) refl (omega arith)
      (omega arith)

run-new-IsBounded_example : IsBounded (run (connected true 1 ∷ ten_messages) new_sse_broadcaster)
run-new-IsBounded_example = run-new-IsBounded (connected true 1 ∷ ten_messages)
