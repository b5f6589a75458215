-- ===== src/Monitor/Sse.antt =====
-- The event stream of internal/monitor/sse.go.
-- A client is known by its pointer, here a number. Its entry has the buffered channel, oldest message
-- first, and what was written to its response so far. The locked sections are single steps; the loop
-- of ServeHTTP takes one message at a time, and when it does so is left to the sequence of steps.
-- `encode` stands for json.Marshal, `none` for its error.
pub mod Delivery
pub mod Buffers
pub mod Bounds
pub mod Tests
use Prim.Native.String.{◌++◌ as concat}
use monitower.Prelude.{
  ℕ, Bool, true, false, if◌then◌else◌, ltb, String, List, [], ◌∷◌, ◌++◌, Option, none, some, length,
  nat_eq,
}
use monitower.Prelude.Dict.{lookup, insert, erase}

pub record SseClient : Type 0 where
  pub ch : List String
  pub written : List String

pub record SseBroadcaster : Type 0 where
  pub clients : List (ℕ × SseClient)

abbrev pub client_buffer : ℕ
client_buffer = 8

abbrev pub new_client : SseClient
new_client = record { ch = []; written = [] }

unfoldable pub new_sse_broadcaster : SseBroadcaster
new_sse_broadcaster = record { clients = [] }

-- The send that drops the message where the buffer is full.
unfoldable pub offer : String → SseClient → SseClient
offer msg c = if ltb (length c.ch) client_buffer then record c { ch = c.ch ++ msg ∷ [] } else c

unfoldable pub offer_all : String → List (ℕ × SseClient) → List (ℕ × SseClient)
unfolding offer
offer_all msg [] = []
offer_all msg ((id, c) ∷ clients) = (id, offer msg c) ∷ offer_all msg clients

unfoldable pub broadcast : String → SseBroadcaster → SseBroadcaster
unfolding offer_all
broadcast msg b = record { clients = offer_all msg b.clients }

abbrev pub frame : String → String → String
frame event data_text =
    concat "event: " (concat event (concat "\ndata: " (concat data_text "\n\n")))

-- The message of an event, if it could be encoded.
abbrev pub message : String → Option String → Option String
message event none = none
message event (some data_text) = some (frame event data_text)

abbrev pub broadcast_if_some : Option String → SseBroadcaster → SseBroadcaster
unfolding broadcast
broadcast_if_some none b = b
broadcast_if_some (some msg) b = broadcast msg b

-- `BroadcastState` and `BroadcastIncident`, on what `json.Marshal` made of the value.
unfoldable pub broadcast_state {ℓ} :
    {Snapshot : Type ℓ} → (Snapshot → Option String) → Snapshot → SseBroadcaster → SseBroadcaster
unfolding broadcast
broadcast_state encode snap b = broadcast_if_some (message "state" (encode snap)) b

unfoldable pub broadcast_incident {ℓ} :
    {Incident : Type ℓ} → (Incident → Option String) → Incident → SseBroadcaster → SseBroadcaster
unfolding broadcast
broadcast_incident encode inc b = broadcast_if_some (message "incident" (encode inc)) b

unfoldable pub client_count : SseBroadcaster → ℕ
client_count b = length b.clients

-- `ServeHTTP`: a response that cannot be flushed is refused with 500, any other is registered.
unfoldable pub connect : Bool → ℕ → SseBroadcaster → Option ℕ × SseBroadcaster
connect false id b = (some 500, b)
connect true id b = (none, record { clients = insert id new_client b.clients })

unfoldable pub disconnect : ℕ → SseBroadcaster → SseBroadcaster
disconnect id b = record { clients = erase id b.clients }

-- The loop takes a message from the channel and writes it to the response.
abbrev pub write_first : List String → List String → SseClient
write_first written [] = record { ch = []; written = written }
write_first written (msg ∷ ch) = record { ch = ch; written = written ++ msg ∷ [] }

unfoldable pub flush_one : SseClient → SseClient
flush_one c = write_first c.written c.ch

abbrev pub flush_at : ℕ → Option SseClient → SseBroadcaster → SseBroadcaster
unfolding flush_one
flush_at id none b = b
flush_at id (some c) b = record { clients = insert id (flush_one c) b.clients }

unfoldable pub flush : ℕ → SseBroadcaster → SseBroadcaster
unfolding flush_one
flush id b = flush_at id (lookup id b.clients) b

-- What can happen to the broadcaster, in the order in which the lock is taken.
pub data Event : Type 0 where
  connected : Bool → ℕ → Event
  disconnected : ℕ → Event
  flushed : ℕ → Event
  sent : String → Event

unfoldable pub step : Event → SseBroadcaster → SseBroadcaster
unfolding connect disconnect flush broadcast
step (connected flusher id) b = (connect flusher id b).1
step (disconnected id) b = disconnect id b
step (flushed id) b = flush id b
step (sent msg) b = broadcast msg b

unfoldable pub run : List Event → SseBroadcaster → SseBroadcaster
unfolding step
run [] b = b
run (e ∷ events) b = run events (step e b)
