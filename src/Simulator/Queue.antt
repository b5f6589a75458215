-- ===== src/Simulator/Queue.antt =====
-- The in-memory queues of internal/simulator/queue.go.
-- The channel is a list with the bound of its buffer. A queue that is subscribed is made by the call
-- itself, so the queues of a topic are a tree. The argument `cancelled` says of a select whether it
-- takes the branch of the cancelled context; a send to a full buffer that takes the other one waits.
pub mod Counters
pub mod Fanout
pub mod Tests
use monitower.Prelude.{
  ℕ, zero, suc, ◌+◌, Bool, true, false, ltb, if◌then◌else◌, String, List, [], ◌∷◌, ◌++◌, Option,
  none, some, length,
}
use monitower.Float64.{Float64, of_int, div}
use monitower.Prelude.Int.{ℤ, pos, ◌+ℤ◌, ◌-ℤ◌}

abbrev pub queue_buffer_size : ℕ
queue_buffer_size = 1000

pub record Queue : Type 0 where
  pub name : String
  pub is_dlq : Bool
  pub messages : List String
  pub depth : ℤ
  pub enqueued : ℕ
  pub dequeued : ℕ

unfoldable pub new_queue : String → Bool → Queue
new_queue name is_dlq = record {
  name = name;
  is_dlq = is_dlq;
  messages = [];
  depth = pos 0;
  enqueued = 0;
  dequeued = 0;
}

unfoldable pub has_room : Queue → Bool
has_room q = ltb (length q.messages) queue_buffer_size

-- The atomic steps: the channel and the counters are not under one lock.
unfoldable pub put : String → Queue → Queue
put msg q = record q { messages = q.messages ++ msg ∷ [] }

unfoldable pub add_depth : Queue → Queue
add_depth q = record q { depth = q.depth +ℤ pos 1 }

unfoldable pub add_enqueued : Queue → Queue
add_enqueued q = record q { enqueued = q.enqueued + 1 }

unfoldable pub sub_depth : Queue → Queue
sub_depth q = record q { depth = q.depth -ℤ pos 1 }

unfoldable pub add_dequeued : Queue → Queue
add_dequeued q = record q { dequeued = q.dequeued + 1 }

-- A send or a receive that nothing comes between.
unfoldable pub enqueue : String → Queue → Queue
unfolding put add_depth add_enqueued
enqueue msg q = add_enqueued (add_depth (put msg q))

unfoldable pub dequeue : List String → Queue → Queue
unfolding sub_depth add_dequeued
dequeue rest q = add_dequeued (sub_depth (record q { messages = rest }))

abbrev pub receive_from : List String → Queue → Queue × Option String
unfolding dequeue
receive_from [] q = (q, none)
receive_from (msg ∷ rest) q = (dequeue rest q, some msg)

-- No message is `none` here, and `("", false)` there.
unfoldable pub try_receive : Queue → Queue × Option String
unfolding dequeue
try_receive q = receive_from q.messages q

-- `Receive`: a select on the channel and the context, the context's branch drains one message. The
-- first component says whether the call returns; an empty queue under a live context waits.
unfoldable pub receive : Bool → Queue → Bool × Queue × Option String
unfolding try_receive
receive done q =
    let (after, msg) = try_receive q in
    (if ltb 0 (length q.messages) then true else done, after, msg)

-- What one write takes from the counters: they are swapped with 0.
unfoldable pub swap_enqueued : Queue → Queue
swap_enqueued q = record q { enqueued = 0 }

unfoldable pub swap_dequeued : Queue → Queue
swap_dequeued q = record q { dequeued = 0 }

-- A row of queue_metrics, but for its id.
pub record QueueMetricsRow (W : Type 0) : Type 0 where
  pub ts : ℕ
  pub queue : String
  pub depth : ℤ
  pub enqueue_rate : W
  pub dequeue_rate : W
  pub dlq : ℕ

-- One write that nothing comes between: the queue after it, and the row for the database.
unfoldable pub write_metrics :
    {W : Type 0} ⦃f : Float64 W⦄ → ℕ → W → Queue → Queue × QueueMetricsRow W
unfolding swap_enqueued swap_dequeued
write_metrics ts elapsed_sec q = (
  swap_dequeued (swap_enqueued q),
  record {
    ts = ts;
    queue = q.name;
    depth = q.depth;
    enqueue_rate = div (of_int q.enqueued) elapsed_sec;
    dequeue_rate = div (of_int q.dequeued) elapsed_sec;
    dlq = if q.is_dlq then 1 else 0;
  },
)

-- A queue with the queues that are subscribed to it, in order.
mutual
  pub data Topic : Type 0 where
    topic : Queue → Topics → Topic

  pub data Topics : Type 0 where
    end : Topics
    next : Topic → Topics → Topics

abbrev pub append : Topics → Topic → Topics
append end t = next t end
append (next u subscribers) t = next u (append subscribers t)

unfoldable pub subscribe : String → Bool → Topic → Topic
unfolding new_queue
subscribe name is_dlq (topic q subscribers) =
    topic q (append subscribers (topic (new_queue name is_dlq) end))

-- `Send`, and the loop over the subscribers. The second component says whether the call returns.
unfoldable mutual
  unfolding has_room enqueue

  pub send : (Queue → Bool) → String → Topic → Topic × Bool
  send cancelled msg (topic q subscribers) =
      let r = send_all cancelled msg subscribers in
      if cancelled q
      then (topic q subscribers, true)
      else if has_room q
      then (topic (enqueue msg q) r.0, r.1)
      else (topic q subscribers, false)

  pub send_all : (Queue → Bool) → String → Topics → Topics × Bool
  send_all cancelled msg end = (end, true)
  send_all cancelled msg (next t subscribers) =
      let r = send cancelled msg t in
      let rest = send_all cancelled msg subscribers in
      if r.1 then (next r.0 rest.0, rest.1) else (next r.0 subscribers, false)
