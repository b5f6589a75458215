-- ===== src/Simulator/Queue/Counters.antt =====
-- The counters of a queue while senders, receivers and the metrics writer interleave.
use monitower.Prelude.{
  ℕ, suc, ◌+◌, ◌≤◌, Bool, true, String, List, [], ◌∷◌, ◌++◌, ◌≡◌, refl, sym, ap, ◌∙◌, length,
  length-append, append_assoc, arith,
}
use monitower.Prelude.Int.{pos, sub_ℕ, ◌+ℤ◌, ◌-ℤ◌}
use monitower.Simulator.Queue.{
  Queue, new_queue, has_room, put, add_depth, add_enqueued, sub_depth, add_dequeued, swap_enqueued,
  swap_dequeued,
}

-- A queue with the calls under way: senders that have put a message and are before the one or the
-- other counter, receivers likewise; all that was ever put and taken, in order; and the sums of the
-- counts that the metrics writer took.
pub record System : Type 0 where
  pub queue : Queue
  pub before_depth : ℕ
  pub before_enqueued : ℕ
  pub after_take : ℕ
  pub before_dequeued : ℕ
  pub sent : List String
  pub received : List String
  pub flushed_in : ℕ
  pub flushed_out : ℕ

abbrev pub start : String → Bool → System
start name is_dlq = record {
  queue = new_queue name is_dlq;
  before_depth = 0;
  before_enqueued = 0;
  after_take = 0;
  before_dequeued = 0;
  sent = [];
  received = [];
  flushed_in = 0;
  flushed_out = 0;
}

pub data Step (s : System) : System → Type 0 where
  puts :
      (msg : String)
      → has_room s.queue ≡ true
      → Step s (record s {
        queue = put msg s.queue;
        before_depth = suc s.before_depth;
        sent = s.sent ++ msg ∷ [];
      })
  adds_depth :
      (n : ℕ)
      → s.before_depth ≡ suc n
      → Step s (record s {
        queue = add_depth s.queue;
        before_depth = n;
        before_enqueued = suc s.before_enqueued;
      })
  adds_enqueued :
      (n : ℕ)
      → s.before_enqueued ≡ suc n
      → Step s (record s { queue = add_enqueued s.queue; before_enqueued = n })
  takes :
      (msg : String) (rest : List String)
      → s.queue.messages ≡ msg ∷ rest
      → Step s (record s {
        queue = record s.queue { messages = rest };
        after_take = suc s.after_take;
        received = s.received ++ msg ∷ [];
      })
  subtracts_depth :
      (n : ℕ)
      → s.after_take ≡ suc n
      → Step s (record s {
        queue = sub_depth s.queue;
        after_take = n;
        before_dequeued = suc s.before_dequeued;
      })
  adds_dequeued :
      (n : ℕ)
      → s.before_dequeued ≡ suc n
      → Step s (record s { queue = add_dequeued s.queue; before_dequeued = n })
  flushes_enqueued :
      Step s
        (record s { queue = swap_enqueued s.queue; flushed_in = s.flushed_in + s.queue.enqueued })
  flushes_dequeued :
      Step s
        (record s { queue = swap_dequeued s.queue; flushed_out = s.flushed_out + s.queue.dequeued })

pub data Reach (s : System) : System → Type 0 where
  here : Reach s s
  later : {t u : System} → Reach s t → Step t u → Reach s u

-- First in, first out; the buffer's bound; and every message is counted once, in the depth, in a
-- counter or in a row written, or belongs to a call that has not counted it yet.
pub record IsCounted (s : System) : Type 0 where
  pub fifo : s.received ++ s.queue.messages ≡ s.sent
  pub bounded : length s.queue.messages ≤ 1000
  pub depth : s.queue.depth ≡ sub_ℕ (length s.queue.messages + s.after_take) s.before_depth
  pub counted_in :
      s.flushed_in + s.queue.enqueued + s.before_enqueued + s.before_depth ≡ length s.sent
  pub counted_out :
      s.flushed_out + s.queue.dequeued + s.before_dequeued + s.after_take ≡ length s.received

sub_ℕ-add : (a b : ℕ) → sub_ℕ a (suc b) +ℤ pos 1 ≡ sub_ℕ a b
sub_ℕ-add a b = ground arith

sub_ℕ-sub : (a b : ℕ) → sub_ℕ (suc a) b -ℤ pos 1 ≡ sub_ℕ a b
sub_ℕ-sub a b = ground arith

sub_ℕ-suc : (a b : ℕ) → sub_ℕ (suc a) (suc b) ≡ sub_ℕ a b
sub_ℕ-suc a b = ground arith

start-IsCounted : (name : String) (is_dlq : Bool) → IsCounted (start name is_dlq)
unfolding new_queue
start-IsCounted name is_dlq = record {
  fifo = refl;
  bounded = omega arith;
  depth = refl;
  counted_in = refl;
  counted_out = refl;
}

Step-IsCounted : {s t : System} → Step s t → IsCounted s → IsCounted t
unfolding has_room put add_depth add_enqueued sub_depth add_dequeued swap_enqueued swap_dequeued
Step-IsCounted {s} (puts msg room) c = record {
  fifo = sym (append_assoc s.received s.queue.messages (msg ∷ [])) ∙ ap (λ l. l ++ msg ∷ []) c.fifo;
  bounded = ground (arith, room, length-append s.queue.messages (msg ∷ []));
  depth =
      c.depth
      ∙ sym (sub_ℕ-suc (length s.queue.messages + s.after_take) s.before_depth)
      ∙ ap (λ n. sub_ℕ n (suc s.before_depth))
          (omega (arith, length-append s.queue.messages (msg ∷ [])));
  counted_in = omega (arith, c.counted_in, length-append s.sent (msg ∷ []));
  counted_out = c.counted_out;
}
Step-IsCounted {s} (adds_depth n e) c = record {
  fifo = c.fifo;
  bounded = c.bounded;
  depth = ap (λ d. d +ℤ pos 1) (c.depth ∙ ap (sub_ℕ _) e) ∙ sub_ℕ-add _ n;
  counted_in = omega (arith, c.counted_in, e);
  counted_out = c.counted_out;
}
Step-IsCounted {s} (adds_enqueued n e) c = record {
  fifo = c.fifo;
  bounded = c.bounded;
  depth = c.depth;
  counted_in = omega (arith, c.counted_in, e);
  counted_out = c.counted_out;
}
Step-IsCounted {s} (takes msg rest e) c = record {
  fifo = append_assoc s.received (msg ∷ []) rest ∙ ap (◌++◌ s.received) (sym e) ∙ c.fifo;
  bounded = omega (arith, c.bounded, ap length e);
  depth = c.depth ∙ ap (λ n. sub_ℕ n s.before_depth) (omega (arith, ap length e));
  counted_in = c.counted_in;
  counted_out = omega (arith, c.counted_out, length-append s.received (msg ∷ []));
}
Step-IsCounted {s} (subtracts_depth n e) c = record {
  fifo = c.fifo;
  bounded = c.bounded;
  depth =
      ap (λ d. d -ℤ pos 1) (c.depth ∙ ap (λ m. sub_ℕ m s.before_depth) (omega (arith, e)))
      ∙ sub_ℕ-sub (length s.queue.messages + n) s.before_depth;
  counted_in = c.counted_in;
  counted_out = omega (arith, c.counted_out, e);
}
Step-IsCounted {s} (adds_dequeued n e) c = record {
  fifo = c.fifo;
  bounded = c.bounded;
  depth = c.depth;
  counted_in = c.counted_in;
  counted_out = omega (arith, c.counted_out, e);
}
Step-IsCounted {s} flushes_enqueued c = record {
  fifo = c.fifo;
  bounded = c.bounded;
  depth = c.depth;
  counted_in = omega (arith, c.counted_in);
  counted_out = c.counted_out;
}
Step-IsCounted {s} flushes_dequeued c = record {
  fifo = c.fifo;
  bounded = c.bounded;
  depth = c.depth;
  counted_in = c.counted_in;
  counted_out = omega (arith, c.counted_out);
}

-- However the atomic steps of senders, receivers and the metrics writer interleave on a new queue:
-- the messages taken and those in the buffer are the messages put, in order; the buffer holds at most
-- 1000; the depth is off by the calls that have not counted theirs yet; and the counters with the
-- counts that the writer took and those calls make up the numbers of messages put and taken.
pub Reach-IsCounted :
    (name : String) (is_dlq : Bool) {s : System} → Reach (start name is_dlq) s → IsCounted s
Reach-IsCounted name is_dlq here = start-IsCounted name is_dlq
Reach-IsCounted name is_dlq (later r x) = Step-IsCounted x (Reach-IsCounted name is_dlq r)

-- With no call under way the depth is the number of messages in the buffer.
pub depth_at_rest :
    (name : String) (is_dlq : Bool) {s : System}
    → Reach (start name is_dlq) s
    → s.before_depth ≡ 0
    → s.after_take ≡ 0
    → s.queue.depth ≡ pos (length s.queue.messages)
depth_at_rest name is_dlq {s} r no_sender no_receiver =
    (Reach-IsCounted name is_dlq r).depth
    ∙ ap (sub_ℕ _) no_sender
    ∙ ap (λ n. sub_ℕ (length s.queue.messages + n) 0) no_receiver
    ∙ ground arith
