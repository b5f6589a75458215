-- ===== src/Simulator/Payment/Ticks.antt =====
-- The ticks of the payment service: when it takes messages, and which.
use monitower.Prelude.{
  ℕ, zero, suc, ◌+◌, min, Bool, true, false, ◌||◌, if◌then◌else◌, String, List, [], ◌∷◌, ◌++◌,
  length, ◌≡◌, refl, sym, ap, ◌∙◌, arith,
}
use monitower.Simulator.Queue.{Queue, try_receive, receive_from, dequeue}
use monitower.Simulator.Payment.{PaymentService, poll, process_tick, took}

abbrev front : ℕ → List String → List String
front zero msgs = []
front (suc n) [] = []
front (suc n) (msg ∷ msgs) = msg ∷ front n msgs

abbrev behind : ℕ → List String → List String
behind zero msgs = msgs
behind (suc n) [] = []
behind (suc n) (msg ∷ msgs) = behind n msgs

-- The messages given away are the first of the queue, at most `n`, and those behind them stay.
pub record Takes (n : ℕ) (before after : Queue) (msgs : List String) : Type 0 where
  pub in_order : msgs ++ after.messages ≡ before.messages
  pub as_many : length msgs ≡ min n (length before.messages)
  pub dequeued : after.dequeued ≡ before.dequeued + length msgs
  pub enqueued : after.enqueued ≡ before.enqueued

-- One round of the loop, given the rounds after it.
round-Takes :
    (n : ℕ) (q : Queue)
    → ((r : Queue) → Takes n r (poll n r).0 (poll n r).1)
    → (msgs : List String) → q.messages ≡ msgs
    → (let r = receive_from msgs q in let t = took r (poll n r.0) in Takes (suc n) q t.0 t.1)
unfolding dequeue
round-Takes n q rest [] e = record {
  in_order = refl;
  as_many = ground (arith, ap length e);
  dequeued = omega arith;
  enqueued = refl;
}
round-Takes n q rest (m ∷ ms) e =
    let c = rest (dequeue ms q) in
    record {
      in_order = ap (◌∷◌ m) c.in_order ∙ sym e;
      as_many = ground (arith, ap length e, c.as_many);
      dequeued = omega (arith, c.dequeued);
      enqueued = c.enqueued;
    }

pub poll-Takes : (n : ℕ) (q : Queue) → Takes n q (poll n q).0 (poll n q).1
unfolding poll try_receive
poll-Takes zero q = record {
  in_order = refl;
  as_many = ground arith;
  dequeued = omega arith;
  enqueued = refl;
}
poll-Takes (suc n) q = round-Takes n q (poll-Takes n) q.messages refl

module _ {W : Type 0} (s : PaymentService W) (q : Queue) where
  abbrev Ticked : Bool → Bool → PaymentService W × Queue × List String → Type 0
  Ticked crashed should_crash (after, rest, msgs) =
      (after ≡ record s { crashed = should_crash })
      × Takes (if crashed || should_crash then 0 else 5) q rest msgs

  tick-Ticked :
      (crashed should_crash : Bool)
      → s.crashed ≡ crashed
      → Ticked crashed should_crash (
          if crashed
          then ((if should_crash then s else record s { crashed = false }), q, [])
          else if should_crash
          then (record s { crashed = true }, q, [])
          else (let r = poll 5 q in (s, r.0, r.1)))
  tick-Ticked true true e = (ap (λ b. record s { crashed = b }) e, unfold poll in poll-Takes 0 q)
  tick-Ticked true false e = (refl, unfold poll in poll-Takes 0 q)
  tick-Ticked false true e = (refl, unfold poll in poll-Takes 0 q)
  tick-Ticked false false e = (ap (λ b. record s { crashed = b }) e, poll-Takes 5 q)

-- The service after a tick, and what the tick takes from the queue: nothing while the service is
-- crashed or the fault crashes it, else the first five messages. A crashed service is up again after
-- a tick in which the fault has ended, and only takes messages from the next one on.
pub process_tick_cases :
    {W : Type 0} (should_crash : Bool) (s : PaymentService W) (q : Queue)
    → (let (after, rest, msgs) = process_tick should_crash s q in
        (after ≡ record s { crashed = should_crash })
        × Takes (if s.crashed || should_crash then 0 else 5) q rest msgs)
unfolding process_tick
process_tick_cases should_crash s q = tick-Ticked s q s.crashed should_crash refl
