-- ===== src/Simulator/Queue/Tests.antt =====
-- Queues at work: two senders and a receiver that interleave, and a topic with a subscriber.
use monitower.Prelude.{Bool, true, false, [], ◌∷◌, ◌≡◌, refl}
use monitower.Simulator.Queue.{
  Queue, Topic, topic, end, new_queue, subscribe, send, enqueue, has_room, put, add_depth,
  sub_depth,
}
use monitower.Simulator.Queue.Counters.{
  System, start, puts, adds_depth, takes, subtracts_depth, Reach, here, later, IsCounted,
  Reach-IsCounted,
}
use monitower.Simulator.Queue.Fanout.{
  AllRoom, map_topic, AtMostOnce, send_fans_out, send-AtMostOnce,
}

abbrev orders : System
orders = start "order-queue" false

abbrev with_one : System
with_one = record orders { queue = put "a" orders.queue; before_depth = 1; sent = "a" ∷ [] }

abbrev taken : System
taken = record with_one {
  queue = record with_one.queue { messages = [] };
  after_take = 1;
  received = "a" ∷ [];
}

abbrev counted : System
counted = record taken { queue = add_depth taken.queue; before_depth = 0; before_enqueued = 1 }

abbrev settled : System
settled = record counted { queue = sub_depth counted.queue; after_take = 0; before_dequeued = 1 }

-- A message is put and taken before its sender counts it.
run : Reach orders settled
unfolding new_queue has_room put
run =
    later (later (later (later here (puts "a" refl)) (takes "a" [] refl)) (adds_depth 0 refl))
      (subtracts_depth 0 refl)

Reach-IsCounted_example : IsCounted settled
Reach-IsCounted_example = Reach-IsCounted "order-queue" false run

abbrev payments : Topic
payments = topic (new_queue "payment-queue" false) end

abbrev none_cancelled : Queue → Bool
none_cancelled q = false

fan_out :
    send none_cancelled "a" (subscribe "notification-queue" false payments)
    ≡ (map_topic (enqueue "a") (subscribe "notification-queue" false payments), true)
unfolding send map_topic subscribe new_queue
fan_out = refl

send_fans_out_example :
    send none_cancelled "a" (subscribe "notification-queue" false payments)
    ≡ (map_topic (enqueue "a") (subscribe "notification-queue" false payments), true)
unfolding subscribe new_queue has_room AllRoom
send_fans_out_example =
    send_fans_out none_cancelled "a" (subscribe "notification-queue" false payments)
      (refl, refl, ((refl, refl, tt), tt))

send-AtMostOnce_example :
    AtMostOnce "a"
      (subscribe "notification-queue" false payments)
      (send none_cancelled "a" (subscribe "notification-queue" false payments)).0
send-AtMostOnce_example =
    send-AtMostOnce none_cancelled "a" (subscribe "notification-queue" false payments)
