-- ===== src/Simulator/Queue/Fanout.antt =====
-- What a send does to the queues of a topic.
use monitower.Prelude.{Bool, true, false, String, ◌≡◌, refl, ◌⊎◌, inl, inr, Bool-cases}
use monitower.Simulator.Queue.{
  Queue, Topic, topic, Topics, end, next, has_room, enqueue, send, send_all,
}

-- A condition on all queues of a topic.
unfoldable mutual
  pub AllRoom : (Queue → Bool) → Topic → Type 0
  AllRoom cancelled (topic q subscribers) =
      (cancelled q ≡ false) × (has_room q ≡ true) × AllRooms cancelled subscribers

  pub AllRooms : (Queue → Bool) → Topics → Type 0
  AllRooms cancelled end = Unit
  AllRooms cancelled (next t subscribers) = AllRoom cancelled t × AllRooms cancelled subscribers

unfoldable mutual
  pub map_topic : (Queue → Queue) → Topic → Topic
  map_topic f (topic q subscribers) = topic (f q) (map_topics f subscribers)

  pub map_topics : (Queue → Queue) → Topics → Topics
  map_topics f end = end
  map_topics f (next t subscribers) = next (map_topic f t) (map_topics f subscribers)

-- The two topics have one shape, and each queue is as before or has got the message once.
unfoldable mutual
  pub AtMostOnce : String → Topic → Topic → Type 0
  AtMostOnce msg (topic q subscribers) (topic q' subscribers') =
      ((q' ≡ q) ⊎ (q' ≡ enqueue msg q)) × AllAtMostOnce msg subscribers subscribers'

  pub AllAtMostOnce : String → Topics → Topics → Type 0
  AllAtMostOnce msg end end = Unit
  AllAtMostOnce msg end (next t' subscribers') = ⊥
  AllAtMostOnce msg (next t subscribers) end = ⊥
  AllAtMostOnce msg (next t subscribers) (next t' subscribers') =
      AtMostOnce msg t t' × AllAtMostOnce msg subscribers subscribers'

module _ (cancelled : Queue → Bool) (msg : String) where
  mutual
    unfolding send map_topic AllRoom

    send_topic :
        (t : Topic) → AllRoom cancelled t → send cancelled msg t ≡ (map_topic (enqueue msg) t, true)
    send_topic (topic q subscribers) (live, room, rooms) =
        rw (live, room, send_topics subscribers rooms) refl

    send_topics :
        (ts : Topics)
        → AllRooms cancelled ts
        → send_all cancelled msg ts ≡ (map_topics (enqueue msg) ts, true)
    send_topics end h = refl
    send_topics (next t ts) h = rw (send_topic t h.0, send_topics ts h.1) refl

mutual
  unfolding AtMostOnce

  same : (msg : String) (t : Topic) → AtMostOnce msg t t
  same msg (topic q subscribers) = (inl refl, all_same msg subscribers)

  all_same : (msg : String) (ts : Topics) → AllAtMostOnce msg ts ts
  all_same msg end = tt
  all_same msg (next t ts) = (same msg t, all_same msg ts)

module _ (cancelled : Queue → Bool) (msg : String) where
  mutual
    unfolding send AtMostOnce

    once : (t : Topic) → AtMostOnce msg t (send cancelled msg t).0
    once (topic q subscribers) = elim (Bool-cases (cancelled q)) [
      | inl e ↦ rw e (inl refl, all_same msg subscribers)
      | inr e ↦ elim (Bool-cases (has_room q)) [
        | inl room ↦ rw (e, room) (inr refl, all_once subscribers)
        | inr full ↦ rw (e, full) (inl refl, all_same msg subscribers)
      ]
    ]

    all_once : (ts : Topics) → AllAtMostOnce msg ts (send_all cancelled msg ts).0
    all_once end = tt
    all_once (next t ts) = elim (Bool-cases (send cancelled msg t).1) [
      | inl e ↦ rw e (once t, all_once ts)
      | inr e ↦ rw e (once t, all_same msg ts)
    ]

-- A send with room in every queue and no cancelled context returns, and appends the message to
-- the queue and to every queue subscribed to it, directly or through others.
pub send_fans_out :
    (cancelled : Queue → Bool) (msg : String) (t : Topic)
    → AllRoom cancelled t
    → send cancelled msg t ≡ (map_topic (enqueue msg) t, true)
send_fans_out cancelled msg t h = send_topic cancelled msg t h

-- Whatever is cancelled or full, also in a call that waits: each queue is as before, or has got
-- the message once.
pub send-AtMostOnce :
    (cancelled : Queue → Bool) (msg : String) (t : Topic)
    → AtMostOnce msg t (send cancelled msg t).0
send-AtMostOnce cancelled msg t = once cancelled msg t
