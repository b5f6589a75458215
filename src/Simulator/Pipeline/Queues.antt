-- ===== src/Simulator/Pipeline/Queues.antt =====
-- What sends and ticks do to the queues of the pipeline.
use monitower.Prelude.{
  Bool, true, false, String, List, [], ◌∷◌, ◌++◌, append-nil, append_assoc, ◌≡◌, refl, sym, ap,
  subst, ◌∙◌, inl, inr, Bool-cases,
}
use monitower.Simulator.Queue.{Queue, Topic, topic, end, next, has_room, enqueue, send}
use monitower.Simulator.Pipeline.{sends, added, take_from, take_from_sub}

-- What was taken from a queue and what waits in it are the texts sent to it, in order.
abbrev pub IsInOrder : List String → List String → Queue → Type 0
IsInOrder taken texts q = taken ++ q.messages ≡ texts

-- The same of a queue without subscribers, and of one with one subscriber.
unfoldable pub IsAlone : List String → List String → Topic → Type 0
IsAlone taken texts (topic q end) = IsInOrder taken texts q
IsAlone taken texts (topic q (next t ts)) = ⊥

unfoldable pub IsPair : List String → List String → List String → Topic → Type 0
IsPair taken by_sub texts (topic q end) = ⊥
IsPair taken by_sub texts (topic q (next (topic s end) end)) =
    IsInOrder taken texts q × IsInOrder by_sub texts s
IsPair taken by_sub texts (topic q (next (topic s end) (next t ts))) = ⊥
IsPair taken by_sub texts (topic q (next (topic s (next t ts)) us)) = ⊥

IsInOrder-enqueue :
    (taken texts : List String) (msg : String) (q : Queue)
    → IsInOrder taken texts q
    → IsInOrder taken (texts ++ msg ∷ []) (enqueue msg q)
unfolding enqueue
IsInOrder-enqueue taken texts msg q h =
    sym (append_assoc taken q.messages (msg ∷ [])) ∙ ap (λ l. l ++ msg ∷ []) h

abbrev live : Queue → Bool
live q = false

send-IsAlone :
    (taken texts : List String) (msg : String) (t : Topic)
    → IsAlone taken texts t
    → (send live msg t).1 ≡ true
    → IsAlone taken (texts ++ msg ∷ []) (send live msg t).0
unfolding IsAlone send
send-IsAlone taken texts msg (topic q end) h returned = elim (Bool-cases (has_room q)) [
  | inl e ↦ rw e (IsInOrder-enqueue taken texts msg q h)
  | inr e ↦ let no = rw e at returned in cc
]
send-IsAlone taken texts msg (topic q (next t ts)) h returned = absurd h

send-IsPair :
    (taken by_sub texts : List String) (msg : String) (t : Topic)
    → IsPair taken by_sub texts t
    → (send live msg t).1 ≡ true
    → IsPair taken by_sub (texts ++ msg ∷ []) (send live msg t).0
unfolding IsPair send
send-IsPair taken by_sub texts msg (topic q end) h returned = absurd h
send-IsPair taken by_sub texts msg (topic q (next (topic s end) end)) h returned =
    elim (Bool-cases (has_room q)) [
      | inl e ↦ elim (Bool-cases (has_room s)) [
        | inl room ↦
            rw (e, room)
              (IsInOrder-enqueue taken texts msg q h.0, IsInOrder-enqueue by_sub texts msg s h.1)
        | inr full ↦ let no = rw (e, full) at returned in cc
      ]
      | inr e ↦ let no = rw e at returned in cc
    ]
send-IsPair taken by_sub texts msg (topic q (next (topic s end) (next t ts))) h returned = absurd h
send-IsPair taken by_sub texts msg (topic q (next (topic s (next t ts)) us)) h returned = absurd h

-- A condition on a topic and the texts sent to it that every send keeps is kept by many.
pub sends_keep :
    (P : List String → Topic → Type 0)
    → ((texts : List String) (msg : String) (t : Topic)
        → P texts t
        → (send live msg t).1 ≡ true
        → P (texts ++ msg ∷ []) (send live msg t).0)
    → (msgs texts : List String) (t : Topic) → P texts t
    → (sends msgs t).1 ≡ true
    → P (texts ++ msgs) (sends msgs t).0
unfolding sends
sends_keep P one [] texts t h returned = subst (λ l. P l t) (sym (append-nil texts)) h
sends_keep P one (msg ∷ msgs) texts t h returned = elim (Bool-cases (send live msg t).1) [
  | inl e ↦ rw e (
      subst (λ l. P l (sends msgs (send live msg t).0).0) (append_assoc texts (msg ∷ []) msgs)
        (sends_keep P one msgs (texts ++ msg ∷ []) (send live msg t).0 (one texts msg t h e)
          (rw e at returned)))
  | inr e ↦ let no = rw e at returned in cc
]

pub sends-IsAlone :
    (taken msgs texts : List String) (t : Topic)
    → IsAlone taken texts t
    → (sends msgs t).1 ≡ true
    → IsAlone taken (texts ++ msgs) (sends msgs t).0
sends-IsAlone taken = sends_keep (IsAlone taken) (send-IsAlone taken)

pub sends-IsPair :
    (taken by_sub msgs texts : List String) (t : Topic)
    → IsPair taken by_sub texts t
    → (sends msgs t).1 ≡ true
    → IsPair taken by_sub (texts ++ msgs) (sends msgs t).0
sends-IsPair taken by_sub = sends_keep (IsPair taken by_sub) (send-IsPair taken by_sub)

-- A tick that takes the front of a queue.
abbrev pub TakesFront : (Queue → Queue × List String) → Type 0
TakesFront tick = (q : Queue) → (tick q).1 ++ (tick q).0.messages ≡ q.messages

IsInOrder-tick :
    (tick : Queue → Queue × List String)
    → TakesFront tick
    → (taken texts : List String) (q : Queue) → IsInOrder taken texts q
    → IsInOrder (taken ++ (tick q).1) texts (tick q).0
IsInOrder-tick tick front taken texts q h =
    append_assoc taken (tick q).1 (tick q).0.messages ∙ ap (λ l. taken ++ l) (front q) ∙ h

module _ (tick : Queue → Queue × List String) (front : TakesFront tick) where
  pub take_from-IsAlone :
      (taken texts : List String) (t : Topic)
      → IsAlone taken texts t
      → IsAlone (taken ++ (take_from tick t).1) texts (take_from tick t).0
  unfolding IsAlone
  take_from-IsAlone taken texts (topic q end) h = IsInOrder-tick tick front taken texts q h
  take_from-IsAlone taken texts (topic q (next t ts)) h = absurd h

  pub take_from-IsPair :
      (taken by_sub texts : List String) (t : Topic)
      → IsPair taken by_sub texts t
      → IsPair (taken ++ (take_from tick t).1) by_sub texts (take_from tick t).0
  unfolding IsPair
  take_from-IsPair taken by_sub texts (topic q end) h = absurd h
  take_from-IsPair taken by_sub texts (topic q (next (topic s end) end)) h =
      (IsInOrder-tick tick front taken texts q h.0, h.1)
  take_from-IsPair taken by_sub texts (topic q (next (topic s end) (next t ts))) h = absurd h
  take_from-IsPair taken by_sub texts (topic q (next (topic s (next t ts)) us)) h = absurd h

  pub take_from_sub-IsPair :
      (taken by_sub texts : List String) (t : Topic)
      → IsPair taken by_sub texts t
      → IsPair taken (by_sub ++ (take_from_sub tick t).1) texts (take_from_sub tick t).0
  unfolding IsPair
  take_from_sub-IsPair taken by_sub texts (topic q end) h = absurd h
  take_from_sub-IsPair taken by_sub texts (topic q (next (topic s end) end)) h =
      (h.0, IsInOrder-tick tick front by_sub texts s h.1)
  take_from_sub-IsPair taken by_sub texts (topic q (next (topic s end) (next t ts))) h = absurd h
  take_from_sub-IsPair taken by_sub texts (topic q (next (topic s (next t ts)) us)) h = absurd h

-- A list that only grew.
abbrev pub Grew {ℓ} : {A : Type ℓ} → List A → List A → Type ℓ
Grew before after = before ++ added before after ≡ after

pub Grew-append {ℓ} : {A : Type ℓ} (before more : List A) → Grew before (before ++ more)
unfolding added
Grew-append [] more = refl
Grew-append (x ∷ before) more = ap (◌∷◌ x) (Grew-append before more)

pub Grew-same {ℓ} : {A : Type ℓ} (l : List A) → Grew l l
Grew-same l = subst (Grew l) (append-nil l) (Grew-append l [])
