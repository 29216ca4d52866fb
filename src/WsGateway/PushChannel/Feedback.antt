-- ===== src/WsGateway/PushChannel/Feedback.antt =====
-- What the confirmations of a gateway do to the waiters of the push service.
use tiny_chat_microservices.Prelude.{
  ℕ, zero, suc, ◌+◌, ◌-◌, ◌≡◌, refl, sym, ap, ◌∙◌, Bool, ◌&&◌, Option, some, List, [], ◌∷◌, Dict,
  dict_get, ◌==◌, ltb, leb, arith, pos,
}
use tiny_chat_microservices.Messages.Spans.{Span, covers, any}
use tiny_chat_microservices.Messages.AckQueue.{contains}
use tiny_chat_microservices.Messages.AckQueue.Valid.{IsValid}
use tiny_chat_microservices.Messages.AckQueue.Contents.{contains-any}
use tiny_chat_microservices.Push.{
  PubStatus, push_success, EventChannel, Waiter, confirm, confirm_all, on_delivery,
}
use tiny_chat_microservices.Push.Feedback.{
  settled, settled-false, settled_twice, is_it, is_named, confirm-confirmations, on_delivery-waiter,
}
use tiny_chat_microservices.WsGateway.PushChannel.{PushChannel, confirms, consumer_feedback}

-- The push service takes the confirmations one after the other.
unfoldable pub receive_all : List Span → EventChannel → EventChannel
receive_all [] channel = channel
receive_all ((start, end) ∷ spans) channel =
    receive_all spans (on_delivery channel push_success start end)

-- The channel has waiter w under the id i and no other.
abbrev pub Under : Dict ℕ → ℕ → ℕ → Type 0
Under confirmations w i = (d : ℕ) → is_it w (dict_get confirmations d) ≡ (d == i)

named-range :
    (c : Dict ℕ) (w i start n : ℕ)
    → Under c w i
    → is_named c w start n ≡ (leb start i && ltb i (start + n))
named-range c w i start zero u = ground arith
named-range c w i start (suc n) u = ground (arith, u start, named-range c w i (start + 1) n u)

named-covers :
    (c : Dict ℕ) (w i start end : ℕ)
    → Under c w i
    → is_named c w start (end - start) ≡ covers (start, end) i
named-covers c w i start end u = ground (arith, named-range c w i start (end - start) u)

confirm_all-confirmations :
    (channel : EventChannel) (status : PubStatus) (start n : ℕ)
    → (confirm_all status channel start n).confirmations ≡ channel.confirmations
unfolding confirm_all
confirm_all-confirmations channel status start zero = refl
confirm_all-confirmations channel status start (suc n) =
    confirm_all-confirmations (confirm status channel start) status (start + 1) n
    ∙ confirm-confirmations status channel start

on_delivery-confirmations :
    (channel : EventChannel) (start end : ℕ)
    → (on_delivery channel push_success start end).confirmations ≡ channel.confirmations
unfolding on_delivery
on_delivery-confirmations channel start end =
    confirm_all-confirmations channel push_success start (end - start)

abbrev waiter : ℕ → Option PubStatus → Waiter
waiter i r = record { delivery_id = i; result = r }

receive_all-waiter :
    (d : Dict Span) (channel : EventChannel) (w i : ℕ) (r : Option PubStatus)
    → Under channel.confirmations w i
    → dict_get channel.waiters w ≡ some (record { delivery_id = i; result = r })
    → dict_get (receive_all (confirms d) channel).waiters w
      ≡ some (record { delivery_id = i; result = settled (any d i) push_success r })
unfolding receive_all confirms
receive_all-waiter [] channel w i r u h = rw (settled-false push_success r) h
receive_all-waiter ((j, (s, e)) ∷ d) channel w i r u h =
    let after = on_delivery channel push_success s e in
    let same = on_delivery-confirmations channel s e in
    let now =
      on_delivery-waiter channel push_success s e w i r h
      ∙ ap (λ b. some (waiter i (settled b push_success r)))
          (named-covers channel.confirmations w i s e u) in
    receive_all-waiter d after w i (settled (covers (s, e) i) push_success r)
      (λ k. ap (λ (c : Dict ℕ). is_it w (dict_get c k)) same ∙ u k) now
    ∙ ap (λ x. some (waiter i x)) (settled_twice (covers (s, e) i) (any d i) push_success r)

-- When a gateway sends a round of confirmations during which no acknowledgement comes in, the waiter
-- that the push service keeps for an event is given PUSH_SUCCESS if the gateway's queue contains the
-- event's number, unless it is done already, and stays as it is if not: what the sessions
-- acknowledged, in spans, is what the service is told.
pub receive_all-consumer_feedback :
    (gateway : PushChannel) (channel : EventChannel) (cancelled : Bool) (w i : ℕ)
    (r : Option PubStatus)
    → IsValid gateway.ack_queue
    → Under channel.confirmations w i
    → dict_get channel.waiters w ≡ some (record { delivery_id = i; result = r })
    → dict_get (receive_all (consumer_feedback cancelled gateway).0 channel).waiters w
      ≡ some (record {
        delivery_id = i;
        result = settled (contains gateway.ack_queue (pos i)) push_success r;
      })
unfolding consumer_feedback
receive_all-consumer_feedback gateway channel cancelled w i r v u h =
    receive_all-waiter gateway.ack_queue.spans channel w i r u h
    ∙ ap (λ b. some (waiter i (settled b push_success r)))
        (sym (contains-any gateway.ack_queue i v))
