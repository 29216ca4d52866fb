-- ===== src/Examples/Push.antt =====
-- An event pushed to the gateways of a user.
use tiny_chat_microservices.Prelude.{
  arith, ℕ, zero, suc, ◌+◌, ◌-◌, ◌^◌, ◌<◌, ◌≡◌, ◌≢◌, refl, Bool, true, false, Option, none, some,
  List, [], ◌∷◌, returns, ◌↔◌, dict_get,
}
use tiny_chat_microservices.Redis.{finished}
use tiny_chat_microservices.Push.{
  PubStatus, push_success, push_failed, EventChannel, publish, on_delivery, push_event,
}
use tiny_chat_microservices.Push.Feedback.{
  Numbered, settled, is_named, on_delivery-waiter, publish-on_delivery,
}
use tiny_chat_microservices.Push.Handler.{all, confirmed, push_event-success}

abbrev two_sent : EventChannel
two_sent = record {
  queue = [];
  confirmations = (4, 0) ∷ (5, 1) ∷ [];
  delivery_id = 5;
  waiters =
      (0, record { delivery_id = 4; result = none })
      ∷ (1, record { delivery_id = 5; result = none })
      ∷ [];
  created = 2;
  scheduled = [];
}

on_delivery-waiter_example :
    dict_get (on_delivery two_sent push_failed 3 6).waiters 1
    ≡ some (record {
      delivery_id = 5;
      result = settled (is_named two_sent.confirmations 1 3 (6 - 3)) push_failed none;
    })
unfolding dict_get
on_delivery-waiter_example = on_delivery-waiter two_sent push_failed 3 6 1 5 none refl

two_sent-Numbered : Numbered two_sent
unfolding Numbered dict_get
two_sent-Numbered = λ w h. ground arith

publish-on_delivery_example :
    let (after, w) = publish two_sent in
    (dict_get two_sent.waiters w ≡ none)
    × Numbered after
    × (after.delivery_id < 2 ^ 32)
    × (dict_get after.waiters w ≡ some (record { delivery_id = after.delivery_id; result = none }))
    × (dict_get (on_delivery after push_success after.delivery_id (after.delivery_id + 1)).waiters w
        ≡ some (record { delivery_id = after.delivery_id; result = some push_success }))
publish-on_delivery_example = publish-on_delivery two_sent push_success two_sent-Numbered

abbrev even : ℕ → Bool
even zero = true
even (suc zero) = false
even (suc (suc n)) = even n

abbrev all_confirm : ℕ → Option PubStatus
all_confirm a = some push_success

push_event-success_example :
    (push_event even all_confirm (finished (some (2 ∷ 4 ∷ 2 ∷ []))) ≡ returns push_success) ↔ (
      (results : List ℕ) × (finished (some (2 ∷ 4 ∷ 2 ∷ [])) ≡ finished (some results))
      × (results ≢ [])
      × (all (confirmed even all_confirm) results ≡ true))
push_event-success_example = push_event-success even all_confirm (finished (some (2 ∷ 4 ∷ 2 ∷ [])))
