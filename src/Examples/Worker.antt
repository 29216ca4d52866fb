-- ===== src/Examples/Worker.antt =====
-- Messages through the pacer and the consumers.
use tiny_chat_microservices.Prelude.{
  ℕ, ◌+◌, ◌≡◌, ◌≢◌, refl, true, false, not, ◌||◌, none, some, [], ◌∷◌, ◌⊎◌, ◌↔◌, dict_put,
}
use tiny_chat_microservices.Redis.{finished}
use tiny_chat_microservices.Worker.Pacer.{
  DeliveryInfo, fresh, new_item, begin, on_redis, on_handled_new_item,
}
use tiny_chat_microservices.Worker.Pacer.Runs.{
  Sender, call, answer, Reach, start, next, Distinct, Kept,
}
use tiny_chat_microservices.Worker.Pacer.Once.{accepted-Distinct}
use tiny_chat_microservices.Worker.Pacer.Advance.{IsNext, on_handled_new_item-IsNext}
use tiny_chat_microservices.Worker.Outbox.{
  dlq_all, dlq_session_only, Answers, on_message, event_handler,
}
use tiny_chat_microservices.Worker.Outbox.Delivery.{
  for_session, for_inbox, any, Drained, nothing_left, entry, on_message_accounts,
  event_handler_acks, delivered,
}

-- The message service is away, everything else works.
abbrev no_session : Answers
no_session = record {
  cass_message_service = none;
  downstream_service = some true;
  read_model_queue = true;
  dead_letter_queue = λ action. true;
}

abbrev all_well : Answers
all_well = record {
  cass_message_service = some true;
  downstream_service = some true;
  read_model_queue = true;
  dead_letter_queue = λ action. true;
}

on_message_accounts_example :
    ((on_message false no_session new_item fresh 1).0.acked ≡ true)
    × (any for_session (on_message false no_session new_item fresh 1).0.dead_letters
        ≡ not (on_message false no_session new_item fresh 1).0.session)
    × (any for_inbox (on_message false no_session new_item fresh 1).0.dead_letters
        ≡ not (on_message false no_session new_item fresh 1).0.inbox)
on_message_accounts_example =
    on_message_accounts no_session new_item fresh 1 (λ h. cc) (λ action. refl)

event_handler_acks_example : ((event_handler no_session dlq_all).acked ≡ true) ↔ (
    (for_session dlq_all ≡ true → (event_handler no_session dlq_all).session ≡ true)
    × (for_inbox dlq_all ≡ true → (event_handler no_session dlq_all).inbox ≡ true))
event_handler_acks_example = event_handler_acks no_session dlq_all

Drained-on_message :
    Drained (on_message false no_session new_item fresh 1).0.dead_letters true false
unfolding event_handler on_message
Drained-on_message = entry dlq_session_only all_well refl nothing_left

delivered_example :
    ((on_message false no_session new_item fresh 1).0.session || true ≡ true)
    × ((on_message false no_session new_item fresh 1).0.inbox || false ≡ true)
delivered_example =
    delivered no_session new_item fresh 1 true false (λ h. cc) (λ action. refl) Drained-on_message

abbrev two_taken : DeliveryInfo
two_taken = record {
  next_delivery_id = 4;
  delivery_ids = (4, 40) ∷ (5, 50) ∷ [];
  locked = false;
  redis_key = true;
}

on_handled_new_item-IsNext_example :
    ((4 ≡ two_taken.next_delivery_id)
      × ((k : ℕ) × (on_handled_new_item two_taken 4
            ≡ (record two_taken { next_delivery_id = k }, some k))
          × IsNext two_taken.delivery_ids (4 + 1) k))
    ⊎ ((4 ≢ two_taken.next_delivery_id) × (on_handled_new_item two_taken 4 ≡ (two_taken, none)))
on_handled_new_item-IsNext_example = on_handled_new_item-IsNext two_taken 4

abbrev after_one : Sender
after_one = record {
  info = record {
    next_delivery_id = 1;
    delivery_ids = (1, 10) ∷ [];
    locked = false;
    redis_key = true;
  };
  reader = none;
  accepted = 1 ∷ [];
}

one_taken : Reach after_one
unfolding begin on_redis dict_put
one_taken = next (next start (call 1 10)) (answer (finished (some (some 1))) 1 10 refl (λ h. cc))

accepted-Distinct_example :
    Distinct after_one.accepted × Kept after_one.info.delivery_ids after_one.accepted
accepted-Distinct_example = accepted-Distinct one_taken
