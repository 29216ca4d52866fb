-- ===== src/Examples/Storage.antt =====
-- Messages that are counted, stored and pulled.
use tiny_chat_microservices.Prelude.{
  ℕ, ◌≡◌, ◌≤◌, refl, Bool, true, false, none, some, List, [], ◌∷◌, times,
}
use tiny_chat_microservices.Redis.{finished}
use tiny_chat_microservices.Storage
use tiny_chat_microservices.Storage.{Row, Written, wrote, cass_msg_success}
use tiny_chat_microservices.Storage.Slots.{
  Event, begins, goes_on, answered, run, empty_system, in_buckets, run-once, no_rollback,
}
use tiny_chat_microservices.Storage.Inbox.{copies, first_copy}
use tiny_chat_microservices.Gateway.Inbox.{pull_inbox}
use tiny_chat_microservices.Downstream.{
  pull_inbox_msg, PushAnswers, pushes, consume_event, deliver_read_event, read_model_success,
}
use tiny_chat_microservices.Downstream.Delivery.{
  downstream_service, pull_inbox_sound, consume_event-success,
}
use tiny_chat_microservices.Examples.Libraries.{direct_channel}

-- Two processes count messages of one session.
abbrev events : List Event
events = begins 1 ∷ answered 1 ∷ begins 2 ∷ answered 2 ∷ begins 1 ∷ goes_on 2 false ∷ begins 1 ∷ []

run-once_example :
    (times (run empty_system events).given 101 ≤ 1)
    × (in_buckets (run empty_system events).given (run empty_system events).buckets ≡ true)
run-once_example = run-once events 101 (unfold no_rollback in refl)

counted_values : (run empty_system events).given ≡ 2 ∷ 101 ∷ 1 ∷ 100 ∷ 0 ∷ []
unfolding run
counted_values = refl

abbrev row : (message_id : ℕ) → Row
row message_id = record {
  sender_id = 7;
  sender_seq = 1;
  message_id = message_id;
  channel_id = 3;
  content = 5;
}

-- A message that was delivered twice
abbrev inbox : (uid last : ℕ) → Written (List Row)
inbox uid last = wrote (row 20 ∷ row 21 ∷ [])

pull_inbox_sound_example :
    (last : ℕ) × (found : List Row) × (some (some 10) ≡ some (some last))
    × (inbox 9 last ≡ wrote found)
    × (copies (row 20 ∷ []) (row 21) ≤ 1)
    × (first_copy (row 20 ∷ []) (row 21) ≡ first_copy found (row 21))
unfolding pull_inbox downstream_service pull_inbox_msg Storage.read_inbox
pull_inbox_sound_example =
    pull_inbox_sound direct_channel direct_channel inbox false 9 (some (some 10)) (row 20 ∷ [])
      (row 21) refl

abbrev offline : PushAnswers
offline = record { online = finished (some 0); push_service = none; queue = false }

consume_event-success_example :
    (b : Bool) × (wrote true ≡ wrote b)
    × (pushes offline ≡ true)
    × (deliver_read_event true
          (some (direct_channel.deliver (Storage.write_to_inbox (wrote true) false)))
          offline
        ≡ read_model_success)
unfolding consume_event Storage.write_to_inbox
consume_event-success_example = consume_event-success direct_channel (wrote true) false offline refl
