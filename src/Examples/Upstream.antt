-- ===== src/Examples/Upstream.antt =====
-- The same message, delivered twice.
use tiny_chat_microservices.Prelude.{ℕ, ◌≡◌, true, false, Option, none, some, List, [], ◌∷◌, ◌↔◌}
use tiny_chat_microservices.Rpc
use tiny_chat_microservices.Rpc.{CallResult}
use tiny_chat_microservices.Upstream.{Message, deliver_message}
use tiny_chat_microservices.Upstream.Forgets.{
  Success, Event, publish_start, check, run, deliver_message-run,
}

abbrev hello : Message
hello = record { sender_id = 7; delivery_id = 1; message_id = 0 }

abbrev delivered_once : List Event
delivered_once = publish_start 10 hello ∷ check 9 9 none hello ∷ []

abbrev snowflake : Option (CallResult ℕ)
snowflake = some (Rpc.success 99)

deliver_message-run_example :
    Success
      (deliver_message false true false 12 12 none snowflake hello (run delivered_once))
      hello
      99
    ↔ ((snowflake ≡ some (Rpc.success 99)) × (false ≡ false) × (true ≡ true))
deliver_message-run_example =
    deliver_message-run delivered_once false true 12 12 none snowflake hello 99
