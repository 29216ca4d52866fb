-- ===== src/Examples/FriendEvents.antt =====
-- A friend event whose receiver has one gateway.
use tiny_chat_microservices.Prelude.{
  ℕ, ◌≡◌, refl, Bool, true, Option, some, List, [], ◌∷◌, returns, ◌⊎◌, arith,
}
use tiny_chat_microservices.Rpc
use tiny_chat_microservices.Rpc.{CallResult}
use tiny_chat_microservices.Redis.{Awaited, finished}
use tiny_chat_microservices.Push.{PubStatus, push_success, push_offline, push_event}
use tiny_chat_microservices.Worker.Outbox.{user_online_check}
use tiny_chat_microservices.Worker.FriendEvents.{push_handler, acks}
use tiny_chat_microservices.Worker.FriendEvents.Acks.{Told, push_handler-acks}

abbrev has_channel : ℕ → Bool
has_channel addr = true

abbrev confirms : ℕ → Option PubStatus
confirms addr = some push_success

abbrev one_gateway : Awaited (List ℕ)
one_gateway = finished (some (3 ∷ []))

abbrev reply : Option (CallResult PubStatus)
reply = some (Rpc.success push_success)

reply-push_event :
    (status : PubStatus)
    → reply ≡ some (Rpc.success status)
    → push_event has_channel confirms one_gateway ≡ returns status
unfolding push_event
reply-push_event status e = ground arith

event_acks : push_handler (finished (some 1)) reply ≡ acks
unfolding push_handler user_online_check
event_acks = refl

push_handler-acks_example :
    (◌≡◌ {A = Awaited ℕ} (finished (some 1)) (finished (some 0)))
    ⊎ (Told has_channel confirms one_gateway
        ⊎ (push_event has_channel confirms one_gateway ≡ returns push_offline))
push_handler-acks_example =
    push_handler-acks has_channel confirms one_gateway (finished (some 1)) reply reply-push_event
      event_acks
