-- ===== src/Worker/FriendEvents.antt =====
-- chat/worker/impl: the workers of friend events, friend_to_push_worker.py, which tells the receiver,
-- and friend_to_psql_worker.py, which writes to the database; and rpc/push_service.py, through which
-- the first one calls the push service. A message of the broker is its delivery tag.
pub mod Acks
use tiny_chat_microservices.Prelude.{
  ℕ, zero, suc, ◌+◌, Bool, true, false, Option, none, some, List, [], ◌∷◌, ◌++◌, Outcome, returns,
  raises, unbound_local_error, ◌>>=◌, ltb, if◌then◌else◌,
}
use tiny_chat_microservices.Rpc
use tiny_chat_microservices.Rpc.{CallResult}
use tiny_chat_microservices.Redis.{Awaited}
use tiny_chat_microservices.Push.{PubStatus, push_success, push_offline}
use tiny_chat_microservices.Friends.{FriendOpStatus, friend_success}
use tiny_chat_microservices.Worker.Outbox.{user_online_check}

-- How a handler settles a message: `ack`, or `reject` with `requeue=True`.
pub data Settlement : Type 0 where
  acks requeues : Settlement

-- `push_data`
unfoldable pub push_data : CallResult PubStatus → Bool
push_data (Rpc.success push_success) = true
push_data (Rpc.success push_offline) = true
push_data _ = false

-- `push_to_gateway`, with the service that is found and what its call gives
unfoldable pub push_to_gateway : Option (CallResult PubStatus) → Bool
unfolding push_data
push_to_gateway none = false
push_to_gateway (some result) = push_data result

settle_online : Option Bool → Bool → Settlement
settle_online (some true) pushed = if pushed then acks else requeues
settle_online (some false) pushed = acks
settle_online none pushed = requeues

-- `_handler` of the push worker
unfoldable pub push_handler : Awaited ℕ → Option (CallResult PubStatus) → Settlement
unfolding settle_online push_to_gateway
push_handler answer service = settle_online (user_online_check answer) (push_to_gateway service)

-- `add_friend` and `confirm_friend` of the other worker, which have one body
unfoldable pub call_status : Option (CallResult FriendOpStatus) → Option FriendOpStatus
call_status none = none
call_status (some (Rpc.success status)) = some status
call_status (some (Rpc.failure kind info)) = none

-- Its `_handler`
unfoldable pub sql_handler : Option FriendOpStatus → Settlement
sql_handler (some friend_success) = acks
sql_handler _ = requeues

-- The counts of a worker, with whether the broker could be told: `succeed_count` and `failed_count`.
-- The push worker does not count the message of a user who is offline.
unfoldable pub count : Settlement → (told : Bool) → ℕ × ℕ → ℕ × ℕ
count acks true (succeeded, failed) = (succeeded + 1, failed)
count requeues true (succeeded, failed) = (succeeded, failed + 1)
count settlement false counts = counts

-- The last message of a queue that is read until it is empty. A Queue is always true, so that an empty
-- one is read, too, and then no message is assigned.
unfoldable pub drain : List ℕ → Outcome ℕ
drain [] = raises unbound_local_error
drain (tag ∷ []) = returns tag
drain (tag ∷ (next ∷ tags)) = drain (next ∷ tags)

-- `on_completed`: the message up to which the broker is to take all back
unfoldable pub on_completed : (requests confirms : List ℕ) → Outcome ℕ
unfolding drain
on_completed requests confirms = drain requests >>= λ request.
    drain confirms >>= λ confirm. returns (if ltb confirm request then request else confirm)
