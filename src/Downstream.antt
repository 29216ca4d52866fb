-- ===== src/Downstream.antt =====
-- chat/microservices/downstream: downstream_service.py, which writes messages to the inbox of their
-- receiver and pushes them, with the client of the message storage (rpc/cass_storage_service.py).
-- `ready_to_push` of utils/mixin.py has the body of the one in chat/worker/utils/mixin.py.
pub mod Delivery
use tiny_chat_microservices.Prelude.{
  ℕ, Bool, true, false, Option, none, some, List, [], ◌&&◌, Outcome, returns, if◌then◌else◌,
}
use tiny_chat_microservices.Rpc
use tiny_chat_microservices.Rpc.{CallResult}
use tiny_chat_microservices.Redis.{Awaited}
use tiny_chat_microservices.Storage.{CassMsgCode, cass_msg_success, Row, CassInboxReply}
use tiny_chat_microservices.Worker.Outbox.{ready_to_push}
use tiny_chat_microservices.Worker.FriendEvents.{Settlement, acks, requeues}

-- `write_to_inbox` of the client
unfoldable pub write_to_inbox : CallResult CassMsgCode → Bool
write_to_inbox (Rpc.success cass_msg_success) = true
write_to_inbox _ = false

-- `handle_inbox`; the service is `none` if `find_service` gives None.
unfoldable pub handle_inbox : Option (CallResult CassMsgCode) → Bool
unfolding write_to_inbox
handle_inbox none = false
handle_inbox (some result) = write_to_inbox result

-- What the push of a message meets: the answer of Redis, the push service, and its queue.
pub record PushAnswers : Type 0 where
  pub online : Awaited ℕ
  pub push_service : Option Bool
  pub queue : Bool

unfoldable pub pushes : PushAnswers → Bool
unfolding ready_to_push
pushes a = (ready_to_push a.online a.push_service a.queue).result

-- `consume_event`
unfoldable pub consume_event : Option (CallResult CassMsgCode) → PushAnswers → Settlement
unfolding handle_inbox pushes
consume_event service a =
    if handle_inbox service then (if pushes a then acks else requeues) else requeues

-- The statuses of a read model; `PullInboxMsg` and `DeliverReadEvent` do not return the second.
pub data ReadModelStatus : Type 0 where
  read_model_success read_model_timeout read_model_failed read_model_other : ReadModelStatus

-- `DeliverReadEvent`
unfoldable pub deliver_read_event :
    (single_chat : Bool) → Option (CallResult CassMsgCode) → PushAnswers → ReadModelStatus
unfolding handle_inbox pushes
deliver_read_event single_chat service a =
    if single_chat
    then if handle_inbox service
      then (if pushes a then read_model_success else read_model_failed)
      else read_model_failed
    else read_model_failed

-- `read_inbox` of the client
unfoldable pub read_inbox : CallResult CassInboxReply → Option (List Row)
read_inbox (Rpc.success reply) = elim reply.code [
  | cass_msg_success ↦ some reply.messages
  | _ ↦ none
]
read_inbox (Rpc.failure kind i) = none

pub record PullInboxReply : Type 0 where
  pub status : ReadModelStatus
  pub messages : List Row

unfoldable pub pulled : Option (List Row) → PullInboxReply
pulled none = record { status = read_model_failed; messages = [] }
pulled (some data') = record { status = read_model_success; messages = data' }

-- `PullInboxMsg`; the service takes the user and the highest id that the user has.
unfoldable pub pull_inbox_msg :
    Option ((uid last_max_msg_id : ℕ) → CallResult CassInboxReply)
    → (uid received_max_msg_id : ℕ) → PullInboxReply
unfolding read_inbox pulled
pull_inbox_msg none uid received_max_msg_id = pulled none
pull_inbox_msg (some service) uid received_max_msg_id =
    pulled (read_inbox (service uid received_max_msg_id))
