-- ===== src/Upstream.antt =====
-- chat/microservices/upstream: the tracer of published messages and `DeliverMessage`
-- (upstream_service.py), and the publishing itself (rmq/service.py). The stream's answer, the id
-- service and the clock are arguments.
pub mod Forgets
use tiny_chat_microservices.Prelude.{
  ℕ, zero, suc, ◌+◌, ◌-◌, Bool, true, false, ◌&&◌, Option, none, some, List, [], ◌∷◌, Outcome,
  returns, raises, key_error, Dict, dict_get, dict_put, if◌then◌else◌, ltb, leb, ◌==◌,
}
use tiny_chat_microservices.Rpc
use tiny_chat_microservices.Rpc.{CallResult, GrpcFailure, timeout}
use tiny_chat_microservices.Users.{unless_cancelled}

-- `PublishState` and `MessageMetadata`; `event` says whether the event is set, and times are
-- seconds of the monotonic clock
pub data PublishState : Type 0 where
  inflight success failure : PublishState

pub record MessageMetadata : Type 0 where
  pub message_id : ℕ
  pub timestamp : ℕ
  pub state : PublishState
  pub event : Bool

-- `is_valid`
unfoldable pub is_valid : ℕ → MessageMetadata → Bool
is_valid now metadata = elim metadata.state [
  | success ↦ leb metadata.timestamp now && ltb (now - metadata.timestamp) 30
  | _ ↦ false
]

-- The fields of `RStreamMsgData` that are used.
pub record Message : Type 0 where
  pub sender_id : ℕ
  pub delivery_id : ℕ
  pub message_id : ℕ

-- `cache`: a reading of `cache[sender_id]` that finds nothing puts an empty dict there
abbrev pub Cache : Type 0
Cache = Dict (Dict MessageMetadata)

or_empty : Option (Dict MessageMetadata) → Dict MessageMetadata
or_empty none = []
or_empty (some inner) = inner

unfoldable pub of_sender : Cache → ℕ → Dict MessageMetadata
unfolding or_empty
of_sender cache sender_id = or_empty (dict_get cache sender_id)

abbrev pub touch : Cache → ℕ → Cache
touch cache sender_id = dict_put cache sender_id (of_sender cache sender_id)

-- A change of a metadata object that the cache holds.
abbrev pub store : Cache → Message → MessageMetadata → Cache
store cache message metadata =
    dict_put cache message.sender_id
      (dict_put (of_sender cache message.sender_id) message.delivery_id metadata)

start_found : Cache → ℕ → Message → Option MessageMetadata → Cache
start_found cache now message none = touch cache message.sender_id
start_found cache now message (some metadata) =
    store cache message
      (record { message_id = message.message_id; timestamp = now; state = inflight; event = false })

-- `on_publish_start`: new metadata are bound to a local variable only
unfoldable pub on_publish_start : Cache → ℕ → Message → Cache
unfolding start_found
on_publish_start cache now message =
    start_found cache now message (dict_get (of_sender cache message.sender_id) message.delivery_id)

failure_found : Cache → Message → Option MessageMetadata → Outcome (Unit {0}) × Cache
failure_found cache message none = (raises key_error, touch cache message.sender_id)
failure_found cache message (some metadata) =
    (returns tt, store cache message (record metadata { state = failure; event = true }))

-- `on_publish_failure`
unfoldable pub on_publish_failure : Cache → Message → Outcome (Unit {0}) × Cache
unfolding failure_found
on_publish_failure cache message =
    failure_found cache message (dict_get (of_sender cache message.sender_id) message.delivery_id)

-- What `conflict_check` returns: -1, or a message id, where 0 stands for none.
pub data Check : Type 0 where
  still_waiting : Check
  id : ℕ → Check

recheck : ℕ → Option MessageMetadata → Check
recheck now none = still_waiting
recheck now (some metadata) = if is_valid now metadata then id metadata.message_id else id 0

check_found : (now later : ℕ) → Option MessageMetadata → Option MessageMetadata → Check
unfolding recheck
check_found now later waited none = id 0
check_found now later waited (some metadata) =
    if is_valid now metadata
    then id metadata.message_id
    else elim metadata.state [ inflight ↦ recheck later waited | _ ↦ id 0 ]

-- `conflict_check`, with the cache that it leaves at once: `waited` is the metadata as the wait for
-- its event finds it, `none` if the wait timed out
unfoldable pub conflict_check :
    Cache → (now later : ℕ) → Option MessageMetadata → Message → Check × Cache
unfolding check_found
conflict_check cache now later waited message = (
  check_found now later waited (dict_get (of_sender cache message.sender_id) message.delivery_id),
  touch cache message.sender_id,
)

-- What a call leaves: the message that it has handed to the stream, if any, and the cache.
pub record Left : Type 0 where
  pub published : Option Message
  pub cache : Cache

-- `publish_message`: whether the service is closing, and whether the stream confirms in time
unfoldable pub publish_message : (closing confirmed : Bool) → Cache → ℕ → Message → Bool × Left
publish_message true confirmed cache now message =
    (false, record { published = none; cache = cache })
publish_message false confirmed cache now message =
    (confirmed, record { published = some message; cache = on_publish_start cache now message })

-- `UpstreamDeliveryCode` and `DeliverUpMsgReply`
pub data DeliveryCode : Type 0 where
  delivery_success delivery_timeout delivery_failed : DeliveryCode

pub record DeliverUpMsgReply : Type 0 where
  pub code : DeliveryCode
  pub message_id : ℕ

abbrev pub coded : DeliveryCode → DeliverUpMsgReply
coded code = record { code = code; message_id = 0 }

published_reply : ℕ → Bool × Left → DeliverUpMsgReply × Left
published_reply message_id (true, left) =
    (record { code = delivery_success; message_id = message_id }, left)
published_reply message_id (false, left) = (coded delivery_timeout, left)

-- Nothing is handed to the stream.
abbrev unpublished : Cache → Left
unpublished cache = record { published = none; cache = cache }

module _ (closing confirmed cancelled : Bool) (now : ℕ) where
  -- The call of the id service and what follows.
  publish_with : CallResult ℕ → Message → Cache → DeliverUpMsgReply × Left
  unfolding published_reply
  publish_with (Rpc.success snowflake_id) message cache =
      published_reply snowflake_id
        (publish_message closing confirmed cache now (record message { message_id = snowflake_id }))
  publish_with (Rpc.failure timeout info) message cache =
      (coded delivery_timeout, unpublished cache)
  publish_with (Rpc.failure _ info) message cache = (coded delivery_failed, unpublished cache)

  reply_unless_cancelled : DeliverUpMsgReply × Left → Option DeliverUpMsgReply × Left
  reply_unless_cancelled (reply, left) = (unless_cancelled cancelled reply, left)

  checked : Option (CallResult ℕ) → Message → Check × Cache → Option DeliverUpMsgReply × Left
  unfolding publish_with reply_unless_cancelled
  checked id_service message (still_waiting, cache) =
      (some (coded delivery_timeout), unpublished cache)
  checked id_service message (id (suc n), cache) =
      (some (record { code = delivery_success; message_id = suc n }), unpublished cache)
  checked none message (id zero, cache) = (some (coded delivery_failed), unpublished cache)
  checked (some result) message (id zero, cache) =
      reply_unless_cancelled (publish_with result message cache)

  -- `DeliverMessage`: the reply of a found id sets no code, and reads as the enum's first member
  unfoldable pub deliver_message :
      (later : ℕ)
      → Option MessageMetadata
      → Option (CallResult ℕ)
      → Message
      → Cache
      → Option DeliverUpMsgReply × Left
  unfolding checked
  deliver_message later waited id_service message cache =
      checked id_service message (conflict_check cache now later waited message)
