-- ===== src/Worker/Outbox.antt =====
-- chat/worker: a message of the stream is written to the session and announced to the read model
-- (impl/msg_consumer_worker.py), what failed goes to the dead letter queue and is tried again from
-- there (impl/dlq_worker.py); both share utils/mixin.py. The services and queues answer by
-- arguments; what reaches them is collected in the effects.
pub mod Delivery
use tiny_chat_microservices.Prelude.{
  ℕ, Bool, true, false, Option, none, some, List, [], ◌∷◌, ◌&&◌, if◌then◌else◌, ltb,
}
use tiny_chat_microservices.Redis.{Awaited, finished, timed_out}
use tiny_chat_microservices.Worker.Pacer.{
  DeliveryInfo, FilterState, new_item, can_ignore, retry_required, on_handled_new_item,
}

-- `DLQMsgAction` of msg_data.proto
pub data DlqAction : Type 0 where
  dlq_all dlq_session_only dlq_inbox_only : DlqAction

-- What the other parts answer while one message is handled. A service is `none` if
-- `find_service` gives None; else it says whether its call succeeds. A queue says whether its
-- `send_to_…` returns without an exception.
pub record Answers : Type 0 where
  pub cass_message_service : Option Bool
  pub downstream_service : Option Bool
  pub read_model_queue : Bool
  pub dead_letter_queue : DlqAction → Bool

-- `write_to_session`, of both workers
unfoldable pub write_to_session : Answers → Bool
write_to_session a = elim a.cass_message_service [ none ↦ false | some success ↦ success ]

-- `notify_read_model`: by the service, and by the queue if the service's call fails
unfoldable pub notify_read_model : Answers → Bool
notify_read_model a = elim a.downstream_service [
  | none ↦ false
  | some success ↦ if success then true else a.read_model_queue
]

-- What has happened to a message: written to its session, announced to the read model, the entries
-- that reached the dead letter queue, and whether it was acknowledged.
pub record Effects : Type 0 where
  pub session : Bool
  pub inbox : Bool
  pub dead_letters : List DlqAction
  pub acked : Bool

-- `push_to_dlq` appends the entry, or loses it.
abbrev pub push_to_dlq : Answers → DlqAction → List DlqAction → List DlqAction
push_to_dlq a action letters = if a.dead_letter_queue action then action ∷ letters else letters

-- The case NEW_ITEM of `on_message`.
unfoldable pub handle_new : Answers → Effects
unfolding write_to_session notify_read_model
handle_new a =
    let inbox = notify_read_model a in
    let session = write_to_session a in
    let letters = if inbox then [] else push_to_dlq a dlq_inbox_only [] in
    record {
      session = session;
      inbox = inbox;
      dead_letters = if session then letters else push_to_dlq a dlq_session_only letters;
      acked = true;
    }

-- `on_message` of OutboxWorker, for what `filter_or_not` returned; the info of the sender is what
-- the pacer leaves.
unfoldable pub on_message :
    (frozen : Bool)
    → Answers
    → FilterState
    → DeliveryInfo
    → (delivery_id : ℕ) → Effects × DeliveryInfo
unfolding handle_new
on_message true a state info delivery_id =
    (record { session = false; inbox = false; dead_letters = []; acked = false }, info)
on_message false a new_item info delivery_id =
    (handle_new a, (on_handled_new_item info delivery_id).0)
on_message false a can_ignore info delivery_id =
    (record { session = false; inbox = false; dead_letters = []; acked = true }, info)
on_message false a retry_required info delivery_id = (
  record { session = false; inbox = false; dead_letters = push_to_dlq a dlq_all []; acked = true },
  (on_handled_new_item info delivery_id).0,
)

-- `event_handler` of DLQWorker: an entry that is not acknowledged is rejected and queued again. For
-- an entry of all actions the write runs as a task of its own, also where its result is not read.
unfoldable pub event_handler : Answers → DlqAction → Effects
unfolding write_to_session notify_read_model
event_handler a dlq_inbox_only =
    let inbox = notify_read_model a in
    record { session = false; inbox = inbox; dead_letters = []; acked = inbox }
event_handler a dlq_session_only =
    let session = write_to_session a in
    record { session = session; inbox = false; dead_letters = []; acked = session }
event_handler a dlq_all =
    let session = write_to_session a in
    let inbox = notify_read_model a in
    record { session = session; inbox = inbox; dead_letters = []; acked = inbox && session }

-- `user_online_check`, with the body of `redis_hlen`: data comes with REDIS_SUCCESS, None with
-- REDIS_FAILED and a timeout with REDIS_TIMEOUT, and only the first is compared with 0.
unfoldable pub user_online_check : Awaited ℕ → Option Bool
user_online_check (finished (some n)) = some (ltb 0 n)
user_online_check (finished none) = none
user_online_check timed_out = none

-- What `ready_to_push` came to: its result, whether the push service took the message, and whether
-- it was put into the queue of the push service.
pub record Push : Type 0 where
  pub result : Bool
  pub pushed : Bool
  pub queued : Bool

push_message : Bool → Push
push_message sent = record { result = sent; pushed = false; queued = sent }

-- `ready_to_push`: what Redis says of the user, the push service (with the result of its call), and
-- whether the queue takes the message
unfoldable pub ready_to_push : Awaited ℕ → Option Bool → Bool → Push
unfolding user_online_check push_message
ready_to_push answer push_service queue = elim (user_online_check answer) [
  | none ↦ push_message queue
  | some online ↦
      if online
      then elim push_service [
        | none ↦ push_message queue
        | some pushed ↦
            if pushed
            then record { result = true; pushed = true; queued = false }
            else push_message queue
      ]
      else record { result = true; pushed = false; queued = false }
]
