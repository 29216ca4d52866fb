-- ===== src/WsGateway/PushChannel.antt =====
-- chat/ws_gateway/manager/push.py: `PushChannel`, the stream from one push service, and the
-- acknowledgements that `PushManager` takes from the users. An event is its delivery id, a session
-- its number; the queues of the sessions are one list of the events that are put, in order.
pub mod Feedback
use tiny_chat_microservices.Prelude.{
  ℕ, zero, suc, ◌+◌, ◌*◌, Bool, true, false, ◌&&◌, ◌||◌, not, Option, none, some, List, [], ◌∷◌,
  ◌++◌, Outcome, returns, raises, PyError, key_error, invalid_state, Dict, dict_get, dict_put,
  dict_pop, if◌then◌else◌, ◌==◌, ℤ, pos,
}
use tiny_chat_microservices.Messages.Spans.{Span}
use tiny_chat_microservices.Messages.AckQueue.{AckQueue, empty_queue, add, clear}

-- `ack_done` is whether the waiter `ack_waiter` is done, `ack_trigger` whether `ack_trigger_handle` is
-- set; `consumers` has the tasks of the events.
pub record PushChannel : Type 0 where
  pub ack_queue : AckQueue
  pub ack_done : Bool
  pub ack_trigger : Bool
  pub consumers : Dict ℕ

abbrev pub new_channel : PushChannel
new_channel = record {
  ack_queue = empty_queue;
  ack_done = false;
  ack_trigger = false;
  consumers = [];
}

-- The active sessions of the keys from one on.
unfoldable pub active_from : (is_active : ℕ → Bool) (sessions : Dict ℕ) (key n : ℕ) → List ℕ
active_from is_active sessions key zero = []
active_from is_active sessions key (suc n) =
    let rest = active_from is_active sessions (key + 1) n in
    elim (dict_get sessions key) [
      | none ↦ rest
      | some session ↦ if is_active session then session ∷ rest else rest
    ]

-- `targets` of the handlers: the sessions of all kinds of devices of a user
unfoldable pub targets : (is_active : ℕ → Bool) (sessions : Dict ℕ) (uid : ℕ) → List ℕ
unfolding active_from
targets is_active sessions uid = active_from is_active sessions (5 * uid) 5

put_all : List ℕ → ℕ → List (ℕ × ℕ)
put_all [] delivery_id = []
put_all (session ∷ rest) delivery_id = (session, delivery_id) ∷ put_all rest delivery_id

deliver : PushChannel → List ℕ → ℕ → List (ℕ × ℕ) × PushChannel
unfolding put_all
deliver channel [] delivery_id =
    ([], record channel { ack_queue = add channel.ack_queue (pos delivery_id) })
deliver channel sessions delivery_id = (put_all sessions delivery_id, channel)

-- `_friend_request_handler`, `_friend_confirm_handler` and `_user_message_handler`: what is put to the
-- queues of which session, and the channel.
unfoldable pub message_handler :
    (is_active : ℕ → Bool) (sessions : Dict ℕ) (uid delivery_id : ℕ)
    → PushChannel
    → List (ℕ × ℕ) × PushChannel
unfolding deliver
message_handler is_active sessions uid delivery_id channel =
    deliver channel (targets is_active sessions uid) delivery_id

set_waiter : PushChannel → Option PyError × PushChannel
set_waiter channel =
    if channel.ack_done
    then (some invalid_state, channel)
    else (none, record channel { ack_done = true })

-- `_user_kicked_off_handler`, with whether there was a task to cancel and whether the session was
-- recycled in time; `set_result` of a waiter that is done raises.
unfoldable pub user_kicked_off_handler :
    (cancelled recycled : Bool) → ℕ → PushChannel → Option PyError × PushChannel
unfolding set_waiter
user_kicked_off_handler cancelled recycled delivery_id channel =
    if cancelled && not recycled
    then (none, channel)
    else set_waiter (record channel { ack_queue = add channel.ack_queue (pos delivery_id) })

-- One log of `ack_to_rpc`: the timer is started unless it runs.
unfoldable pub ack_log : PushChannel → (delivery_id : ℤ) → PushChannel
ack_log channel delivery_id = record channel {
  ack_queue = add channel.ack_queue delivery_id;
  ack_trigger = true;
}

-- `ack_to_rpc` with the logs of one event of a user, each a channel and a number. A channel that is
-- not there is a KeyError, which ends the task.
unfoldable pub ack_to_rpc : List (ℕ × ℤ) → Dict PushChannel → Option PyError × Dict PushChannel
unfolding ack_log
ack_to_rpc [] channels = (none, channels)
ack_to_rpc ((channel_number, delivery_id) ∷ logs) channels =
    elim (dict_get channels channel_number) [
      | none ↦ (some key_error, channels)
      | some channel ↦
          ack_to_rpc logs (dict_put channels channel_number (ack_log channel delivery_id))
    ]

-- `ack_cb`, when the timer is over
unfoldable pub ack_cb : PushChannel → PushChannel
ack_cb channel = record channel { ack_done = true }

-- What the iterator gives: start and end of each span.
unfoldable pub confirms : Dict Span → List Span
confirms [] = []
confirms ((i, v) ∷ spans) = v ∷ confirms spans

-- A round of `consumer_feedback`, when the waiter is done: the confirmations that are sent, and the
-- channel, with `cancelled` for whether the end of the stream is asked for. It is a round in which no
-- acknowledgement comes in between two confirmations: the generator walks the spans while they are sent,
-- and a number that is added meanwhile, or a span that is joined, can be passed over and cleared.
unfoldable pub consumer_feedback : (cancelled : Bool) → PushChannel → List Span × PushChannel
unfolding confirms
consumer_feedback cancelled channel = (
  confirms channel.ack_queue.spans,
  record channel {
    ack_queue = clear channel.ack_queue;
    ack_trigger = false;
    ack_done = if cancelled then channel.ack_done else false;
  },
)

-- `stream_handler` with an event: its task is kept under the event's number.
unfoldable pub receive_event : (delivery_id task : ℕ) → PushChannel → PushChannel
receive_event delivery_id task channel = record channel {
  consumers = dict_put channel.consumers delivery_id task;
}

-- The callback of a task that is done. It removes the number that `delivery_id` stands for then, which
-- is the one of the latest event.
unfoldable pub consumer_done : (latest : ℕ) → PushChannel → PushChannel
consumer_done latest channel = record channel { consumers = dict_pop channel.consumers latest }
