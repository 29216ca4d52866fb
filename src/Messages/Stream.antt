-- ===== src/Messages/Stream.antt =====
-- chat/common/src/chatp/message/sender.py, receiver.py and stream.py: `MessageStream`, which numbers
-- the messages that are sent, waits for their acknowledgements, gathers the acknowledgements to send,
-- and keeps which messages were processed.
pub mod Timers
use tiny_chat_microservices.Prelude.{
  ℕ, zero, suc, ◌+◌, ◌*◌, ◌%◌, ◌^◌, String, Bool, true, false, not, Option, none, some, List, [],
  ◌∷◌, ◌++◌, Dict, dict_get, dict_put, dict_pop, dict_has, if◌then◌else◌, ◌==◌, ltb, ℤ, pos,
}
use tiny_chat_microservices.Messages.AckQueue.{AckQueue, empty_queue, add, contains}

-- `OutboundMessageLog`
pub record OutboundMessageLog : Type 0 where
  pub sender_id : ℕ
  pub receiver_id : ℕ
  pub session_id : String
  pub delivery_id : Option ℕ

-- `MAX_INT64 = 2 << 63`
abbrev pub max_int64 : ℕ
max_int64 = 2 ^ 64

-- The sender and the event loop's timers: `handles` counts the timers that were made, and `live` has
-- the number of the message of each one that is neither over nor cancelled. `pending` and
-- `ack_timer_set` are of the receiver, where a log is a number.
pub record MessageStream : Type 0 where
  pub delivery_id : ℕ
  pub waiters : Dict OutboundMessageLog
  pub timers : Dict ℕ
  pub live : Dict ℕ
  pub handles : ℕ
  pub pending : List ℕ
  pub ack_timer_set : Bool
  pub operation_log : Dict AckQueue

abbrev pub new_stream : MessageStream
new_stream = record {
  delivery_id = 0;
  waiters = [];
  timers = [];
  live = [];
  handles = 0;
  pending = [];
  ack_timer_set = false;
  operation_log = [];
}

-- `borrow_virtual_local_id`
unfoldable pub borrow_virtual_local_id : MessageStream → ℕ × MessageStream
borrow_virtual_local_id s =
    let delivery_id = (s.delivery_id + 1) % max_int64 in
    (delivery_id, record s { delivery_id = delivery_id })

-- `MessageSender.write`
unfoldable pub sender_write : MessageStream → OutboundMessageLog → ℕ × MessageStream
sender_write s message =
    let delivery_id = (s.delivery_id + 1) % max_int64 in
    (
      delivery_id,
      record s {
        delivery_id = delivery_id;
        waiters =
            dict_put s.waiters delivery_id (record message { delivery_id = some delivery_id });
      },
    )

-- `start_expire_timer`
unfoldable pub start_expire_timer : MessageStream → ℕ → MessageStream
start_expire_timer s delivery_id = record s {
  timers = dict_put s.timers delivery_id s.handles;
  live = dict_put s.live s.handles delivery_id;
  handles = s.handles + 1;
}

abbrev pub started : ℕ × MessageStream → ℕ × MessageStream
started (delivery_id, s) = (delivery_id, start_expire_timer s delivery_id)

unfoldable pub write_numbered :
    MessageStream → OutboundMessageLog → Option ℕ → Option (ℕ × MessageStream)
unfolding sender_write
write_numbered s message none = some (started (sender_write s message))
write_numbered s message (some delivery_id) =
    if dict_has s.waiters delivery_id
    then none
    else some (started (delivery_id, record s { waiters = dict_put s.waiters delivery_id message }))

-- `write`, `none` where it raises because the number is taken
unfoldable pub write : MessageStream → OutboundMessageLog → Option (ℕ × MessageStream)
unfolding write_numbered
write s message = write_numbered s message message.delivery_id

-- `timer.cancel()`, where there is a timer
unfoldable pub cancel_timer : MessageStream → Option ℕ → MessageStream
cancel_timer s none = s
cancel_timer s (some handle) = record s { live = dict_pop s.live handle }

-- `on_acked`
unfoldable pub on_acked : MessageStream → ℕ → MessageStream
unfolding cancel_timer
on_acked s delivery_id =
    cancel_timer
      (record s {
        waiters = dict_pop s.waiters delivery_id;
        timers = dict_pop s.timers delivery_id;
      })
      (dict_get s.timers delivery_id)

-- A timer that is over calls `on_timeout`: what the handler is given, whether the last `pop` finds
-- the timer (it raises KeyError if not), and the state. The handler does not change the stream.
unfoldable pub on_timeout :
    MessageStream → (handle delivery_id : ℕ) → Option OutboundMessageLog × Bool × MessageStream
on_timeout s handle delivery_id = (
  dict_get s.waiters delivery_id,
  dict_has s.timers delivery_id,
  record s {
    waiters = dict_pop s.waiters delivery_id;
    timers = dict_pop s.timers delivery_id;
    live = dict_pop s.live handle;
  },
)

-- `read` and `start_ack_timer`, where the handler is bound
unfoldable pub read : MessageStream → ℕ → MessageStream
read s log = record s { pending = s.pending ++ (log ∷ []); ack_timer_set = true }

-- The receiver's task when the timer is over: what `ack_handler` is given, and the state.
unfoldable pub schedule_ack : MessageStream → List ℕ × MessageStream
schedule_ack s = (s.pending, record s { pending = []; ack_timer_set = false })

-- `operation_log[channel_number]`, a `defaultdict`
unfoldable pub operations : MessageStream → ℕ → AckQueue
operations s channel_number = elim (dict_get s.operation_log channel_number) [
  | none ↦ empty_queue
  | some queue ↦ queue
]

-- `on_processed`
unfoldable pub on_processed :
    MessageStream → (channel_number : ℕ) → (delivery_id : ℤ) → MessageStream
unfolding operations
on_processed s channel_number delivery_id =
    let queue = operations s channel_number in
    record s {
      operation_log =
          dict_put s.operation_log channel_number
            (if contains queue delivery_id then queue else add queue delivery_id);
    }
