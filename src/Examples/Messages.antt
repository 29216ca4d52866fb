-- ===== src/Examples/Messages.antt =====
-- Acknowledged numbers, offsets and timers.
use tiny_chat_microservices.Prelude.{
  ℕ, zero, ◌≡◌, ◌≢◌, refl, true, false, none, some, List, [], ◌∷◌, dict_get, dict_put, dict_pop,
  pos, negsuc, arith,
}
use tiny_chat_microservices.Messages.AckQueue.{
  empty_queue, contains, add, cache_append, join_spans, grow_right, grow_left, new_span, link_span,
  add_between, clear, first_end,
}
use tiny_chat_microservices.Messages.AckQueue.Contents.{empty_queue-IsValid}
use tiny_chat_microservices.Messages.AckQueue.Set.{Call, adds, run, added, contains-run}
use tiny_chat_microservices.Messages.Offsets.{
  OffsetRecord, activate, unfreeze, add_offset, last_offset, expected_offset, deactivate, freeze,
  ack_all,
}
use tiny_chat_microservices.Messages.Offsets.Acked.{Stores, inactive, among, Stores-acked}
use tiny_chat_microservices.Messages.Stream.{
  OutboundMessageLog, MessageStream, start_expire_timer, write, on_timeout, on_acked,
}
use tiny_chat_microservices.Messages.Stream.Timers.{Reach, start, next, writes, on_timeout-on_acked}

-- 4 and 6, then 5, which joins their spans, then 5 again.
abbrev calls : List Call
calls = adds (pos 5) ∷ adds (pos 5) ∷ adds (pos 6) ∷ adds (pos 4) ∷ adds (negsuc 0) ∷ []

contains-run_example : contains (run calls) (pos 5) ≡ added calls (pos 5)
contains-run_example = contains-run calls (pos 5)

abbrev fresh_record : OffsetRecord
fresh_record = record {
  queue = empty_queue;
  storing_offset = negsuc zero;
  last_stored_offset = negsuc zero;
  last_stored_time = 0;
  frozen = true;
}

-- The subscriber starts behind 9 and acknowledges 11 before 10.
abbrev handled : OffsetRecord
handled = ack_all (10 ∷ 11 ∷ []) (activate (some 9) fresh_record).1

handled-Stores : Stores handled (pos 11)
unfolding deactivate freeze last_offset expected_offset first_end ack_all activate unfreeze
    add_offset add add_between join_spans grow_right grow_left new_span link_span cache_append clear
    dict_get dict_put dict_pop
handled-Stores = inactive refl

Stores-acked_example : among (10 ∷ 11 ∷ []) 10 ≡ true
Stores-acked_example =
    Stores-acked fresh_record 9 (10 ∷ 11 ∷ []) 11 10 empty_queue-IsValid refl handled-Stores
      (omega arith) (omega arith)

abbrev message : OutboundMessageLog
message = record { sender_id = 1; receiver_id = 2; session_id = "s"; delivery_id = none }

abbrev sent : MessageStream
sent = record {
  delivery_id = 1;
  waiters = (1, record message { delivery_id = some 1 }) ∷ [];
  timers = (1, 0) ∷ [];
  live = (0, 1) ∷ [];
  handles = 1;
  pending = [];
  ack_timer_set = false;
  operation_log = [];
}

sent-Reach : Reach sent
unfolding write start_expire_timer dict_put dict_get
sent-Reach = next start (writes message (1, sent) refl refl)

sent-live : dict_get sent.live 0 ≡ some 1
unfolding dict_get
sent-live = refl

on_timeout-on_acked_example :
    ((m : OutboundMessageLog) × ((on_timeout sent 0 1).0 ≡ some m))
    × ((on_timeout sent 0 1).1 ≡ true)
    × ((h : ℕ) → dict_get (on_acked sent 1).live h ≢ some 1)
on_timeout-on_acked_example = on_timeout-on_acked {s = sent} 0 1 sent-Reach sent-live
