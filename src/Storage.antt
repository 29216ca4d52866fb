-- ===== src/Storage.antt =====
-- chat/microservices/cass_msg_storage/cass_storage_service.py: `CassStorageService`. Cassandra and the
-- counter of messages in Redis answer by arguments. `cal_bucket_val` is cut where it waits for the lock
-- of its cache line and for Redis; a line that no counter was read for is `none`.
pub mod Slots
pub mod Inbox
use tiny_chat_microservices.Prelude.{
  ℕ, suc, ◌+◌, ◌-◌, ◌*◌, ◌/◌, Bool, true, false, ◌&&◌, ◌||◌, not, Option, none, some, List, [], ◌∷◌,
  Outcome, returns, raises, unbound_local_error, ◌==◌, if◌then◌else◌, ltb,
}

-- `CHATAPP_EPOCH`, `MESSAGE_COUNT_ONE_BUCKET` and `DAYS_ONE_BUCKET`
abbrev pub message_count_one_bucket : ℕ
message_count_one_bucket = 1000000

-- `BucketCacheLine`
pub record BucketCacheLine : Type 0 where
  pub bucket : ℕ
  pub curr_val : ℕ
  pub end_val : ℕ

-- What `cal_bucket_val` does next: it returns with a counter value, which the line has now, or waits for
-- the lock, or asks Redis.
pub data Next : Type 0 where
  counted : BucketCacheLine → Next
  wait_for_lock : Next
  ask_redis : Next

abbrev pub next_value : BucketCacheLine → BucketCacheLine
next_value line = record line { curr_val = line.curr_val + 1 }

-- The beginning of the call, up to the lock
unfoldable pub before_lock : Option BucketCacheLine → Next
before_lock none = wait_for_lock
before_lock (some line) =
    if ltb (line.curr_val + 1) line.end_val then counted (next_value line) else wait_for_lock

-- The call with the lock; one that waited because the line was used up does not look at it again.
unfoldable pub with_lock : (was_ready : Bool) → Option BucketCacheLine → Next
with_lock true line = ask_redis
with_lock false none = ask_redis
with_lock false (some line) =
    if ltb (line.curr_val + 1) line.end_val then counted (next_value line) else ask_redis

-- The line after Redis has counted on by 100 to `end_val`
unfoldable pub refill : (end_val : ℕ) → BucketCacheLine
refill end_val = record {
  bucket = (end_val - 100) / message_count_one_bucket;
  curr_val = end_val - 100;
  end_val = end_val;
}

pub data CassMsgCode : Type 0 where
  cass_msg_success cass_msg_timeout cass_msg_failed : CassMsgCode

-- How `await shield(task)` ends.
pub data Written (A : Type 0) : Type 0 where
  wrote : A → Written A
  cancelled : Written A
  failed : Written A

-- What a handler returns: a reply, nothing to a call that is over, or an exception; and how often
-- `curr_val` of the line was counted back.
pub record Result (A : Type 0) : Type 0 where
  pub reply : Outcome (Option A)
  pub rollbacks : ℕ

-- `WriteToSession` after `cal_bucket_val` gave a bucket
unfoldable pub write_to_session : Written Bool → (context_cancelled : Bool) → Result CassMsgCode
write_to_session (wrote _) context_cancelled =
    if context_cancelled
    then record { reply = returns none; rollbacks = 1 }
    else record { reply = returns (some cass_msg_success); rollbacks = 0 }
write_to_session failed context_cancelled =
    if context_cancelled
    then record { reply = returns none; rollbacks = 2 }
    else record { reply = returns (some cass_msg_failed); rollbacks = 1 }
write_to_session cancelled context_cancelled =
    if context_cancelled
    then record { reply = returns none; rollbacks = 2 }
    else record { reply = raises unbound_local_error; rollbacks = 1 }

-- What `cal_bucket_val` comes to: a bucket, or -1 or -2 after Redis
pub data BucketVal : Type 0 where
  bucket_val : ℕ → BucketVal
  redis_timeout redis_failed : BucketVal

-- `WriteToSession`
unfoldable pub session_reply :
    BucketVal → Written Bool → (context_cancelled : Bool) → Result CassMsgCode
unfolding write_to_session
session_reply (bucket_val bucket) written context_cancelled =
    write_to_session written context_cancelled
session_reply redis_timeout written context_cancelled = record {
  reply = returns (some cass_msg_timeout);
  rollbacks = 0;
}
session_reply redis_failed written context_cancelled = record {
  reply = returns (some cass_msg_failed);
  rollbacks = 0;
}

-- `WriteToInbox`
unfoldable pub write_to_inbox :
    Written Bool → (context_cancelled : Bool) → Outcome (Option CassMsgCode)
write_to_inbox (wrote _) context_cancelled =
    if context_cancelled then returns none else returns (some cass_msg_success)
write_to_inbox failed context_cancelled =
    if context_cancelled then returns none else returns (some cass_msg_failed)
write_to_inbox cancelled context_cancelled =
    if context_cancelled then returns none else raises unbound_local_error

-- A row of the inbox
pub record Row : Type 0 where
  pub sender_id : ℕ
  pub sender_seq : ℕ
  pub message_id : ℕ
  pub channel_id : ℕ
  pub content : ℕ

-- The set `handled`, as the rows that were put into it
unfoldable pub is_handled : List Row → Row → Bool
is_handled [] row = false
is_handled (h ∷ handled) row =
    ((h.sender_id == row.sender_id) && (h.sender_seq == row.sender_seq)) || is_handled handled row

-- The loop of `ReadInbox` over the rows
unfoldable pub filter_rows : (handled : List Row) → List Row → List Row
unfolding is_handled
filter_rows handled [] = []
filter_rows handled (row ∷ rows) =
    let fresh = filter_rows (row ∷ handled) rows in
    let rest = filter_rows handled rows in if is_handled handled row then rest else row ∷ fresh

pub record CassInboxReply : Type 0 where
  pub code : CassMsgCode
  pub messages : List Row

-- `ReadInbox`; a result without rows is answered without a look at the context.
unfoldable pub read_inbox :
    Written (List Row) → (context_cancelled : Bool) → Outcome (Option CassInboxReply)
unfolding filter_rows
read_inbox (wrote []) context_cancelled =
    returns (some (record { code = cass_msg_success; messages = [] }))
read_inbox (wrote (row ∷ rows)) context_cancelled =
    if context_cancelled
    then returns none
    else returns (some (record { code = cass_msg_success; messages = filter_rows [] (row ∷ rows) }))
read_inbox failed context_cancelled =
    if context_cancelled
    then returns none
    else returns (some (record { code = cass_msg_failed; messages = [] }))
read_inbox cancelled context_cancelled =
    if context_cancelled then returns none else raises unbound_local_error
