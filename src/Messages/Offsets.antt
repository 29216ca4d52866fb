-- ===== src/Messages/Offsets.antt =====
-- chat/common/src/chatp/rmq/stream/model.py and consumer.py: `OffsetRecord`, the offsets of one
-- stream that were acknowledged, and when `RstreamConsumer` has the broker store one.
pub mod Acked
use tiny_chat_microservices.Prelude.{
  ℕ, zero, suc, ◌+◌, Bool, true, false, ◌&&◌, ◌||◌, not, Option, none, some, ltb, leb, ◌==◌,
  if◌then◌else◌, List, [], ◌∷◌, ◌-◌, ℤ, pos, negsuc,
}
use tiny_chat_microservices.Messages.AckQueue.{AckQueue, empty_queue, add, clear, first_end}

pub record OffsetRecord : Type 0 where
  pub queue : AckQueue
  pub storing_offset : ℤ
  pub last_stored_offset : ℤ
  pub last_stored_time : ℕ
  pub frozen : Bool

-- `OffsetRecord(stream, offset)`
unfoldable pub new_record : (offset : ℤ) (now : ℕ) → OffsetRecord
new_record offset now = record {
  queue = add empty_queue offset;
  storing_offset = negsuc zero;
  last_stored_offset = offset;
  last_stored_time = now;
  frozen = true;
}

-- `add`; `StreamMessage.ack` calls it with the offset of the message
unfoldable pub add_offset : OffsetRecord → ℤ → OffsetRecord
add_offset r offset = record r { queue = add r.queue offset }

-- `freeze` and `unfreeze`
unfoldable pub freeze : OffsetRecord → OffsetRecord
freeze r = record r { frozen = true; queue = clear r.queue }

unfoldable pub unfreeze : OffsetRecord → OffsetRecord
unfreeze r = record r { frozen = false; queue = clear r.queue }

-- `expected_offset`
unfoldable pub expected_offset : OffsetRecord → ℕ
expected_offset r = first_end r.queue

-- `expected_offset - 1`
unfoldable pub last_offset : OffsetRecord → ℤ
last_offset r = elim (expected_offset r) [ zero ↦ negsuc zero | suc n ↦ pos n ]

-- a + n and a < b
abbrev pub plus : ℤ → ℕ → ℤ
plus (pos a) n = pos (a + n)
plus (negsuc a) n = if leb n a then negsuc (a - n) else pos (n - suc a)

abbrev pub less : ℤ → ℤ → Bool
less (pos a) (pos b) = ltb a b
less (pos a) (negsuc b) = false
less (negsuc a) (pos b) = true
less (negsuc a) (negsuc b) = ltb b a

abbrev pub same : ℤ → ℤ → Bool
same (pos a) (pos b) = a == b
same (pos a) (negsuc b) = false
same (negsuc a) (pos b) = false
same (negsuc a) (negsuc b) = a == b

-- The test of `store_offset_timer`: more than 256 messages are handled since the last store, or more
-- than 64 and the last store is more than 300 seconds ago.
unfoldable pub is_due : (curr_time : ℕ) → OffsetRecord → Bool
is_due curr_time r =
    less (plus r.last_stored_offset 256) (last_offset r)
    || (less (plus r.last_stored_offset 64) (last_offset r)
        && ltb (r.last_stored_time + 300) curr_time)

-- What `store_offset_timer` does with a record: the offset that it gives `store_offset`, if any.
unfoldable pub tick : (curr_time : ℕ) → OffsetRecord → Option ℤ × OffsetRecord
tick curr_time r =
    if r.frozen
    then (none, r)
    else if is_due curr_time r
    then (some (last_offset r), record r { storing_offset = last_offset r })
    else (none, r)

-- `on_store_offset`, with whether the task succeeded
unfoldable pub on_store_offset :
    (now : ℕ) → (offset : ℤ) → (ok : Bool) → OffsetRecord → OffsetRecord
on_store_offset now offset ok r =
    if same r.storing_offset offset
    then (if ok
        then record r {
          storing_offset = negsuc zero;
          last_stored_offset = offset;
          last_stored_time = now;
        }
        else record r { storing_offset = negsuc zero })
    else r

-- `consumer_update_listener` for a subscriber that becomes active, with the answer of `query_offset`,
-- `none` if it raises: the offset to start at, and the record.
unfoldable pub activate : Option ℕ → OffsetRecord → ℕ × OffsetRecord
unfolding unfreeze add_offset
activate none r = (0, unfreeze r)
activate (some offset) r =
    (offset + 1, record (add_offset (unfreeze r) (pos offset)) { last_stored_offset = pos offset })

-- For one that becomes inactive: the offset that it gives `store_offset`, if any, and what follows.
unfoldable pub deactivate : OffsetRecord → Option ℤ × OffsetRecord
unfolding freeze
deactivate r =
    if less r.last_stored_offset (last_offset r) && less r.storing_offset (last_offset r)
    then (some (last_offset r), record (freeze r) { storing_offset = last_offset r })
    else (none, freeze r)

unfoldable pub stored_inactive :
    (now : ℕ) → (offset : ℤ) → (ok : Bool) → OffsetRecord → OffsetRecord
stored_inactive now offset ok r =
    if ok
    then record r {
      storing_offset = negsuc zero;
      last_stored_offset = offset;
      last_stored_time = now;
    }
    else record r { storing_offset = negsuc zero }

-- The messages that the subscriber acknowledges, the last one first.
unfoldable pub ack_all : List ℕ → OffsetRecord → OffsetRecord
ack_all [] r = r
ack_all (offset ∷ offsets) r = add_offset (ack_all offsets r) (pos offset)
