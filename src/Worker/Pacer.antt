-- ===== src/Worker/Pacer.antt =====
-- chat/worker/utils/pacer.py: `MessagePacer`, which keeps a message of a sender from being handled
-- twice. The model is the `DeliveryInfo` of one sender; `cache` maps each sender to its own. A call
-- of `filter_or_not` is cut at its awaits: it begins, may be given the lock, may get its answer
-- from Redis, and other calls run in between.
pub mod Runs
pub mod Once
pub mod Advance
pub mod Races
use tiny_chat_microservices.Prelude.{
  ℕ, zero, suc, ◌+◌, Bool, true, false, Option, none, some, Dict, dict_get, dict_put, dict_has, [],
  ◌∷◌, if◌then◌else◌, ltb, leb, ◌==◌,
}
use tiny_chat_microservices.Redis.{
  Awaited, respond, ResponseStatus, redis_success, redis_failed, redis_timeout,
}

-- `DeliveryInfo`; `redis_key` says whether the key has been set.
pub record DeliveryInfo : Type 0 where
  pub next_delivery_id : ℕ
  pub delivery_ids : Dict ℕ
  pub locked : Bool
  pub redis_key : Bool

abbrev pub fresh : DeliveryInfo
fresh = record { next_delivery_id = 0; delivery_ids = []; locked = false; redis_key = false }

abbrev pub initialized : DeliveryInfo → Bool
initialized info = ltb 0 info.next_delivery_id

-- `FilterState`, without NEW_VERSION, which nothing returns.
pub data FilterState : Type 0 where
  new_item can_ignore retry_required : FilterState

-- Where a call of `filter_or_not` stands.
pub data Progress : Type 0 where
  returned : FilterState → Progress
  waits_for_lock waits_for_redis : Progress

-- The branch of an initialized info. `next_delivery_id` is the local variable, which was read at
-- the start of the call.
unfoldable pub decide :
    (next_delivery_id : ℕ)
    → DeliveryInfo
    → (delivery_id message_id : ℕ) → DeliveryInfo × FilterState
decide next_delivery_id info delivery_id message_id =
    if leb next_delivery_id delivery_id
    then elim (dict_get info.delivery_ids delivery_id) [
      | none ↦ (
        record info { delivery_ids = dict_put info.delivery_ids delivery_id message_id },
        new_item,
      )
      | some handled_msg_id ↦ (info, can_ignore)
    ]
    else (info, can_ignore)

abbrev pub return_it : DeliveryInfo × FilterState → DeliveryInfo × Progress
return_it (info, state) = (info, returned state)

-- `filter_or_not` up to its first await that waits: a free lock is taken without waiting.
unfoldable pub begin : DeliveryInfo → (delivery_id message_id : ℕ) → DeliveryInfo × Progress
unfolding decide
begin info delivery_id message_id =
    if initialized info
    then return_it (decide info.next_delivery_id info delivery_id message_id)
    else if info.locked
    then (info, waits_for_lock)
    else (record info { locked = true; redis_key = true }, waits_for_redis)

-- A call that waited is given the lock. It began before the info was initialized, so its local
-- variable `next_delivery_id` is 0.
unfoldable pub on_lock : DeliveryInfo → (delivery_id message_id : ℕ) → DeliveryInfo × Progress
unfolding decide
on_lock info delivery_id message_id =
    if initialized info
    then return_it (decide 0 (record info { locked = false }) delivery_id message_id)
    else (record info { locked = true; redis_key = true }, waits_for_redis)

-- `int(data) if data else 1`; an empty text is `none`
abbrev pub int_or_one : Option ℕ → ℕ
int_or_one none = 1
int_or_one (some n) = n

filter_new : DeliveryInfo → ℕ → (delivery_id message_id : ℕ) → DeliveryInfo × FilterState
filter_new info next delivery_id message_id =
    if ltb delivery_id next then (record info { next_delivery_id = next }, can_ignore) else (
      record info {
        next_delivery_id = next;
        delivery_ids = dict_put info.delivery_ids delivery_id message_id;
      },
      new_item,
    )

filter_reply :
    Option (Option ℕ) × ResponseStatus
    → DeliveryInfo
    → (delivery_id message_id : ℕ) → DeliveryInfo × FilterState
unfolding filter_new
filter_reply (some value, redis_success) info delivery_id message_id =
    filter_new info (int_or_one value) delivery_id message_id
filter_reply (none, redis_success) info delivery_id message_id =
    filter_new info 1 delivery_id message_id
filter_reply (value, redis_failed) info delivery_id message_id = (info, retry_required)
filter_reply (value, redis_timeout) info delivery_id message_id = (info, retry_required)

-- Redis answers a call that holds the lock, which releases it.
unfoldable pub on_redis :
    Awaited (Option ℕ) → DeliveryInfo → (delivery_id message_id : ℕ) → DeliveryInfo × FilterState
unfolding filter_reply respond
on_redis answer info delivery_id message_id =
    filter_reply (respond answer) (record info { locked = false }) delivery_id message_id

-- The rest of a call with no other call in between.
finish :
    Awaited (Option ℕ)
    → DeliveryInfo × Progress
    → (delivery_id message_id : ℕ) → DeliveryInfo × Progress
unfolding on_redis
finish answer (info, waits_for_redis) delivery_id message_id =
    return_it (on_redis answer info delivery_id message_id)
finish answer (info, progress) delivery_id message_id = (info, progress)

-- A call of `filter_or_not` that runs alone.
unfoldable pub filter_or_not :
    Awaited (Option ℕ) → DeliveryInfo → (delivery_id message_id : ℕ) → DeliveryInfo × Progress
unfolding begin finish
filter_or_not answer info delivery_id message_id =
    finish answer (begin info delivery_id message_id) delivery_id message_id

-- `while delivery_id in ids: delivery_id += 1`, with fuel
unfoldable pub skip_handled : ℕ → Dict ℕ → ℕ → Option ℕ
skip_handled zero ids delivery_id = none
skip_handled (suc fuel) ids delivery_id = elim (dict_has ids delivery_id) [
  | true ↦ skip_handled fuel ids (delivery_id + 1)
  | false ↦ some delivery_id
]

-- The number of ids in the dict; it is fuel enough with one more.
abbrev pub size : Dict ℕ → ℕ
size [] = 0
size (e ∷ ids) = suc (size ids)

-- `on_handled_new_item`: the info, and the value that it writes to Redis, if it writes.
unfoldable pub on_handled_new_item : DeliveryInfo → ℕ → DeliveryInfo × Option ℕ
unfolding skip_handled
on_handled_new_item info delivery_id =
    if delivery_id == info.next_delivery_id
    then elim (skip_handled (suc (size info.delivery_ids)) info.delivery_ids (delivery_id + 1)) [
      | none ↦ (info, none)
      | some next ↦ (record info { next_delivery_id = next }, some next)
    ]
    else (info, none)
