-- ===== src/Push.antt =====
-- chat/microservices/push: the channel to one gateway (utils/collector.py) and the handlers that
-- push an event to the gateways of a user (push_service.py).
-- A waiter is a Future, kept under a number of its own; the queue's bound of 1024 entries only
-- delays a publisher and is left out.
pub mod Feedback
pub mod Handler
use tiny_chat_microservices.Prelude.{
  ℕ, zero, suc, ◌+◌, ◌-◌, ◌*◌, ◌%◌, ◌^◌, Bool, true, false, ◌&&◌, Option, none, some, List, [], ◌∷◌,
  ◌++◌, Outcome, returns, raises, key_error, ◌>>=◌, Dict, dict_get, dict_put, dict_pop, dict_has,
  if◌then◌else◌, ◌==◌,
}
use tiny_chat_microservices.Redis.{Awaited, finished, timed_out}

-- `PubStatus` of push.proto
pub data PubStatus : Type 0 where
  push_success push_failed push_timeout push_offline : PubStatus

-- `MAX_INT32`: `2 << 32 - 1` shifts by 31
abbrev pub max_int32 : ℕ
max_int32 = 4294967296

-- A Future: the id that its callback removes, and its result.
pub record Waiter : Type 0 where
  pub delivery_id : ℕ
  pub result : Option PubStatus

-- `EventChannel`. `confirmations` and `queue` hold numbers of waiters; `created` counts the waiters;
-- `scheduled` are the ids that callbacks of finished waiters will remove.
pub record EventChannel : Type 0 where
  pub queue : List (ℕ × ℕ)
  pub confirmations : Dict ℕ
  pub delivery_id : ℕ
  pub waiters : Dict Waiter
  pub created : ℕ
  pub scheduled : List ℕ

-- `publish`: the channel and the number of the waiter; the event in the queue is its delivery id
unfoldable pub publish : EventChannel → EventChannel × ℕ
publish channel =
    let delivery_id = (channel.delivery_id + 1) % max_int32 in
    let waiter = channel.created in
    (
      record {
        queue = channel.queue ++ ((delivery_id, waiter) ∷ []);
        confirmations = dict_put channel.confirmations delivery_id waiter;
        delivery_id = delivery_id;
        waiters =
            dict_put channel.waiters waiter (record { delivery_id = delivery_id; result = none });
        created = waiter + 1;
        scheduled = channel.scheduled;
      },
      waiter,
    )

-- `waiter.set_result(status)` of a waiter that is not done, with its callback scheduled
unfoldable pub set_result : PubStatus → EventChannel → ℕ → Waiter → EventChannel
set_result status channel w waiter = record channel {
  waiters = dict_put channel.waiters w (record waiter { result = some status });
  scheduled = channel.scheduled ++ (waiter.delivery_id ∷ []);
}

-- `if … not waiter.done(): waiter.set_result(status)`
set_unless_done : PubStatus → EventChannel → ℕ → Option Waiter → EventChannel
unfolding set_result
set_unless_done status channel w none = channel
set_unless_done status channel w (some waiter) = elim waiter.result [
  | some done ↦ channel
  | none ↦ set_result status channel w waiter
]

confirm_found : PubStatus → EventChannel → Option ℕ → EventChannel
unfolding set_unless_done
confirm_found status channel none = channel
confirm_found status channel (some w) =
    set_unless_done status channel w (dict_get channel.waiters w)

-- The body of the loop of `on_delivery`.
unfoldable pub confirm : PubStatus → EventChannel → (delivery_id : ℕ) → EventChannel
unfolding confirm_found
confirm status channel delivery_id =
    confirm_found status channel (dict_get channel.confirmations delivery_id)

-- The loop over `range(start_id, start_id + n)`.
unfoldable pub confirm_all : PubStatus → EventChannel → (start_id n : ℕ) → EventChannel
unfolding confirm
confirm_all status channel start_id zero = channel
confirm_all status channel start_id (suc n) =
    confirm_all status (confirm status channel start_id) (start_id + 1) n

-- `on_delivery`; the range is empty if it ends before it starts
unfoldable pub on_delivery : EventChannel → PubStatus → (start_id end_id : ℕ) → EventChannel
unfolding confirm_all
on_delivery channel status start_id end_id = confirm_all status channel start_id (end_id - start_id)

has : ℕ → List ℕ → Bool
has a [] = false
has a (b ∷ bs) = let r = has a bs in if a == b then true else r

-- `tuple(set(…))`, up to the order
unfoldable pub distinct : List ℕ → List ℕ
unfolding has
distinct [] = []
distinct (a ∷ addrs) = let rest = distinct addrs in if has a rest then rest else a ∷ rest

abbrev pub is_success : PubStatus → Bool
is_success push_success = true
is_success _ = false

-- The collector, as the handlers meet it: whether an address has a channel, and what the waiter of
-- an event sent there holds when the time of the call is up.
module _ (registered : ℕ → Bool) (outcome : ℕ → Option PubStatus) where
  -- `collector.send` and `wait_for`; an address without a channel is a KeyError
  send : ℕ → Outcome PubStatus
  send addr =
      if registered addr
      then returns (elim (outcome addr) [ none ↦ push_timeout | some status ↦ status ])
      else raises key_error

  abbrev all_registered : List ℕ → Bool
  all_registered [] = true
  all_registered (a ∷ addrs) = registered a && all_registered addrs

  -- Whether a waiter is pending, and whether the result of all that are done is PUSH_SUCCESS.
  abbrev any_pending : List ℕ → Bool
  any_pending [] = false
  any_pending (a ∷ addrs) = elim (outcome a) [ none ↦ true | some status ↦ any_pending addrs ]

  abbrev all_success : List ℕ → Bool
  all_success [] = true
  all_success (a ∷ addrs) = elim (outcome a) [
    | none ↦ all_success addrs
    | some status ↦ is_success status && all_success addrs
  ]

  -- `collector.send_mulitple` and `wait`
  send_multiple : List ℕ → Outcome PubStatus
  send_multiple addrs =
      if all_registered addrs
      then returns (
          if any_pending addrs
          then push_timeout
          else if all_success addrs
          then push_success
          else push_failed)
      else raises key_error

  -- The branches on the distinct addresses of a user.
  push_to : List ℕ → Outcome PubStatus
  unfolding send send_multiple
  push_to [] = returns push_offline
  push_to (addr ∷ []) = send addr
  push_to (a ∷ (b ∷ addrs)) = send_multiple (a ∷ (b ∷ addrs))

  -- `_inner_impl` of `_handler_helper`: the addresses that `redis_hgetall` gives
  unfoldable pub push_event : Awaited (List ℕ) → Outcome PubStatus
  unfolding push_to distinct
  push_event (finished (some results)) = push_to (distinct results)
  push_event (finished none) = returns push_failed
  push_event timed_out = returns push_timeout

  -- `_user_kicked_off_handler`: the address that `redis_hget` gives, empty or not
  unfoldable pub user_kicked_off : Awaited (Option ℕ) → Outcome PubStatus
  unfolding send
  user_kicked_off (finished (some (some addr))) = send addr
  user_kicked_off (finished (some none)) = returns push_offline
  user_kicked_off (finished none) = returns push_failed
  user_kicked_off timed_out = returns push_timeout

  -- `status in (PUSH_SUCCESS, PUSH_OFFLINE)`
  abbrev acks : PubStatus → Bool
  acks push_success = true
  acks push_offline = true
  acks _ = false

  -- `consume_event`: whether the message is acknowledged, or rejected and queued again
  unfoldable pub consume_event : Awaited (List ℕ) → Outcome Bool
  unfolding push_event
  consume_event answer = do status ← push_event answer; returns (acks status)
