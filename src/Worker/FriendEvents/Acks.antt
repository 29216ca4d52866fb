-- ===== src/Worker/FriendEvents/Acks.antt =====
-- What is known when the workers acknowledge a friend event.
use tiny_chat_microservices.Prelude.{
  ℕ, zero, suc, ◌≡◌, ◌≢◌, ◌<◌, refl, Bool, true, false, Option, none, some, List, [], returns, ◌⊎◌,
  inl, inr, arith,
}
use tiny_chat_microservices.Rpc
use tiny_chat_microservices.Rpc.{CallResult}
use tiny_chat_microservices.Redis.{Awaited, finished, timed_out}
use tiny_chat_microservices.Push.{
  PubStatus, push_success, push_offline, push_failed, push_timeout, push_event,
}
use tiny_chat_microservices.Push.Handler.{all, confirmed, push_event-success}
use tiny_chat_microservices.Db.{ExecutionResult, info_dup_entry}
use tiny_chat_microservices.Friends.{
  FriendOpStatus, friend_success, friend_timeout, friend_failed, CreateFriend, committed, not_run,
  transaction_failed, confirm_friend, accept_it,
}
use tiny_chat_microservices.Friends.Confirm.{confirm_friend-success}
use tiny_chat_microservices.Worker.Outbox.{user_online_check}
use tiny_chat_microservices.Worker.FriendEvents.{
  acks, push_data, push_to_gateway, settle_online, push_handler, call_status, sql_handler,
}

sql_handler-acks :
    (answer : Option (CallResult FriendOpStatus))
    → sql_handler (call_status answer) ≡ acks
    → answer ≡ some (Rpc.success friend_success)
unfolding sql_handler call_status
sql_handler-acks none h = absurd (ground arith)
sql_handler-acks (some (Rpc.success friend_success)) h = refl
sql_handler-acks (some (Rpc.success friend_timeout)) h = absurd (ground arith)
sql_handler-acks (some (Rpc.success friend_failed)) h = absurd (ground arith)
sql_handler-acks (some (Rpc.failure kind info)) h = absurd (ground arith)

push_to_gateway-true :
    (answer : Option (CallResult PubStatus))
    → push_to_gateway answer ≡ true
    → (answer ≡ some (Rpc.success push_success)) ⊎ (answer ≡ some (Rpc.success push_offline))
unfolding push_to_gateway push_data
push_to_gateway-true none h = absurd (ground arith)
push_to_gateway-true (some (Rpc.success push_success)) h = inl refl
push_to_gateway-true (some (Rpc.success push_offline)) h = inr refl
push_to_gateway-true (some (Rpc.success push_failed)) h = absurd (ground arith)
push_to_gateway-true (some (Rpc.success push_timeout)) h = absurd (ground arith)
push_to_gateway-true (some (Rpc.failure kind info)) h = absurd (ground arith)

-- A friend event is acknowledged by the worker that writes only after a call of `create_friend` that
-- was committed or not run.
pub sql_handler-committed :
    (answer : Option (CallResult FriendOpStatus)) (attempt : ℕ → CreateFriend)
    (respond : Option (ExecutionResult ℕ)) (cancelled : ℕ → Bool) (fuel : ℕ)
    → ((status : FriendOpStatus)
        → answer ≡ some (Rpc.success status)
        → confirm_friend accept_it attempt respond cancelled fuel ≡ some (returns (some status)))
    → sql_handler (call_status answer) ≡ acks
    → (m : ℕ) × ((attempt m ≡ committed) ⊎ (attempt m ≡ not_run))
      × ((i : ℕ) → i < m → attempt i ≡ transaction_failed info_dup_entry)
sql_handler-committed answer attempt respond cancelled fuel reply h =
    confirm_friend-success attempt respond cancelled fuel
      (reply friend_success (sql_handler-acks answer h))

module _ (registered : ℕ → Bool) (outcome : ℕ → Option PubStatus) (addrs : Awaited (List ℕ)) where
  -- The receiver was told: every gateway that Redis has for the user confirmed the event.
  abbrev pub Told : Type 0
  Told =
      (results : List ℕ) × (addrs ≡ finished (some results))
      × (results ≢ [])
      × (all (confirmed registered outcome) results ≡ true)

  settled :
      (answer : Awaited ℕ) (pushed : Bool)
      → settle_online (user_online_check answer) pushed ≡ acks
      → (answer ≡ finished (some 0)) ⊎ (pushed ≡ true)
  unfolding user_online_check settle_online
  settled timed_out pushed h = absurd (ground arith)
  settled (finished none) pushed h = absurd (ground arith)
  settled (finished (some zero)) pushed h = inl refl
  settled (finished (some (suc n))) true h = inr refl
  settled (finished (some (suc n))) false h = absurd (ground arith)

  -- When the push worker acknowledges a friend event, and a reply of the push service is what its
  -- handler gave, then Redis counted no gateway for the receiver, or every gateway that Redis has for
  -- the receiver confirmed the event, or the push service found the receiver offline. So no failure
  -- of Redis or of the push service, and no missing service, loses an event that can be delivered.
  pub push_handler-acks :
      (answer : Awaited ℕ) (service : Option (CallResult PubStatus))
      → ((status : PubStatus)
          → service ≡ some (Rpc.success status)
          → push_event registered outcome addrs ≡ returns status)
      → push_handler answer service ≡ acks
      → (answer ≡ finished (some 0))
        ⊎ (Told ⊎ (push_event registered outcome addrs ≡ returns push_offline))
  unfolding push_handler
  push_handler-acks answer service reply h = elim (settled answer (push_to_gateway service) h) [
    | inl offline ↦ inl offline
    | inr pushed ↦ inr (elim (push_to_gateway-true service pushed) [
      | inl e ↦ inl ((push_event-success registered outcome addrs).0 (reply push_success e))
      | inr e ↦ inr (reply push_offline e)
    ])
  ]
