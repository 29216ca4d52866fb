-- ===== src/Friends.antt =====
-- chat/microservices/user: the servicer of friends (friend_servicer.py) and the transaction that
-- makes two users friends (executor/friend.py). What the statements answer are arguments;
-- `cancelled` is what `context.cancelled()` says.
pub mod Confirm
use tiny_chat_microservices.Prelude.{
  ℕ, zero, suc, ◌+◌, String, Bool, true, false, Option, none, some, List, [], ◌∷◌, Outcome, returns,
  raises, type_error, not_implemented, if◌then◌else◌,
}
use tiny_chat_microservices.Db.{
  ExecutionStatus, ExecutionResult, success, timeout_handling, info_dup_entry,
}
use tiny_chat_microservices.Users.{unless_cancelled}

-- `FriendOpStatus` of friend.proto
pub data FriendOpStatus : Type 0 where
  friend_success friend_timeout friend_failed : FriendOpStatus

-- The branches that the methods have on the status of a result.
unfoldable pub op_status : ExecutionStatus → FriendOpStatus
op_status success = friend_success
op_status timeout_handling = friend_timeout
op_status _ = friend_failed

-- `AddFriend`
unfoldable pub add_friend {ℓ} :
    {A : Type ℓ} → Option (ExecutionResult A) → Bool → Option FriendOpStatus
unfolding op_status
add_friend none cancelled = some friend_failed
add_friend (some result) cancelled = unless_cancelled cancelled (op_status result.status)

-- The columns of a friend that are sent.
pub record FriendDetailedInfo : Type 0 where
  pub session_id : ℕ
  pub seq : ℕ
  pub uid : String
  pub username : String
  pub email : String
  pub remark : Option String

pub record FriendListReply : Type 0 where
  pub status : FriendOpStatus
  pub friends : List FriendDetailedInfo

-- A list that is not set reads as the empty one, so the test `if query_data` leaves no trace.
friends_of : Option (List FriendDetailedInfo) → List FriendDetailedInfo
friends_of none = []
friends_of (some friends) = friends

friend_list_status : ExecutionStatus → Option (List FriendDetailedInfo) → FriendListReply
unfolding friends_of
friend_list_status success query_data = record {
  status = friend_success;
  friends = friends_of query_data;
}
friend_list_status timeout_handling query_data = record { status = friend_timeout; friends = [] }
friend_list_status _ query_data = record { status = friend_failed; friends = [] }

-- `GetFriendList`
unfoldable pub get_friend_list :
    Option (ExecutionResult (List FriendDetailedInfo)) → Bool → Option FriendListReply
unfolding friend_list_status
get_friend_list none cancelled = some (record { status = friend_failed; friends = [] })
get_friend_list (some result) cancelled =
    unless_cancelled cancelled (friend_list_status result.status result.payload)

-- How a call of `create_friend` ends: its body ran to the end, it was not run since no connection
-- could be had in time, or it raised TransactionFailed with a status. Only a body that ran to its
-- end is committed.
pub data CreateFriend : Type 0 where
  committed : CreateFriend
  not_run : CreateFriend
  transaction_failed : ExecutionStatus → CreateFriend

-- `create_friend` with its statuses of the two statements; the second failure raises the status of
-- the first. `reserved` says whether `time_reserve` runs the body.
unfoldable pub create_friend : (reserved : Bool) → ExecutionStatus → ExecutionStatus → CreateFriend
create_friend false inserted responded = not_run
create_friend true success success = committed
create_friend true success responded = transaction_failed success
create_friend true inserted responded = transaction_failed inserted

-- One pass of the loop of `ConfirmFriend`; `none` goes round again. A call that was not run returns
-- as one that was, and `session_id` reads 0 where it is not set, never None.
unfoldable pub confirm_pass : CreateFriend → Option FriendOpStatus
confirm_pass committed = some friend_success
confirm_pass not_run = some friend_success
confirm_pass (transaction_failed info_dup_entry) = none
confirm_pass (transaction_failed timeout_handling) = some friend_timeout
confirm_pass (transaction_failed _) = some friend_failed

-- The loop: `attempt n` is how the n-th call of `create_friend` ends, and `cancelled n` what
-- `context.cancelled()` says at the n-th test. `none` means that the fuel ran out.
module _ (attempt : ℕ → CreateFriend) (cancelled : ℕ → Bool) where
  unfoldable pub confirm_accepted : (fuel n : ℕ) → Option (Option FriendOpStatus)
  unfolding confirm_pass
  confirm_accepted zero n = none
  confirm_accepted (suc fuel) n = elim (cancelled n) [
    | true ↦ some none
    | false ↦ elim (confirm_pass (attempt n)) [
      | some reply ↦ some (unless_cancelled (cancelled (n + 1)) reply)
      | none ↦ confirm_accepted fuel (n + 1)
    ]
  ]

-- `FriendRequestAction`, and any other number
pub data FriendRequestAction : Type 0 where
  accept_it reject_it ignore_it other_action : FriendRequestAction

-- The end of `ConfirmFriend` for a rejected or ignored request. Without a connection the executor
-- returns None, which cannot be unpacked into `result, _`.
respond_result {ℓ} :
    {A : Type ℓ} → Option (ExecutionResult A) → Bool → Outcome (Option FriendOpStatus)
unfolding op_status
respond_result none cancelled = raises type_error
respond_result (some result) cancelled =
    returns (unless_cancelled cancelled (op_status result.status))

-- `ConfirmFriend`
unfoldable pub confirm_friend {ℓ} :
    {A : Type ℓ}
    → FriendRequestAction
    → (ℕ → CreateFriend)
    → (respond : Option (ExecutionResult A)) → (cancelled : ℕ → Bool) → (fuel : ℕ)
    → Option (Outcome (Option FriendOpStatus))
unfolding confirm_accepted respond_result
confirm_friend accept_it attempt respond cancelled fuel =
    elim (confirm_accepted attempt cancelled fuel 0) [
      | none ↦ none
      | some reply ↦ some (returns reply)
    ]
confirm_friend other_action attempt respond cancelled fuel = some (raises not_implemented)
confirm_friend _ attempt respond cancelled fuel = some (respond_result respond (cancelled 0))
