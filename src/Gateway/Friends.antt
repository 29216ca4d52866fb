-- ===== src/Gateway/Friends.antt =====
-- chat/http_gateway/routes/friend.py: requests for a friendship, their confirmation and the list of
-- friends. What a route hands to the broker in a task of its own is part of its result.
use tiny_chat_microservices.Prelude.{
  ℕ, String, ◌≡◌, Option, none, some, List, if◌then◌else◌, ◌==◌, arith, starts_with,
}
use tiny_chat_microservices.Rpc
use tiny_chat_microservices.Rpc.{CallResult, timeout}

-- `RelationLink`
pub record RelationLink : Type 0 where
  pub request_id : ℕ
  pub address_id : ℕ

-- The events that go to the broker; the message of a request may be missing.
pub data FriendEvent : Type 0 where
  friend_request_event : (uid username email : String) → RelationLink → Option String → FriendEvent
  friend_confirm_event : RelationLink → (action session_id : ℕ) → FriendEvent

pub record FriendInfo : Type 0 where
  pub session_id : ℕ
  pub seq : ℕ
  pub uid : String
  pub username : String
  pub email : String
  pub remark : String

pub data FriendBody : Type 0 where
  empty : FriendBody
  text : String → FriendBody
  session : ℕ → FriendBody
  friends : List FriendInfo → FriendBody

-- The response, and the event that is published with it.
pub record Answer : Type 0 where
  pub status : ℕ
  pub body : FriendBody
  pub published : Option FriendEvent

abbrev pub refuse : ℕ → FriendBody → Answer
refuse status body = record { status = status; body = body; published = none }

-- `friend_request`; `request_id` is the user id of the scope, and the form holds the rest, with a
-- `request_uid` in hexadecimal, which is sent in binary.
unfoldable pub friend_request :
    (appid_prefix appid : String)
    → (request_id address_id : ℕ) → (uid username email : String) → (request_msg : Option String)
    → Answer
friend_request appid_prefix appid request_id address_id uid username email request_msg =
    if starts_with appid appid_prefix
    then record {
      status = 200;
      body = empty;
      published = some (
          friend_request_event uid username email
            (record { request_id = request_id; address_id = address_id }) request_msg);
    }
    else refuse 400 (text "Invalid Request")

abbrev pub confirmed : RelationLink → (action session_id : ℕ) → Answer
confirmed link action session_id = record {
  status = 200;
  body = session session_id;
  published = some (friend_confirm_event link action session_id);
}

-- The id that a new friendship gets; the snowflake service is `none` if `find_service` gives None.
unfoldable pub with_snowflake : RelationLink → Option (CallResult ℕ) → Answer
with_snowflake link none = refuse 500 empty
with_snowflake link (some (Rpc.success snowflake_id)) = confirmed link 0 snowflake_id
with_snowflake link (some (Rpc.failure timeout i)) = refuse 504 empty
with_snowflake link (some (Rpc.failure _ i)) = refuse 400 empty

-- `friend_confirm`; the action 0 accepts.
unfoldable pub friend_confirm :
    (appid_prefix appid : String)
    → RelationLink
    → (action : ℕ) → (snowflake_service : Option (CallResult ℕ)) → Answer
unfolding with_snowflake
friend_confirm appid_prefix appid link action snowflake_service =
    if starts_with appid appid_prefix
    then if action == 0 then with_snowflake link snowflake_service else confirmed link action 0
    else refuse 400 (text "Invalid Request")

pub data FriendStatus : Type 0 where
  friend_success friend_timeout friend_failed other_status : FriendStatus

-- What is answered to the list of friends. A field of protobuf that is not set reads as the empty text.
unfoldable pub friend_list : FriendStatus → List FriendInfo → Answer
friend_list friend_success infos = record { status = 200; body = friends infos; published = none }
friend_list friend_timeout infos = refuse 504 (text "Sorry, timeout, try later")
friend_list friend_failed infos = refuse 504 (text "Sorry, timeout, please try it again")
friend_list other_status infos = refuse 503 (text "Sorry, something wrong, please try it later")

-- `get_friends`
unfoldable pub get_friends : Option (CallResult (FriendStatus × List FriendInfo)) → Answer
unfolding friend_list
get_friends none = refuse 500 empty
get_friends (some (Rpc.success (status, infos))) = friend_list status infos
get_friends (some (Rpc.failure timeout i)) = refuse 504 empty
get_friends (some (Rpc.failure _ i)) = refuse 400 empty

-- The session id that a confirmation is answered is the one that is published, and an accepted request
-- has the one that the snowflake service gave.
pub friend_confirm-session :
    (appid_prefix appid : String) (link : RelationLink) (action session_id : ℕ)
    (service : Option (CallResult ℕ))
    → (friend_confirm appid_prefix appid link action service).body ≡ session session_id
    → ((friend_confirm appid_prefix appid link action service).published
        ≡ some (friend_confirm_event link action session_id))
      × ((friend_confirm appid_prefix appid link action service).status ≡ 200)
unfolding friend_confirm with_snowflake
friend_confirm-session appid_prefix appid link action session_id service e = ground arith
