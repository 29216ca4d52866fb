-- ===== src/WsGateway/Session.antt =====
-- chat/ws_gateway/manager/session.py: what `WebsocketSession` does before a session runs, and at its
-- end. Each function gives its result and the codes with which it closes the socket.
use tiny_chat_microservices.Prelude.{
  ℕ, String, Bool, true, false, Option, none, some, List, [], ◌∷◌, Outcome, returns, raises,
  attribute_error, if◌then◌else◌, str_eq, starts_with,
}
use tiny_chat_microservices.Rpc
use tiny_chat_microservices.Rpc.{CallResult, timeout}
use tiny_chat_microservices.Redis.{Awaited, finished, timed_out}
use tiny_chat_microservices.Auth.Servicer.{
  AuthTokenReply, AuthOpStatus, auth_success, auth_failed, auth_expired, auth_timeout,
}

-- The headers that `before_handshake` reads: the user id, if there is one and it is a number, and
-- the texts of the others, the platform in upper case.
pub record WsHeaders : Type 0 where
  pub seq : Option ℕ
  pub platform : Option String
  pub authorization : Option String
  pub appid : Option String

pub record Handshake : Type 0 where
  pub uid : ℕ
  pub user_device : String
  pub auth_field : String
  pub appid : String

-- `DEVICE_MAPPING`, with the numbers of `UserDeviceType`
unfoldable pub device_mapping : String → Option ℕ
device_mapping name =
    if str_eq name "TERMINAL"
    then some 0
    else if str_eq name "WEB"
    then some 1
    else if str_eq name "PC"
    then some 2
    else if str_eq name "ANDROID"
    then some 3
    else if str_eq name "IOS"
    then some 4
    else none

is_device : Option ℕ → Bool
is_device none = false
is_device (some n) = true

-- The checks behind the headers. An appid without the prefix closes the socket and goes on.
check_headers : (appid_prefix : String) → Handshake → Option Handshake × List ℕ
unfolding device_mapping is_device
check_headers appid_prefix h =
    if is_device (device_mapping h.user_device)
    then if starts_with h.auth_field "Bearer "
      then (some h, if starts_with h.appid appid_prefix then [] else 400 ∷ [])
      else (none, 400 ∷ [])
    else (none, 400 ∷ [])

read_headers : WsHeaders → Option Handshake
read_headers headers = do_read headers.seq headers.platform headers.authorization headers.appid
  where
    do_read : Option ℕ → Option String → Option String → Option String → Option Handshake
    do_read (some uid) (some device) (some auth) (some appid) =
        some (record { uid = uid; user_device = device; auth_field = auth; appid = appid })
    do_read _ _ _ _ = none

-- `before_handshake`
unfoldable pub before_handshake : (appid_prefix : String) → WsHeaders → Option Handshake × List ℕ
unfolding check_headers read_headers
before_handshake appid_prefix headers = elim (read_headers headers) [
  | none ↦ (none, 400 ∷ [])
  | some h ↦ check_headers appid_prefix h
]

-- What `websocket_upgrade` did: its result, whether it accepted, and the codes.
pub record Upgrade : Type 0 where
  pub success : Bool
  pub accepted : Bool
  pub closes : List ℕ

upgrade_status : AuthOpStatus → Upgrade
upgrade_status auth_success = record { success = true; accepted = true; closes = [] }
upgrade_status auth_expired = record { success = false; accepted = true; closes = 4001 ∷ [] }
upgrade_status auth_timeout = record { success = false; accepted = true; closes = 1013 ∷ [] }
upgrade_status auth_failed = record { success = false; accepted = false; closes = 403 ∷ [] }

upgrade_result : CallResult AuthTokenReply → Upgrade
unfolding upgrade_status
upgrade_result (Rpc.success reply) = upgrade_status reply.status
upgrade_result (Rpc.failure timeout info) = record {
  success = false;
  accepted = true;
  closes = 1013 ∷ [];
}
upgrade_result (Rpc.failure _ info) = record {
  success = false;
  accepted = false;
  closes = 403 ∷ [];
}

-- `websocket_upgrade`, on a connection that stays open; `token` is the field without its first
-- seven characters
unfoldable pub websocket_upgrade {ℓ} :
    {Token : Type ℓ}
    → Option (Token → CallResult AuthTokenReply)
    → (token : Token) → Outcome Upgrade
unfolding upgrade_result
websocket_upgrade none token = raises attribute_error
websocket_upgrade (some auth_token) token = returns (upgrade_result (auth_token token))

-- How a client answers the question whether the other connection is to be kicked off: `b"1"`,
-- anything else, not within 5 seconds, or by losing the connection.
pub data Answer : Type 0 where
  confirms refuses is_silent is_gone : Answer

-- `negotiate_kick_off`
unfoldable pub negotiate_kick_off : Answer → Bool × List ℕ
negotiate_kick_off confirms = (true, [])
negotiate_kick_off refuses = (false, 1000 ∷ [])
negotiate_kick_off is_silent = (false, 4003 ∷ [])
negotiate_kick_off is_gone = (false, [])

some_first : Bool × List ℕ → Option Bool × List ℕ
some_first (b, closes) = (some b, closes)

-- `check_multi_devices`: whether the address that `redis_hget` gives is not empty
unfoldable pub check_multi_devices : Awaited Bool → Answer → Option Bool × List ℕ
unfolding negotiate_kick_off some_first
check_multi_devices (finished (some true)) answer = some_first (negotiate_kick_off answer)
check_multi_devices (finished (some false)) answer = (none, [])
check_multi_devices (finished none) answer = (some false, 1013 ∷ [])
check_multi_devices timed_out answer = (some false, 1013 ∷ [])

-- `activate`
unfoldable pub activate : Awaited ℕ → Bool × List ℕ
activate (finished (some added)) = (true, [])
activate (finished none) = (false, 1011 ∷ [])
activate timed_out = (false, 1013 ∷ [])

-- `deactivate`; where it fails it leaves one more attempt to a task
unfoldable pub deactivate : Awaited ℕ → Bool
deactivate (finished (some removed)) = true
deactivate (finished none) = false
deactivate timed_out = false
