-- ===== src/Gateway.antt =====
-- chat/http_gateway: what the routes and middlewares answer over HTTP.
pub mod Account
pub mod Login
pub mod Register
pub mod Authentication
pub mod Guard
pub mod Inbox
pub mod Friends
use tiny_chat_microservices.Prelude.{ℕ, String, Option, none}
use tiny_chat_microservices.Rpc.{Info}
use tiny_chat_microservices.Users.{UserDetailedInfo}

-- The contents that the handlers send. The UUID of a user is sent as it is stored, not in
-- hexadecimal.
pub data Body (Token : Type 0) : Type 0 where
  empty : Body Token
  user : UserDetailedInfo → Body Token
  err_code : ℕ → Body Token
  info : Info → Body Token
  text : String → Body Token
  tokens : Option Token → Option String → Body Token
  -- an explanation, and `retry_after` in milliseconds
  retry : String → ℕ → Body Token

-- A response: its status, its content and the two headers in which the tokens travel.
pub record Response (Token : Type 0) : Type 0 where
  pub status : ℕ
  pub body : Body Token
  pub access_token : Option Token
  pub refresh_token : Option String

abbrev pub respond : {Token : Type 0} → ℕ → Body Token → Response Token
respond status body = record {
  status = status;
  body = body;
  access_token = none;
  refresh_token = none;
}
