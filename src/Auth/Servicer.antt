-- ===== src/Auth/Servicer.antt =====
-- chat/microservices/auth/auth_service.py: the methods of `AuthService`. The user service is what
-- `service_getter` finds, and answers as gRPC delivers; a method returns its reply, nothing if the
-- call was cancelled, or raises.
pub mod Login
pub mod Check
use tiny_chat_microservices.Prelude.{
  ℕ, String, Bool, Option, none, some, Outcome, returns, raises, attribute_error, key_error, ◌>>=◌,
}
use tiny_chat_microservices.Rpc
use tiny_chat_microservices.Rpc.{CallResult, GrpcFailure, timeout}
use tiny_chat_microservices.Users.{
  UserErrorCode, UserDetailedInfo, Reply, accepted, refused, unless_cancelled, incorrect_email,
  incorrect_pwd, not_exists, already_exists, db_timeout, redis_timeout, unknown_error,
}
use tiny_chat_microservices.Auth.{
  Jwt, AuthStatus, SetAnswer, Store, post_authenticate, refresh, authenticate,
}

-- `AuthOpStatus` and `AuthFailedDetailedInfo` of auth_user.proto
pub data AuthOpStatus : Type 0 where
  auth_success auth_failed auth_expired auth_timeout : AuthOpStatus

pub data AuthInfo : Type 0 where
  auth_incorrect_email auth_incorrect_pwd auth_incorrect_confirmation auth_not_exists
        auth_already_exists auth_unknown_error :
      AuthInfo

-- `DETAILED_INFO_MAP[code]`. The entry of USER_DB_TIMEOUT is AUTH_TIMEOUT, a number of the other
-- enum, which as an `AuthFailedDetailedInfo` reads AUTH_NOT_EXISTS; the methods below look up no
-- USER_DB_TIMEOUT.
unfoldable pub detailed_info_map : UserErrorCode → Outcome AuthInfo
detailed_info_map incorrect_email = returns auth_incorrect_email
detailed_info_map incorrect_pwd = returns auth_incorrect_pwd
detailed_info_map already_exists = returns auth_already_exists
detailed_info_map not_exists = returns auth_not_exists
detailed_info_map db_timeout = returns auth_not_exists
detailed_info_map unknown_error = returns auth_unknown_error
detailed_info_map redis_timeout = raises key_error

pub record AuthLoginReply (Token : Type 0) : Type 0 where
  pub status : AuthOpStatus
  pub info : Option AuthInfo
  pub user : Option UserDetailedInfo
  pub access_token : Option Token
  pub refresh_token : Option String

abbrev pub login_failed : {Token : Type 0} → AuthOpStatus → Option AuthInfo → AuthLoginReply Token
login_failed status info = record {
  status = status;
  info = info;
  user = none;
  access_token = none;
  refresh_token = none;
}

-- The reply to a refusal by the user service: a timeout, or a failure with its mapped code.
unfoldable pub refusal {ℓ} :
    {R : Type ℓ} → (AuthOpStatus → Option AuthInfo → R) → UserErrorCode → Outcome R
unfolding detailed_info_map
refusal reply db_timeout = returns (reply auth_timeout none)
refusal reply code = do info ← detailed_info_map code; returns (reply auth_failed (some info))

-- The reply to a call of the user service that did not succeed.
unfoldable pub call_failure {ℓ} :
    {R : Type ℓ} → (AuthOpStatus → Option AuthInfo → R) → GrpcFailure → R
call_failure reply timeout = reply auth_timeout none
call_failure reply _ = reply auth_failed (some auth_unknown_error)

module _ {Token : Type 0} (jwt : Jwt Token) where
  login_tokens :
      UserDetailedInfo → Option (Token × String) × Store → Outcome (AuthLoginReply Token) × Store
  login_tokens user (some (access_token, refresh_token), store) = (
    returns (record {
      status = auth_success;
      info = none;
      user = some user;
      access_token = some access_token;
      refresh_token = some refresh_token;
    }),
    store,
  )
  login_tokens user (none, store) = (returns (login_failed auth_timeout none), store)

  module _ (now : ℕ) (fresh : String) (answer : SetAnswer) where
    login_result :
        CallResult (Reply UserDetailedInfo) → Store → Outcome (AuthLoginReply Token) × Store
    unfolding login_tokens refusal call_failure
    login_result (Rpc.success (accepted user)) store =
        login_tokens user (post_authenticate jwt now fresh answer user.seq store)
    login_result (Rpc.success (refused code)) store = (refusal login_failed code, store)
    login_result (Rpc.failure failure info) store =
        (returns (call_failure login_failed failure), store)

    answer_unless_cancelled :
        Bool
        → Outcome (AuthLoginReply Token) × Store
        → Outcome (Option (AuthLoginReply Token)) × Store
    answer_unless_cancelled cancelled (reply, store) =
        ((do r ← reply; returns (unless_cancelled cancelled r)), store)

    -- `AuthLogin`
    unfoldable pub auth_login :
        Option (String → String → CallResult (Reply UserDetailedInfo))
        → (cancelled : Bool) (email password : String) → Store
        → Outcome (Option (AuthLoginReply Token)) × Store
    unfolding login_result answer_unless_cancelled
    auth_login none cancelled email password store = (raises attribute_error, store)
    auth_login (some user_login) cancelled email password store =
        answer_unless_cancelled cancelled (login_result (user_login email password) store)

pub record AuthTokenReply : Type 0 where
  pub status : AuthOpStatus
  pub uid : ℕ

token_reply : AuthStatus × ℕ → AuthTokenReply
token_reply (AuthStatus.success, uid) = record { status = auth_success; uid = uid }
token_reply (AuthStatus.expired, uid) = record { status = auth_expired; uid = uid }
token_reply (_, uid) = record { status = auth_failed; uid = 0 }

pub record AuthRefreshReply (Token : Type 0) : Type 0 where
  pub status : AuthOpStatus
  pub access_token : Option Token
  pub refresh_token : Option String

module _ {Token : Type 0} (jwt : Jwt Token) where
  -- `AuthToken`
  unfoldable pub auth_token : (decoded_at now : ℕ) → Token → AuthTokenReply
  unfolding token_reply
  auth_token decoded_at now access_token =
      token_reply (authenticate jwt decoded_at now access_token)

  refresh_reply : Option (Token × String) × Store → AuthRefreshReply Token × Store
  refresh_reply (some (access_token, refresh_token), store) = (
    record {
      status = auth_success;
      access_token = some access_token;
      refresh_token = some refresh_token;
    },
    store,
  )
  refresh_reply (none, store) =
      (record { status = auth_failed; access_token = none; refresh_token = none }, store)

  -- `AuthRefresh`
  unfoldable pub auth_refresh :
      (now : ℕ) (fresh : String)
      → SetAnswer
      → (reached : Bool) (uid : ℕ) (refresh_token : String) → Store
      → AuthRefreshReply Token × Store
  unfolding refresh_reply
  auth_refresh now fresh answer reached uid refresh_token store =
      refresh_reply (refresh jwt now fresh answer reached uid refresh_token store)
