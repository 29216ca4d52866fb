-- ===== src/Gateway/Account.antt =====
-- chat/http_gateway/routes/user.py: login, registration, confirmation, refresh and query. A service
-- is what `grpc_manager.find_service` gives, and its answer what the gRPC wrapper returns.
use tiny_chat_microservices.Prelude.{
  String, Option, none, some, List, [], ◌∷◌, if◌then◌else◌, starts_with,
}
use tiny_chat_microservices.Rpc
use tiny_chat_microservices.Rpc.{CallResult, GrpcFailure, Info, timeout}
use tiny_chat_microservices.Users.{
  UserErrorCode, UserDetailedInfo, Reply, accepted, refused, db_timeout, not_exists,
}
use tiny_chat_microservices.Auth.Servicer.{
  AuthOpStatus, AuthInfo, AuthLoginReply, AuthRefreshReply, auth_success, auth_expired,
  auth_timeout, auth_incorrect_email, auth_incorrect_pwd, auth_not_exists, auth_already_exists,
}
use tiny_chat_microservices.Auth.Confirmation.{AuthRegisterReply, AuthConfirmReply}
use tiny_chat_microservices.Gateway.{
  Response, Body, respond, empty, user, err_code, info, text, tokens,
}

-- A field of protobuf that is not set reads as its enum's first member.
unfoldable pub info_of : Option AuthInfo → AuthInfo
info_of none = auth_incorrect_email
info_of (some i) = i

-- The two branches that every route has for a call that did not succeed.
unfoldable pub call_failed : {Token : Type 0} → GrpcFailure → Info → Response Token
call_failed timeout i = respond 504 empty
call_failed _ i = respond 400 (info i)

module _ {Token : Type 0} where
  unfoldable pub login_refused : AuthInfo → Response Token
  login_refused auth_incorrect_email = respond 401 (err_code 0)
  login_refused auth_incorrect_pwd = respond 401 (err_code 1)
  login_refused auth_not_exists = respond 202 empty
  login_refused _ = respond 503 empty

  login_user : Option UserDetailedInfo → Body Token
  login_user none = empty
  login_user (some u) = user u

  unfoldable pub login_status : AuthOpStatus → AuthLoginReply Token → Response Token
  unfolding login_refused login_user info_of
  login_status auth_success reply = record {
    status = 200;
    body = login_user reply.user;
    access_token = reply.access_token;
    refresh_token = reply.refresh_token;
  }
  login_status auth_timeout reply = respond 504 empty
  login_status _ reply = login_refused (info_of reply.info)

  unfoldable pub login_result : CallResult (AuthLoginReply Token) → Response Token
  unfolding login_status call_failed
  login_result (Rpc.success reply) = login_status reply.status reply
  login_result (Rpc.failure failure i) = call_failed failure i

  -- `login`
  unfoldable pub login :
      Option (String → String → CallResult (AuthLoginReply Token))
      → (email password : String) → Response Token
  unfolding login_result
  login none email password = respond 500 empty
  login (some auth_login) email password = login_result (auth_login email password)

  unfoldable pub register_refused : AuthInfo → Response Token
  register_refused auth_already_exists = respond 202 empty
  register_refused _ = respond 502 empty

  -- `refresh_token`
  unfoldable pub refresh_status : AuthRefreshReply Token → Response Token
  refresh_status reply = elim reply.status [
    | auth_success ↦ respond 200 (tokens reply.access_token reply.refresh_token)
    | auth_timeout ↦ respond 504 empty
    | _ ↦ respond 403 empty
  ]

  refresh_failed : GrpcFailure → Response Token
  refresh_failed timeout = respond 504 empty
  refresh_failed _ = respond 400 empty

  unfoldable pub refresh_token : Option (CallResult (AuthRefreshReply Token)) → Response Token
  unfolding refresh_status refresh_failed
  refresh_token none = respond 500 empty
  refresh_token (some (Rpc.success reply)) = refresh_status reply
  refresh_token (some (Rpc.failure failure i)) = refresh_failed failure

  query_refused : UserErrorCode → Response Token
  query_refused db_timeout = respond 504 empty
  query_refused not_exists = respond 404 empty
  query_refused _ = respond 502 empty

  query_result : Option (CallResult (Reply UserDetailedInfo)) → Response Token
  unfolding query_refused call_failed
  query_result none = respond 500 empty
  query_result (some (Rpc.success (accepted u))) = respond 200 (user u)
  query_result (some (Rpc.success (refused code))) = query_refused code
  query_result (some (Rpc.failure failure i)) = call_failed failure i

  -- `query_user`: the form's email, if it has one, and the user service for it
  unfoldable pub query_user :
      Option (String → CallResult (Reply UserDetailedInfo)) → Option String → Response Token
  unfolding query_result
  query_user service none = respond 400 (text "Missing required field in the form")
  query_user none (some email) = respond 500 empty
  query_user (some ask) (some email) = query_result (some (ask email))

-- A background task that publishes the mail with a confirmation link: its address and the link.
pub record Mail (Link : Type 0) : Type 0 where
  pub address : String
  pub link : Option Link

module _ {Token Link : Type 0} where
  unfoldable pub register_status :
      String → AuthRegisterReply Link → AuthOpStatus → Response Token × List (Mail Link)
  unfolding register_refused info_of
  register_status email reply auth_success =
      (respond 200 empty, record { address = email; link = reply.token } ∷ [])
  register_status email reply auth_timeout = (respond 504 empty, [])
  register_status email reply _ = (register_refused (info_of reply.info), [])

  unfoldable pub register_result :
      String → CallResult (AuthRegisterReply Link) → Response Token × List (Mail Link)
  unfolding register_status call_failed
  register_result email (Rpc.success reply) = register_status email reply reply.status
  register_result email (Rpc.failure failure i) = (call_failed failure i, [])

  -- `register`, with the mails that it hands to background tasks
  unfoldable pub register :
      (appid_prefix appid email : String)
      → Option (CallResult (AuthRegisterReply Link))
      → Response Token × List (Mail Link)
  unfolding register_result
  register appid_prefix appid email service =
      if starts_with appid appid_prefix
      then elim service [
        | none ↦ (respond 500 empty, [])
        | some result ↦ register_result email result
      ]
      else (respond 400 (text "Invalid Request"), [])

module _ {Token : Type 0} where
  confirm_status : AuthOpStatus → Response Token
  confirm_status auth_success = respond 200 (text "Confirmed Successfully")
  confirm_status auth_expired = respond 200 (text "Sorry, this activate link has expired.")
  confirm_status auth_timeout = respond 504 (text "Sorry, timeout, please try it again")
  confirm_status _ = respond 503 (text "Sorry, something wrong, please try it later")

  -- `confirm`
  unfoldable pub confirm : Option (CallResult AuthConfirmReply) → Response Token
  unfolding confirm_status call_failed
  confirm none = respond 500 empty
  confirm (some (Rpc.success reply)) = confirm_status reply.status
  confirm (some (Rpc.failure failure i)) = call_failed failure i
