-- ===== src/Gateway/Authentication.antt =====
-- chat/http_gateway/middlewares/auth.py: `HttpAuthentication.authenticate_token` and the decorator
-- `auth_token`, which lets only authenticated requests reach a handler. The text behind `Bearer ` in
-- the header is the token; the digest authentication of the metrics is not modelled.
pub mod Protected
use tiny_chat_microservices.Prelude.{ℕ, String, Option, none, some, PyError, attribute_error}
use tiny_chat_microservices.Rpc
use tiny_chat_microservices.Rpc.{CallResult, GrpcFailure, timeout}
use tiny_chat_microservices.Auth.Servicer.{
  AuthOpStatus, auth_success, auth_expired, auth_timeout, AuthTokenReply, AuthRefreshReply,
}
use tiny_chat_microservices.Gateway.{Response, respond, text}

-- The header `Authorization`, if it starts with `Bearer ` or not, and the header `refresh_token`.
pub data Authorization (Token : Type 0) : Type 0 where
  bearer : Token → Authorization Token
  other : Authorization Token

pub record Headers (Token : Type 0) : Type 0 where
  pub authorization : Option (Authorization Token)
  pub refresh_token : Option String

-- `AuthService` as the gateway calls it.
pub record AuthClient (Token : Type 0) : Type 0 where
  pub auth_token : Token → CallResult AuthTokenReply
  pub auth_refresh : ℕ → String → CallResult (AuthRefreshReply Token)

-- How `authenticate_token` ends: with a user id, with one and new tokens, with an
-- AuthenticationError, or with another exception.
pub data Verdict (Token : Type 0) : Type 0 where
  user_id : ℕ → Verdict Token
  refreshed : ℕ → Option Token → Option String → Verdict Token
  authentication_error : ℕ → String → Verdict Token
  crashed : PyError → Verdict Token

module _ {Token : Type 0} where
  call_error : GrpcFailure → Verdict Token
  call_error timeout = authentication_error 504 "auth service is busy"
  call_error _ = authentication_error 400 "invalid request"

  -- The branches that neither succeed nor need a refresh.
  refusal : AuthOpStatus → Verdict Token
  refusal auth_timeout = authentication_error 504 "user service timeout"
  refusal _ = authentication_error 401 "invalid token"

  refresh_status : ℕ → AuthOpStatus → AuthRefreshReply Token → Verdict Token
  unfolding refusal
  refresh_status uid auth_success reply = refreshed uid reply.access_token reply.refresh_token
  refresh_status uid status reply = refusal status

  refresh_result : ℕ → CallResult (AuthRefreshReply Token) → Verdict Token
  unfolding refresh_status call_error
  refresh_result uid (Rpc.success reply) = refresh_status uid reply.status reply
  refresh_result uid (Rpc.failure failure info) = call_error failure

  try_refresh : AuthClient Token → Option String → ℕ → Verdict Token
  unfolding refresh_result
  try_refresh service none uid = authentication_error 400 "missing refresh_token"
  try_refresh service (some token) uid = refresh_result uid (service.auth_refresh uid token)

  token_status : AuthClient Token → Option String → AuthOpStatus → ℕ → Verdict Token
  unfolding try_refresh refusal
  token_status service refresh_token auth_success uid = user_id uid
  token_status service refresh_token auth_expired uid = try_refresh service refresh_token uid
  token_status service refresh_token status uid = refusal status

  token_result : AuthClient Token → Option String → CallResult AuthTokenReply → Verdict Token
  unfolding token_status call_error
  token_result service refresh_token (Rpc.success reply) =
      token_status service refresh_token reply.status reply.uid
  token_result service refresh_token (Rpc.failure failure info) = call_error failure

  -- `authenticate_token`; the service is what `service_getter()` gives
  unfoldable pub authenticate_token : Option (AuthClient Token) → Headers Token → Verdict Token
  unfolding token_result
  authenticate_token service headers = elim headers.authorization [
    | none ↦ authentication_error 400 "missing access_token"
    | some other ↦ authentication_error 400 "invalid Authorization"
    | some (bearer token) ↦ elim service [
      | none ↦ crashed attribute_error
      | some client ↦ token_result client headers.refresh_token (client.auth_token token)
    ]
  ]

  -- What the decorated handler does: the user id under which the inner handler ran, if it ran, and
  -- the response; an exception other than AuthenticationError leaves it, and the server answers 500.
  unfoldable pub guarded : Verdict Token → (ℕ → Response Token) → Option ℕ × Response Token
  guarded (user_id uid) handler = (some uid, handler uid)
  guarded (refreshed uid access_token refresh_token) handler = (
    some uid,
    record (handler uid) { access_token = access_token; refresh_token = refresh_token },
  )
  guarded (authentication_error code message) handler = (none, respond code (text message))
  guarded (crashed exc) handler = (none, respond 500 (text "Internal server error"))

  -- `auth_token`
  unfoldable pub auth_token :
      Option (AuthClient Token) → (ℕ → Response Token) → Headers Token → Option ℕ × Response Token
  unfolding authenticate_token guarded
  auth_token service handler headers = guarded (authenticate_token service headers) handler
