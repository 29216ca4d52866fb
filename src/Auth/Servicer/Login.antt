-- ===== src/Auth/Servicer/Login.antt =====
-- When `AuthLogin` of auth_service.py succeeds, and with what.
use tiny_chat_microservices.Prelude.{
  ℕ, String, ◌≡◌, ◌≢◌, Bool, true, false, Option, none, some, returns, arith, refl,
}
use tiny_chat_microservices.Rpc
use tiny_chat_microservices.Rpc.{CallResult, GrpcFailure}
use tiny_chat_microservices.Users.{UserDetailedInfo, Reply, accepted, refused, UserErrorCode}
use tiny_chat_microservices.Auth.{
  Jwt, SetAnswer, Store, store_refresh_token, tokens_if_stored, post_authenticate,
  generate_access_token,
}
use tiny_chat_microservices.Auth.Servicer.{
  AuthLoginReply, auth_success, auth_login, login_result, login_tokens, refusal, call_failure,
  login_failed,
}

module _ {Token : Type 0} (jwt : Jwt Token) (now : ℕ) (fresh : String) (answer : SetAnswer) where
  -- The reply of a login that succeeds.
  abbrev pub granted : UserDetailedInfo → AuthLoginReply Token
  granted user = record {
    status = auth_success;
    info = none;
    user = some user;
    access_token = some (generate_access_token jwt now user.seq);
    refresh_token = some fresh;
  }

  stored_tokens :
      (stored : Option Bool) (user : UserDetailedInfo) (store : Store)
      (reply : AuthLoginReply Token)
      → (login_tokens jwt user
          (tokens_if_stored jwt (stored, store) (generate_access_token jwt now user.seq) fresh)).0
        ≡ returns reply
      → reply.status ≡ auth_success
      → (stored ≡ some true) × (reply ≡ granted user)
  unfolding login_tokens tokens_if_stored
  stored_tokens (some true) user store reply h s = (refl, ground arith)
  stored_tokens (some false) user store reply h s = absurd (ground arith)
  stored_tokens none user store reply h s = absurd (ground arith)

  refusal-fails :
      (code : UserErrorCode) (reply : AuthLoginReply Token)
      → refusal login_failed code ≡ returns reply
      → reply.status ≢ auth_success
  unfolding refusal
  refusal-fails code reply h = λ s. ground arith

  call_failure-fails :
      (failure : GrpcFailure)
      → (call_failure (login_failed {Token = Token}) failure).status ≢ auth_success
  unfolding call_failure
  call_failure-fails failure = λ s. ground arith

  login_result-granted :
      (result : CallResult (Reply UserDetailedInfo)) (store : Store) (reply : AuthLoginReply Token)
      → (login_result jwt now fresh answer result store).0 ≡ returns reply
      → reply.status ≡ auth_success
      → (user : UserDetailedInfo) × (result ≡ Rpc.success (accepted user))
        × (answer.reply ≡ some true)
        × (reply ≡ granted user)
  unfolding login_result
  login_result-granted (Rpc.success (accepted user)) store reply h s =
      let (stored, e) =
        stored_tokens answer.reply user (store_refresh_token answer user.seq fresh store).1 reply
          (unfold post_authenticate in h) s in
      (user, refl, stored, e)
  login_result-granted (Rpc.success (refused code)) store reply h s =
      absurd (refusal-fails code reply h s)
  login_result-granted (Rpc.failure failure info) store reply h s =
      absurd (ground (arith, call_failure-fails failure))

  pub auth_login-granted :
      (user_service : String → String → CallResult (Reply UserDetailedInfo)) (cancelled : Bool)
      (email password : String) (store : Store) (reply : AuthLoginReply Token)
      → (auth_login jwt now fresh answer (some user_service) cancelled email password store).0
        ≡ returns (some reply)
      → reply.status ≡ auth_success
      → (user : UserDetailedInfo) × (user_service email password ≡ Rpc.success (accepted user))
        × (answer.reply ≡ some true)
        × (reply ≡ granted user)
  unfolding auth_login
  auth_login-granted user_service cancelled email password store reply h s =
      login_result-granted (user_service email password) store reply (ground arith) s

  pub auth_login-accepted :
      (user_service : String → String → CallResult (Reply UserDetailedInfo))
      (email password : String) (store : Store) (user : UserDetailedInfo)
      → user_service email password ≡ Rpc.success (accepted user)
      → answer.reply ≡ some true
      → (auth_login jwt now fresh answer (some user_service) false email password store).0
        ≡ returns (some (granted user))
  unfolding auth_login login_result login_tokens post_authenticate
  auth_login-accepted user_service email password store user e ok =
      rw (e, login_result) (ground arith)
