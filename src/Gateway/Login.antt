-- ===== src/Gateway/Login.antt =====
-- A login across the services: routes/user.py calls auth_service.py, which calls user_servicer.py.
use tiny_chat_microservices.Prelude.{
  ℕ, String, ◌≡◌, ◌≢◌, Bool, true, false, Option, some, returns, arith, refl, ap, ◌∙◌,
}
use tiny_chat_microservices.Rpc
use tiny_chat_microservices.Rpc.{CallResult, Channel, GrpcFailure, Info}
use tiny_chat_microservices.Db.{ExecutionResult}
use tiny_chat_microservices.Users.{UserRecord, UserDetailedInfo, Reply, accepted, user_login}
use tiny_chat_microservices.Users.Login.{Admits, user_login-accepted, user_login-Admits}
use tiny_chat_microservices.Auth.{Jwt, SetAnswer, Store, generate_access_token}
use tiny_chat_microservices.Auth.Servicer.{
  AuthInfo, AuthOpStatus, auth_success, auth_timeout, AuthLoginReply, auth_login,
}
use tiny_chat_microservices.Auth.Servicer.Login.{granted, auth_login-granted, auth_login-accepted}
use tiny_chat_microservices.Gateway.{Response, user}
use tiny_chat_microservices.Gateway.Account.{
  login, login_result, login_status, login_refused, call_failed, info_of,
}

module _ (Token : Type 0) where
  login_refused-status : (i : AuthInfo) → (login_refused {Token = Token} i).status ≢ 200
  unfolding login_refused
  login_refused-status i = λ h. ground arith

  call_failed-status :
      (failure : GrpcFailure) (i : Info) → (call_failed {Token = Token} failure i).status ≢ 200
  unfolding call_failed
  call_failed-status failure i = λ h. ground arith

module _ {Token : Type 0} where
  login_status-ok :
      (status : AuthOpStatus) (reply : AuthLoginReply Token)
      → (login_status status reply).status ≡ 200
      → status ≡ auth_success
  unfolding login_status
  login_status-ok auth_success reply h = refl
  login_status-ok auth_timeout reply h = absurd (ground arith)
  login_status-ok _ reply h = absurd (login_refused-status Token (info_of reply.info) h)

  login_result-ok :
      (result : CallResult (AuthLoginReply Token))
      → (login_result result).status ≡ 200
      → (reply : AuthLoginReply Token) × (result ≡ Rpc.success reply)
        × (reply.status ≡ auth_success)
  unfolding login_result
  login_result-ok (Rpc.success reply) h = (reply, refl, login_status-ok reply.status reply h)
  login_result-ok (Rpc.failure failure i) h = absurd (call_failed-status Token failure i h)

-- The three services of one login: what the executor finds, how passwords are checked, when the
-- tokens are made, and how Redis answers.
module _ {Token : Type 0} (jwt : Jwt Token) (now : ℕ) (fresh : String) (answer : SetAnswer)
    (check : String → String → Bool) (find : String → Option (ExecutionResult UserRecord))
    (to_user : Channel (Reply UserDetailedInfo)) (to_auth : Channel (AuthLoginReply Token))
    (store : Store) where
  -- `UserService` as the auth service sees it, and `AuthService` as the gateway sees it.
  abbrev pub user_service : Bool → String → String → CallResult (Reply UserDetailedInfo)
  user_service cancelled email password =
      to_user.deliver (returns (user_login check find cancelled email password))

  abbrev pub auth_service : Bool → Bool → String → String → CallResult (AuthLoginReply Token)
  auth_service cancelled_user cancelled email password =
      to_auth.deliver
        (auth_login jwt now fresh answer (some (user_service cancelled_user)) cancelled email
          password store).0

  -- The response to a login that succeeds.
  abbrev pub welcome : UserDetailedInfo → Response Token
  welcome u = record {
    status = 200;
    body = user u;
    access_token = some (generate_access_token jwt now u.seq);
    refresh_token = some fresh;
  }

  -- A login is answered 200 only if the executor found a confirmed row for the email whose hash fits
  -- the password and Redis confirmed the refresh token; the response then is the welcome of the user
  -- of this row, with an access token for this user and the refresh token.
  pub login_sound :
      (cancelled_user cancelled : Bool) (email password : String)
      → (login (some (auth_service cancelled_user cancelled)) email password).status ≡ 200
      → (u : UserDetailedInfo) × Admits check (find email) password u
        × (answer.reply ≡ some true)
        × (login (some (auth_service cancelled_user cancelled)) email password ≡ welcome u)
  unfolding login login_result login_status
  login_sound cancelled_user cancelled email password h =
      let (reply, d, s) =
        login_result-ok (auth_service cancelled_user cancelled email password) h in
      let (u, c, ok, g) =
        auth_login-granted jwt now fresh answer (user_service cancelled_user) cancelled email
          password store reply (to_auth.faithful _ reply d) s in
      (
        u,
        user_login-accepted check find cancelled_user email password u
            (served u (to_user.faithful _ (accepted u) c)),
        ok,
        ap login_result (d ∙ ap Rpc.success g),
      )
    where
      served :
          (u : UserDetailedInfo)
          → returns (user_login check find cancelled_user email password)
            ≡ returns (some (accepted u))
          → user_login check find cancelled_user email password ≡ some (accepted u)
      served u e = cc

  -- The other way round: if the row is there and fits, Redis confirms the write, no call is
  -- cancelled and both channels deliver what the servicers return, the login is answered by the
  -- welcome of this user.
  pub login_complete :
      (email password : String) (u : UserDetailedInfo)
      → Admits check (find email) password u
      → answer.reply ≡ some true
      → ((reply : Reply UserDetailedInfo)
          → to_user.deliver (returns (some reply)) ≡ Rpc.success reply)
      → ((reply : AuthLoginReply Token)
          → to_auth.deliver (returns (some reply)) ≡ Rpc.success reply)
      → login (some (auth_service false false)) email password ≡ welcome u
  unfolding login login_result login_status
  login_complete email password u a ok deliver_user deliver_auth =
      let c : user_service false email password ≡ Rpc.success (accepted u) =
        ap (λ r. to_user.deliver (returns r)) (user_login-Admits check find email password u a)
        ∙ deliver_user (accepted u) in
      ap login_result (
        ap to_auth.deliver (
          auth_login-accepted jwt now fresh answer (user_service false) email password store u c ok)
        ∙ deliver_auth (granted jwt now fresh answer u))
