-- ===== src/Gateway/Authentication/Protected.antt =====
-- A handler behind `auth_token` of middlewares/auth.py, with the token checked by the auth service.
use tiny_chat_microservices.Prelude.{
  ℕ, ◌+◌, ◌≤◌, ◌<◌, ◌≡◌, ◌≢◌, Option, none, some, String, arith, refl, sym, ap, ◌∙◌, returns,
}
use tiny_chat_microservices.Rpc
use tiny_chat_microservices.Rpc.{CallResult, Channel, GrpcFailure}
use tiny_chat_microservices.Auth.{Jwt, AuthStatus, leeway}
use tiny_chat_microservices.Auth.Tokens.{authenticate_sound}
use tiny_chat_microservices.Auth.Servicer
use tiny_chat_microservices.Auth.Servicer.{
  AuthOpStatus, auth_success, auth_expired, AuthTokenReply, AuthRefreshReply, auth_timeout,
  auth_failed,
}
use tiny_chat_microservices.Auth.Servicer.Check.{auth_token-success, auth_token-ne-expired}
use tiny_chat_microservices.Gateway.{Response}
use tiny_chat_microservices.Gateway.Authentication.{
  Headers, Authorization, bearer, other, AuthClient, authenticate_token, guarded, auth_token,
  token_result, token_status, refusal, call_error,
}

module _ {Token : Type 0} (client : AuthClient Token) (refresh_token : Option String)
    (handler : ℕ → Response Token) (uid : ℕ) where
  refusal_runs :
      (status : AuthOpStatus) → (guarded {Token = Token} (refusal status) handler).0 ≢ some uid
  unfolding refusal guarded
  refusal_runs status = λ h. ground arith

  token_status_runs :
      (status : AuthOpStatus) (u : ℕ)
      → status ≢ auth_expired
      → (guarded (token_status client refresh_token status u) handler).0 ≡ some uid
      → (status ≡ auth_success)
        × (u ≡ uid)
        × ((guarded (token_status client refresh_token status u) handler).1 ≡ handler uid)
  unfolding token_status guarded
  token_status_runs auth_success u live h = (refl, ground arith, ground arith)
  token_status_runs auth_expired u live h = absurd (live refl)
  token_status_runs auth_timeout u live h = absurd (ground arith)
  token_status_runs auth_failed u live h = absurd (ground arith)

  token_result_runs :
      (result : CallResult AuthTokenReply)
      → ((reply : AuthTokenReply) → result ≡ Rpc.success reply → reply.status ≢ auth_expired)
      → (guarded (token_result client refresh_token result) handler).0 ≡ some uid
      → (reply : AuthTokenReply) × (result ≡ Rpc.success reply)
        × (reply.status ≡ auth_success)
        × (reply.uid ≡ uid)
        × ((guarded (token_result client refresh_token result) handler).1 ≡ handler uid)
  unfolding token_result
  token_result_runs (Rpc.success reply) live h =
      let (s, u, r) = token_status_runs reply.status reply.uid (live reply refl) h in
      (reply, refl, s, u, r)
  token_result_runs (Rpc.failure failure info) live h =
      absurd (unfold call_error guarded in ground arith)

module _ {Token : Type 0} (jwt : Jwt Token) (decoded_at now : ℕ) (channel : Channel AuthTokenReply)
    (auth_refresh : ℕ → String → CallResult (AuthRefreshReply Token)) where
  -- The auth service as the gateway sees it over a channel.
  abbrev pub client : AuthClient Token
  client = record {
    auth_token =
        λ token. channel.deliver (returns (some (Servicer.auth_token jwt decoded_at now token)));
    auth_refresh = auth_refresh;
  }

  delivered :
      (token : Token) (reply : AuthTokenReply)
      → client.auth_token token ≡ Rpc.success reply
      → reply ≡ Servicer.auth_token jwt decoded_at now token
  delivered token reply h =
      returned
        (channel.faithful (returns (some (Servicer.auth_token jwt decoded_at now token))) reply h)
    where
      returned :
          returns (some (Servicer.auth_token jwt decoded_at now token)) ≡ returns (some reply)
          → reply ≡ Servicer.auth_token jwt decoded_at now token
      returned e = cc

  bearer_runs :
      (handler : ℕ → Response Token) (refresh_token : Option String) (token : Token) (uid : ℕ)
      → now ≤ decoded_at + leeway
      → (guarded (token_result client refresh_token (client.auth_token token)) handler).0 ≡ some uid
      → (exp : ℕ) × (token ≡ jwt.encode (record { uid = some uid; exp = some exp }))
        × (decoded_at < exp)
        × ((guarded (token_result client refresh_token (client.auth_token token)) handler).1
            ≡ handler uid)
  bearer_runs handler refresh_token token uid h e =
      let (reply, d, s, u, r) =
        token_result_runs client refresh_token handler uid (client.auth_token token)
          (λ reply d x.
            auth_token-ne-expired jwt decoded_at now token h
              (ap (λ (a : AuthTokenReply). a.status) (sym (delivered token reply d)) ∙ x))
          e in
      let q = delivered token reply d in
      let st : (Servicer.auth_token jwt decoded_at now token).status ≡ auth_success =
        ap (λ (a : AuthTokenReply). a.status) (sym q) ∙ s in
      let au : (Servicer.auth_token jwt decoded_at now token).uid ≡ uid =
        ap (λ (a : AuthTokenReply). a.uid) (sym q) ∙ u in
      let (exp, t, l) = authenticate_sound jwt decoded_at now uid token (
        auth_token-success jwt decoded_at now token st
        ∙ ap (λ (k : ℕ). (AuthStatus.success, k)) au) in
      (exp, t, l, r)

  header_runs :
      (handler : ℕ → Response Token) (header : Option (Authorization Token))
      (refresh_token : Option String) (uid : ℕ)
      → now ≤ decoded_at + leeway
      → (guarded
          (authenticate_token
            (some client)
            (record { authorization = header; refresh_token = refresh_token }))
          handler).0
        ≡ some uid
      → (exp : ℕ) × (header
          ≡ some (bearer (jwt.encode (record { uid = some uid; exp = some exp }))))
        × (decoded_at < exp)
        × ((guarded
              (authenticate_token
                (some client)
                (record { authorization = header; refresh_token = refresh_token }))
              handler).1
            ≡ handler uid)
  unfolding authenticate_token
  header_runs handler (some (bearer token)) refresh_token uid h e =
      let (exp, t, l, r) = bearer_runs handler refresh_token token uid h e in
      (exp, ap (λ (k : Token). some (bearer k)) t, l, r)
  header_runs handler (some other) refresh_token uid h e = absurd (unfold guarded in ground arith)
  header_runs handler none refresh_token uid h e = absurd (unfold guarded in ground arith)

  -- Within the leeway after the token was decoded, a handler behind `auth_token` runs only for a
  -- request whose bearer token was encoded for the user under whose id it runs and had not expired
  -- when it was decoded; the response then is the handler's, unchanged.
  pub auth_token_sound :
      (handler : ℕ → Response Token) (headers : Headers Token) (uid : ℕ)
      → now ≤ decoded_at + leeway
      → (auth_token (some client) handler headers).0 ≡ some uid
      → (exp : ℕ) × (headers.authorization
          ≡ some (bearer (jwt.encode (record { uid = some uid; exp = some exp }))))
        × (decoded_at < exp)
        × ((auth_token (some client) handler headers).1 ≡ handler uid)
  unfolding auth_token
  auth_token_sound handler headers uid h e =
      header_runs handler headers.authorization headers.refresh_token uid h e
