-- ===== src/Auth/Servicer/Check.antt =====
-- What a reply of `AuthToken` says of the token.
use tiny_chat_microservices.Prelude.{ℕ, ◌+◌, ◌≤◌, ◌≡◌, ◌≢◌, arith, refl}
use tiny_chat_microservices.Auth.{Jwt, AuthStatus, success, expired, authenticate, leeway}
use tiny_chat_microservices.Auth.Tokens.{authenticate-ne-expired}
use tiny_chat_microservices.Auth.Servicer.{auth_success, auth_expired, auth_token, token_reply}

token_reply-success :
    (a : AuthStatus × ℕ)
    → (token_reply a).status ≡ auth_success
    → a ≡ (success, (token_reply a).uid)
unfolding token_reply
token_reply-success (success, uid) h = refl
token_reply-success (expired, uid) h = absurd (ground arith)
token_reply-success (_, uid) h = absurd (ground arith)

token_reply-expired : (a : AuthStatus × ℕ) → (token_reply a).status ≡ auth_expired → a.0 ≡ expired
unfolding token_reply
token_reply-expired (success, uid) h = absurd (ground arith)
token_reply-expired (expired, uid) h = refl
token_reply-expired (_, uid) h = absurd (ground arith)

module _ {Token : Type 0} (jwt : Jwt Token) (decoded_at now : ℕ) (token : Token) where
  pub auth_token-success :
      (auth_token jwt decoded_at now token).status ≡ auth_success
      → authenticate jwt decoded_at now token ≡ (success, (auth_token jwt decoded_at now token).uid)
  unfolding auth_token
  auth_token-success h = token_reply-success (authenticate jwt decoded_at now token) h

  pub auth_token-ne-expired :
      now ≤ decoded_at + leeway → (auth_token jwt decoded_at now token).status ≢ auth_expired
  unfolding auth_token
  auth_token-ne-expired h = λ e.
      authenticate-ne-expired jwt decoded_at now token h
        (token_reply-expired (authenticate jwt decoded_at now token) e)
