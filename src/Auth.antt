-- ===== src/Auth.antt =====
-- chat/microservices/auth: tokens (algo/authentication.py, algo/backend.py), the store of refresh
-- tokens in Redis (auth_handler.py) and the servicer (Auth/Servicer.antt).
-- PyJWT is the parameter `Jwt`; the text of an access token is an abstract type. Redis answers a
-- write by an argument, and the tokens that it holds are a dict from user ids to texts.
pub mod Servicer
pub mod Confirmation
pub mod Tokens
use tiny_chat_microservices.Prelude.{
  ℕ, ◌+◌, ◌<◌, String, ◌≡◌, Bool, true, false, Option, none, some, ◌&&◌, Dict, dict_get, dict_put,
  if◌then◌else◌, ltb, str_eq, not,
}

-- `Configuraton`: EXPIRATION_DELTA and LEEWAY, in seconds
abbrev pub expiration_delta : ℕ
expiration_delta = 864000

abbrev pub leeway : ℕ
leeway = 180

-- The claims that the program writes and reads.
pub record Payload : Type 0 where
  pub uid : Option ℕ
  pub exp : Option ℕ

-- How `jwt.decode` ends.
pub data Decoded : Type 0 where
  decoded : Payload → Decoded
  immature_signature_error invalid_signature_error invalid_token_error other_error : Decoded

-- PyJWT with the program's secret and algorithm, and `verify_exp` on: what `decode` accepts at a
-- time was encoded under that secret and has not expired then, and what was encoded is accepted
-- until it expires. An expired token raises ExpiredSignatureError, an InvalidTokenError.
pub record Jwt (Token : Type 0) : Type 0 where
  pub encode : Payload → Token
  pub decode : ℕ → Token → Decoded
  pub genuine :
      (now : ℕ) (token : Token) (p : Payload) → decode now token ≡ decoded p → token ≡ encode p
  pub unexpired :
      (now : ℕ) (token : Token) (p : Payload) (exp : ℕ)
      → decode now token ≡ decoded p
      → p.exp ≡ some exp
      → now < exp
  pub accepted :
      (now uid exp : ℕ)
      → now < exp
      → decode now (encode (record { uid = some uid; exp = some exp }))
        ≡ decoded (record { uid = some uid; exp = some exp })

-- `AuthStatus`
pub data AuthStatus : Type 0 where
  success expired invalid_token invalid_signature invalid_payload : AuthStatus

-- A text as Python holds it: redis-py returns bytes, the program's own literals are `str`, and the
-- two are never equal.
pub data PyText : Type 0 where
  str bytes : String → PyText

unfoldable pub py_eq : PyText → PyText → Bool
py_eq (str s) (str t) = str_eq s t
py_eq (bytes s) (bytes t) = str_eq s t
py_eq (str s) (bytes t) = false
py_eq (bytes s) (str t) = false

-- `RedisHandlerMixin.redis_get`: `await self.get(key) or ""`
unfoldable pub redis_text : Option String → PyText
redis_text none = str ""
redis_text (some value) = if str_eq value "" then str "" else bytes value

-- How Redis answers a SET: what the client returns as data, and whether the value was written.
pub record SetAnswer : Type 0 where
  pub reply : Option Bool
  pub written : Bool

abbrev pub Store : Type 0
Store = Dict String

-- `store_refresh_token`
unfoldable pub store_refresh_token : SetAnswer → ℕ → String → Store → Option Bool × Store
store_refresh_token answer uid refresh_token store =
    (answer.reply, if answer.written then dict_put store uid refresh_token else store)

-- `retrieve_refresh_token`: `reached` says whether the read reached Redis in time; else it gives None
unfoldable pub retrieve_refresh_token : Bool → ℕ → Store → Option PyText
unfolding redis_text
retrieve_refresh_token reached uid store =
    if reached then some (redis_text (dict_get store uid)) else none

-- `redis_refresh_token != user_refresh_token`, negated
unfoldable pub same_token : Option PyText → String → Bool
unfolding py_eq
same_token none user_refresh_token = false
same_token (some kept) user_refresh_token = py_eq kept (str user_refresh_token)

module _ {Token : Type 0} (jwt : Jwt Token) where
  -- `generate_access_token`
  unfoldable pub generate_access_token : (now uid : ℕ) → Token
  generate_access_token now uid =
      jwt.encode (record { uid = some uid; exp = some (now + expiration_delta) })

  -- The test `if not result` and the two returns behind it.
  tokens_if_stored : Option Bool × Store → Token → String → Option (Token × String) × Store
  tokens_if_stored (some true, store) access_token refresh_token =
      (some (access_token, refresh_token), store)
  tokens_if_stored (some false, store) access_token refresh_token = (none, store)
  tokens_if_stored (none, store) access_token refresh_token = (none, store)

  -- `post_authenticate`; `fresh` is the random refresh token
  unfoldable pub post_authenticate :
      (now : ℕ) (fresh : String) → SetAnswer → (uid : ℕ) → Store → Option (Token × String) × Store
  unfolding tokens_if_stored generate_access_token store_refresh_token
  post_authenticate now fresh answer uid store =
      tokens_if_stored (store_refresh_token answer uid fresh store) (generate_access_token now uid)
        fresh

  -- `refresh`
  unfoldable pub refresh :
      (now : ℕ) (fresh : String)
      → SetAnswer
      → (reached : Bool) (uid : ℕ) (user_refresh_token : String) → Store
      → Option (Token × String) × Store
  unfolding tokens_if_stored generate_access_token store_refresh_token retrieve_refresh_token
      same_token
  refresh now fresh answer reached uid user_refresh_token store =
      if same_token (retrieve_refresh_token reached uid store) user_refresh_token
      then tokens_if_stored (store_refresh_token answer uid fresh store)
          (generate_access_token now uid) fresh
      else (none, store)

-- `is_payload_valid` and the two `int(payload[…])` behind it
check_payload : ℕ → Option ℕ → Option ℕ → AuthStatus × ℕ
check_payload now (some uid) (some exp) = (if ltb now (exp + leeway) then success else expired, uid)
check_payload now (some uid) none = (invalid_payload, 0)
check_payload now none exp = (invalid_payload, 0)

check_decoded : ℕ → Decoded → AuthStatus × ℕ
unfolding check_payload
check_decoded now (decoded payload) = check_payload now payload.uid payload.exp
check_decoded now immature_signature_error = (invalid_signature, 0)
check_decoded now invalid_signature_error = (invalid_signature, 0)
check_decoded now invalid_token_error = (invalid_token, 0)
check_decoded now other_error = (invalid_payload, 0)

module _ {Token : Type 0} (jwt : Jwt Token) where
  -- `authenticate`; the token is decoded at `decoded_at`, and its expiry is compared at `now`
  unfoldable pub authenticate : (decoded_at now : ℕ) → Token → AuthStatus × ℕ
  unfolding check_decoded
  authenticate decoded_at now access_token = check_decoded now (jwt.decode decoded_at access_token)
