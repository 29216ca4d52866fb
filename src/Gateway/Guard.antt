-- ===== src/Gateway/Guard.antt =====
-- chat/http_gateway/middlewares: the rate limiters (ratelimiter.py) and the block list
-- (allow_or_deny.py) in front of the handlers.
use tiny_chat_microservices.Prelude.{
  ℕ, ◌*◌, String, ◌≡◌, ◌↔◌, inl, inr, Option-cases, Option, none, some, arith, if◌then◌else◌,
  eq_iff, Dict, dict_get, dict_put, get-put,
}
use tiny_chat_microservices.Redis.{
  ResponseStatus, Awaited, redis_success, redis_failed, redis_timeout, RatelimiterStatus,
  rate_allowed, rate_rejected, rate_blocked, finished, timed_out,
}
use tiny_chat_microservices.Redis
use tiny_chat_microservices.Auth.{PyText, str, bytes, py_eq}
use tiny_chat_microservices.Gateway.{Response, respond, text, retry}

-- What a middleware does with a request: it calls the handler, or answers on its own.
pub data Decision (Token : Type 0) : Type 0 where
  handle : Decision Token
  answer : Response Token → Decision Token

module _ {Token : Type 0} where
  ip_code : ℕ → Option RatelimiterStatus → Decision Token
  ip_code sliding_window (some rate_allowed) = handle
  ip_code sliding_window (some rate_rejected) =
      answer (respond 429 (retry "Too Many Requests" (sliding_window * 1000)))
  ip_code sliding_window _ = answer (respond 403 (retry "Blocked" 600000))

  busy : ResponseStatus → Decision Token
  busy redis_timeout = answer (respond 504 (text "Busy now"))
  busy _ = answer (respond 502 (text "Busy now"))

  -- `ip_limiter`, with `sliding_window` in seconds: the pair that `redis_client.ip_ratelimiter` returns
  unfoldable pub ip_limiter : ℕ → Option RatelimiterStatus × ResponseStatus → Decision Token
  unfolding ip_code busy
  ip_limiter sliding_window (code, redis_success) = ip_code sliding_window code
  ip_limiter sliding_window (code, status) = busy status

  api_code : Option RatelimiterStatus → Decision Token
  api_code (some rate_allowed) = handle
  api_code _ = answer (respond 403 (text "Blocked"))

  -- `api_limiter`: the pair that `redis_client.token_ratelimiter` returns
  unfoldable pub api_limiter : Option RatelimiterStatus × ResponseStatus → Decision Token
  unfolding api_code busy
  api_limiter (code, redis_success) = api_code code
  api_limiter (code, status) = busy status

  blocked_value : Option PyText → Decision Token
  blocked_value none = answer (respond 403 (retry "Blocked" 3600000))
  blocked_value (some value) =
      if py_eq value (str "") then handle else answer (respond 403 (retry "Blocked" 3600000))

  -- The branches of `AllowOrDenyMiddleware.__call__` behind `redis_get`.
  unfoldable pub block_list : Option PyText × ResponseStatus → Decision Token
  unfolding blocked_value
  block_list (value, redis_success) = blocked_value value
  block_list (value, redis_timeout) = answer (respond 504 (retry "Gateway timeout" 2500))
  block_list (value, redis_failed) = answer (respond 502 (retry "Busy Now" 5000))

-- The cache of hashed addresses: the key of an address, and the cache with it. `md5` is the hash;
-- eviction of the LRU cache may have dropped entries of `cache` before.
unfoldable pub ip_key : (ℕ → String) → Dict String → ℕ → String × Dict String
ip_key md5 cache ip = elim (dict_get cache ip) [
  | none ↦ (md5 ip, dict_put cache ip (md5 ip))
  | some key ↦ (key, cache)
]

-- `AllowOrDenyMiddleware.__call__` on a request from `ip`: `get` is what Redis gives for a hashed
-- address.
unfoldable pub allow_or_deny :
    {Token : Type 0}
    → (ℕ → String)
    → (String → Awaited PyText)
    → Dict String
    → (ip : ℕ) → Decision Token × Dict String
allow_or_deny md5 get cache ip =
    let (key, cache') = ip_key md5 cache ip in (block_list (Redis.respond (get key)), cache')

-- Every cached key is the hash of its address.
abbrev pub IsHashed : (ℕ → String) → Dict String → Type 0
IsHashed md5 cache = (ip : ℕ) (key : String) → dict_get cache ip ≡ some key → key ≡ md5 ip

module _ (Token : Type 0) (md5 : ℕ → String) (get : String → Awaited PyText) where
  ip_key-hash :
      (cache : Dict String) (ip : ℕ) → IsHashed md5 cache → (ip_key md5 cache ip).0 ≡ md5 ip
  unfolding ip_key
  ip_key-hash cache ip h = elim (Option-cases (dict_get cache ip)) [
    | inl e ↦ rw (e, ip_key)
    | inr (key, e) ↦ rw (e, ip_key) (h ip key e)
  ]

  ip_key-IsHashed :
      (cache : Dict String) (ip : ℕ) → IsHashed md5 cache → IsHashed md5 (ip_key md5 cache ip).1
  unfolding ip_key
  ip_key-IsHashed cache ip h = elim (Option-cases (dict_get cache ip)) [
    | inl e ↦ rw (e, ip_key) (λ j key x. ground (arith, h j key, get-put cache ip j (md5 ip)))
    | inr (key, e) ↦ rw (e, ip_key) h
  ]

  block_list_exact :
      (a : Awaited PyText)
      → (block_list {Token = Token} (Redis.respond a) ≡ handle) ↔ (a ≡ finished (some (str "")))
  unfolding block_list Redis.respond py_eq
  block_list_exact timed_out = (λ e. absurd (ground arith), λ e. absurd (ground arith))
  block_list_exact (finished none) = (λ e. absurd (ground arith), λ e. absurd (ground arith))
  block_list_exact (finished (some (str s))) =
      (λ e. ground (arith, eq_iff s ""), λ e. ground (arith, eq_iff s ""))
  block_list_exact (finished (some (bytes s))) =
      (λ e. absurd (ground arith), λ e. absurd (ground arith))

  -- With a cache whose keys are hashes, a request reaches the handler exactly if Redis answers in
  -- time, with the empty text for the hash of the address that sent it, and the cache stays so.
  pub allow_or_deny_exact :
      (cache : Dict String) (ip : ℕ)
      → IsHashed md5 cache
      → (((allow_or_deny {Token = Token} md5 get cache ip).0 ≡ handle)
          ↔ (get (md5 ip) ≡ finished (some (str ""))))
        × IsHashed md5 (allow_or_deny {Token = Token} md5 get cache ip).1
  unfolding allow_or_deny
  allow_or_deny_exact cache ip h =
      (rw (ip_key-hash cache ip h) (block_list_exact (get (md5 ip))), ip_key-IsHashed cache ip h)
