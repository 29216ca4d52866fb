-- ===== src/Auth/Tokens.antt =====
-- What access and refresh tokens are worth (algo/backend.py).
use tiny_chat_microservices.Prelude.{
  ℕ, ◌+◌, ◌≤◌, ◌<◌, String, ◌≡◌, ◌≢◌, Bool, true, Option, none, some, ◌⊎◌, dict_get, arith, eq_iff,
  refl, sym, ap, inl, inr, Bool-cases, str_eq, false,
}
use tiny_chat_microservices.Auth.{
  Jwt, same_token, redis_text, retrieve_refresh_token, Payload, Decoded, decoded, check_payload,
  check_decoded, Store, SetAnswer, success, expired, authenticate, refresh, post_authenticate,
  generate_access_token, expiration_delta, leeway,
}

check_payload-success :
    (now uid : ℕ) (u e : Option ℕ)
    → check_payload now u e ≡ (success, uid)
    → (exp : ℕ) × (u ≡ some uid) × (e ≡ some exp)
unfolding check_payload
check_payload-success now uid (some u) (some e) h = (e, ground arith, refl)
check_payload-success now uid (some u) none h = absurd (ground arith)
check_payload-success now uid none e h = absurd (ground arith)

check_payload-expired :
    (now : ℕ) (u e : Option ℕ)
    → (check_payload now u e).0 ≡ expired
    → (exp : ℕ) × (e ≡ some exp) × (exp + leeway ≤ now)
unfolding check_payload
check_payload-expired now (some u) (some e) h = (e, refl, ground arith)
check_payload-expired now (some u) none h = absurd (ground arith)
check_payload-expired now none e h = absurd (ground arith)

check_decoded-success :
    (now uid : ℕ) (d : Decoded)
    → check_decoded now d ≡ (success, uid)
    → (exp : ℕ) × (d ≡ decoded (record { uid = some uid; exp = some exp }))
unfolding check_decoded
check_decoded-success now uid (decoded p) h =
    let (exp, u, e) = check_payload-success now uid p.uid p.exp h in (exp, ground arith)
check_decoded-success now uid _ h = absurd (ground arith)

check_decoded-expired :
    (now : ℕ) (d : Decoded)
    → (check_decoded now d).0 ≡ expired
    → (p : Payload) × (exp : ℕ) × (d ≡ decoded p) × (p.exp ≡ some exp) × (exp + leeway ≤ now)
unfolding check_decoded
check_decoded-expired now (decoded p) h =
    let (exp, e, k) = check_payload-expired now p.uid p.exp h in (p, exp, refl, e, k)
check_decoded-expired now _ h = absurd (ground arith)

same_token-redis_text :
    (o : Option String) (given : String)
    → same_token (some (redis_text o)) given ≡ true
    → (given ≡ "") × ((o ≡ none) ⊎ (o ≡ some ""))
unfolding same_token redis_text
same_token-redis_text none given h = (sym ((eq_iff "" given).0 h), inl refl)
same_token-redis_text (some v) given h = elim (Bool-cases (str_eq v "")) [
  | inl e ↦ (
    sym ((eq_iff "" given).0 (ground arith)),
    inr (ap (λ (t : String). some t) ((eq_iff v "").0 e)),
  )
  | inr e ↦ absurd (ground arith)
]

same_token-retrieve :
    (reached : Bool) (uid : ℕ) (store : Store) (given : String)
    → same_token (retrieve_refresh_token reached uid store) given ≡ true
    → (given ≡ "") × ((dict_get store uid ≡ none) ⊎ (dict_get store uid ≡ some ""))
unfolding retrieve_refresh_token
same_token-retrieve true uid store given h = same_token-redis_text (dict_get store uid) given h
same_token-retrieve false uid store given h = absurd (unfold same_token in ground arith)

module _ {Token : Type 0} (jwt : Jwt Token) where
  -- A token is authenticated for a user only if it is the encoding of a payload that names this
  -- user, and that payload's expiry lies after the moment of decoding.
  pub authenticate_sound :
      (decoded_at now uid : ℕ) (token : Token)
      → authenticate jwt decoded_at now token ≡ (success, uid)
      → (exp : ℕ) × (token ≡ jwt.encode (record { uid = some uid; exp = some exp }))
        × (decoded_at < exp)
  unfolding authenticate
  authenticate_sound decoded_at now uid token h =
      let (exp, d) = check_decoded-success now uid (jwt.decode decoded_at token) h in
      (exp, jwt.genuine decoded_at token _ d, jwt.unexpired decoded_at token _ exp d refl)

  -- The answer Expired, which is to make the client refresh its token, does not occur: within the
  -- leeway after decoding, a token that has expired was refused by the decoder already.
  pub authenticate-ne-expired :
      (decoded_at now : ℕ) (token : Token)
      → now ≤ decoded_at + leeway
      → (authenticate jwt decoded_at now token).0 ≢ expired
  unfolding authenticate
  authenticate-ne-expired decoded_at now token h = λ x.
      let (p, exp, d, e, k) = check_decoded-expired now (jwt.decode decoded_at token) x in
      absurd (omega (arith, jwt.unexpired decoded_at token p exp d e))

  -- If Redis confirms the refresh token, then `post_authenticate` hands out an access token, and
  -- this token authenticates its user as long as it is decoded before the expiration delta has
  -- passed since it was issued, and compared within the leeway after it was decoded.
  pub authenticate-post_authenticate :
      (issued uid decoded_at now : ℕ) (fresh : String) (answer : SetAnswer) (store : Store)
      → answer.reply ≡ some true
      → decoded_at < issued + expiration_delta
      → now ≤ decoded_at + leeway
      → (token : Token) × ((post_authenticate jwt issued fresh answer uid store).0
          ≡ some (token, fresh))
        × (authenticate jwt decoded_at now token ≡ (success, uid))
  unfolding authenticate check_decoded check_payload post_authenticate
  authenticate-post_authenticate issued uid decoded_at now fresh answer store ok h k = (
    generate_access_token jwt issued uid,
    ground arith,
    ground (arith, jwt.accepted decoded_at uid (issued + expiration_delta) h),
  )

  -- `refresh` hands out tokens only if the user has no refresh token in Redis, or an empty one, and
  -- the request carries the empty text: bytes from Redis are never equal to the request's text.
  pub refresh_only_without_token :
      (now : ℕ) (fresh : String) (answer : SetAnswer) (reached : Bool) (uid : ℕ) (given : String)
      (store : Store) (tokens : Token × String)
      → (refresh jwt now fresh answer reached uid given store).0 ≡ some tokens
      → (given ≡ "") × ((dict_get store uid ≡ none) ⊎ (dict_get store uid ≡ some ""))
  unfolding refresh
  refresh_only_without_token now fresh answer reached uid given store tokens h =
      elim (Bool-cases (same_token (retrieve_refresh_token reached uid store) given)) [
        | inl e ↦ same_token-retrieve reached uid store given e
        | inr e ↦ absurd (ground arith)
      ]
