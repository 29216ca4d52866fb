-- ===== src/Examples/Libraries.antt =====
-- Concrete functions for the libraries: tokens and links that are their own payloads, a channel that
-- delivers every reply, and a password hash that is the password.
use tiny_chat_microservices.Prelude.{
  ap, ℕ, ◌<◌, ◌≡◌, refl, String, true, Option, none, some, Outcome, returns, raises, arith,
  if◌then◌else◌, ltb, str_eq, Bool-cases, inl, inr,
}
use tiny_chat_microservices.Rpc
use tiny_chat_microservices.Rpc.{CallResult, Channel, failed, exception}
use tiny_chat_microservices.Db.{ExecutionResult, success}
use tiny_chat_microservices.Users.{UserRecord, UserDetailedInfo}
use tiny_chat_microservices.Auth.{Jwt, Payload, Decoded, decoded, invalid_token_error, SetAnswer}
use tiny_chat_microservices.Auth.Confirmation.{Serializer, Confirmation, loaded}

abbrev pub decode_until : ℕ → Payload → Option ℕ → Decoded
decode_until now p none = invalid_token_error
decode_until now p (some exp) = if ltb now exp then decoded p else invalid_token_error

pub decode_until-decoded :
    (now : ℕ) (p q : Payload) (e : Option ℕ)
    → decode_until now p e ≡ decoded q
    → (p ≡ q) × ((exp : ℕ) × (e ≡ some exp) × (now < exp))
decode_until-decoded now p q none h = absurd (ground arith)
decode_until-decoded now p q (some exp) h = elim (Bool-cases (ltb now exp)) [
  | inl t ↦ (ground arith, (exp, refl, ground arith))
  | inr f ↦ absurd (ground arith)
]

pub decode_until-unexpired :
    (now : ℕ) (p q : Payload) (exp : ℕ)
    → decode_until now p p.exp ≡ decoded q
    → q.exp ≡ some exp
    → now < exp
decode_until-unexpired now p q exp h e =
    let (same, (x, px, l)) = decode_until-decoded now p q p.exp h in ground arith

pub decode_until-accepted :
    (now uid exp : ℕ)
    → now < exp
    → decode_until now (record { uid = some uid; exp = some exp }) (some exp)
      ≡ decoded (record { uid = some uid; exp = some exp })
decode_until-accepted now uid exp h = ground arith

abbrev pub plain_jwt : Jwt Payload
plain_jwt = record {
  encode = λ p. p;
  decode = λ now p. decode_until now p p.exp;
  genuine = λ now p q h. (decode_until-decoded now p q p.exp h).0;
  unexpired = λ now p q exp h e. decode_until-unexpired now p q exp h e;
  accepted = λ now uid exp h. decode_until-accepted now uid exp h;
}

pub loaded_injective : (link c : Confirmation) → loaded link ≡ loaded c → link ≡ c
loaded_injective link c h = cc

pub stamped_link :
    (link : ℕ × Confirmation) (c : Confirmation)
    → loaded link.1 ≡ loaded c
    → (stamp : ℕ) × (link ≡ (stamp, c))
stamped_link (stamp, d) c h = (stamp, ap (λ x. (stamp, x)) (loaded_injective d c h))

abbrev pub plain_serializer : Serializer (ℕ × Confirmation)
plain_serializer = record {
  dumps = λ stamp c. (stamp, c);
  loads = λ link. loaded link.1;
  loads-dumps = λ stamp c. refl;
  genuine = λ link c h. stamped_link link c h;
}

abbrev pub deliver_all : {A : Type 0} → Outcome (Option A) → CallResult A
deliver_all (returns (some a)) = Rpc.success a
deliver_all (returns none) = Rpc.failure failed exception
deliver_all (raises e) = Rpc.failure failed exception

pub deliver_all-faithful :
    (A : Type 0) (served : Outcome (Option A)) (reply : A)
    → deliver_all served ≡ Rpc.success reply
    → served ≡ returns (some reply)
deliver_all-faithful A (returns (some a)) reply h = ground arith
deliver_all-faithful A (returns none) reply h = absurd (ground arith)
deliver_all-faithful A (raises e) reply h = absurd (ground arith)

abbrev pub direct_channel : {A : Type 0} → Channel A
direct_channel {A} = record {
  deliver = deliver_all;
  faithful = λ served reply h. deliver_all-faithful A served reply h;
}

abbrev pub ann : UserRecord
ann = record { seq = 7; uid = "u7"; username = "Ann"; password = "secret"; confirmed = true }

abbrev pub ann_info : UserDetailedInfo
ann_info = record { seq = 7; uid = "u7"; username = "Ann" }

abbrev pub find_ann : String → Option (ExecutionResult UserRecord)
find_ann email =
    if str_eq email "ann@x.org"
    then some (record { status = success; payload = some ann })
    else some (record { status = success; payload = none })

abbrev pub stored : SetAnswer
stored = record { reply = some true; written = true }
