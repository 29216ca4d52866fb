-- ===== src/Examples/Auth.antt =====
-- Tokens, links and logins of one user.
use tiny_chat_microservices.Prelude.{
  ℕ, zero, suc, ◌+◌, ◌≤◌, ◌<◌, ◌≡◌, refl, String, Bool, true, false, Option, none, some, returns,
  arith, [],
}
use tiny_chat_microservices.Rpc
use tiny_chat_microservices.Rpc.{CallResult}
use tiny_chat_microservices.Db.{ExecutionResult}
use tiny_chat_microservices.Db
use tiny_chat_microservices.Users.{UserRecord, Reply, accepted, user_register}
use tiny_chat_microservices.Users.Register.{duplicate, row_reply, user_register-row}
use tiny_chat_microservices.Auth.{Payload, success, Store, authenticate, post_authenticate}
use tiny_chat_microservices.Auth.Tokens.{authenticate_sound, authenticate-post_authenticate}
use tiny_chat_microservices.Auth.Servicer.{auth_success}
use tiny_chat_microservices.Auth.Confirmation.{Confirmation, auth_register_confirm}
use tiny_chat_microservices.Auth.Confirmation.Links.{confirm_success}
use tiny_chat_microservices.Examples.Libraries.{plain_jwt, plain_serializer, ann, stored}

abbrev token_of_ann : Payload
token_of_ann = record { uid = some 7; exp = some 1000 }

authenticate_sound_example :
    (exp : ℕ) × (token_of_ann ≡ plain_jwt.encode (record { uid = some 7; exp = some exp }))
    × (20 < exp)
unfolding authenticate
authenticate_sound_example = authenticate_sound plain_jwt 20 21 7 token_of_ann refl

authenticate-post_authenticate_example :
    (token : Payload) × ((post_authenticate plain_jwt 50 "r" stored 7 []).0 ≡ some (token, "r"))
    × (authenticate plain_jwt 90 91 token ≡ (success, 7))
authenticate-post_authenticate_example =
    authenticate-post_authenticate plain_jwt 50 7 90 91 "r" stored [] refl (omega arith)
      (omega arith)

abbrev no_text : String
no_text = ""

abbrev no_tokens : Store
no_tokens = []

abbrev confirms : ℕ → CallResult (Reply (Unit {0}))
confirms seq = Rpc.success (accepted tt)

-- A link that was made at the time 90
abbrev link_of_ann : ℕ × Confirmation
link_of_ann = (90, record { confirm = 7; exp = 400 })

confirm_success_example :
    (stamp seq exp : ℕ) × (link_of_ann
      ≡ plain_serializer.dumps stamp (record { confirm = seq; exp = exp }))
    × (confirms seq ≡ Rpc.success (accepted tt))
    × (650 ≤ exp + 300)
unfolding auth_register_confirm
confirm_success_example =
    confirm_success plain_serializer 650 confirms false link_of_ann
      (record { status = auth_success; info = none }) refl refl

-- Two answers of a duplicate entry, and then a row that is not confirmed.
abbrev third_time : ℕ → Option (ExecutionResult UserRecord)
third_time zero = some (record { status = Db.info_dup_entry; payload = none })
third_time (suc zero) = some (record { status = Db.info_dup_entry; payload = none })
third_time _ =
    some (record { status = Db.success; payload = some (record ann { confirmed = false }) })

abbrev never : ℕ → Bool
never n = false

twice : (i : ℕ) → i < 2 → duplicate (third_time i) ≡ true
twice zero h = refl
twice (suc zero) h = refl
twice (suc (suc i)) h = absurd (omega arith)

user_register-row_example :
    user_register third_time never 5 0
    ≡ some (returns (some (row_reply (record ann { confirmed = false }))))
user_register-row_example =
    user_register-row third_time never 2 5 (record ann { confirmed = false }) (λ i h. twice i h)
      (λ i h. refl) refl (omega arith)
