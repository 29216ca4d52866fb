-- ===== src/Examples/Gateway.antt =====
-- Requests to the gateway.
use tiny_chat_microservices.Gateway.Register.{register_service, register_sound}
use tiny_chat_microservices.Gateway.Account.{register, login}
use tiny_chat_microservices.Auth.Confirmation.{auth_register}
use tiny_chat_microservices.Users.{Reply, accepted, UserDetailedInfo, user_login}
use tiny_chat_microservices.Prelude.{
  starts_with, ◌+◌, ◌∷◌, ℕ, zero, suc, ◌<◌, ◌≡◌, refl, String, str_eq, Bool, true, false, none,
  some, arith, [], ◌↔◌, dict_get,
}
use tiny_chat_microservices.Examples.Libraries.{
  plain_serializer, plain_jwt, direct_channel, ann, ann_info, find_ann, stored,
}
use tiny_chat_microservices.Rpc.{CallResult, failed, exception}
use tiny_chat_microservices.Users.Login.{Admits}
use tiny_chat_microservices.Auth.{
  Payload, PyText, str, authenticate, post_authenticate, generate_access_token,
}
use tiny_chat_microservices.Auth.Servicer.{AuthRefreshReply, auth_login}
use tiny_chat_microservices.Gateway.{Response, respond, empty}
use tiny_chat_microservices.Gateway.Login.{auth_service, welcome, login_sound, login_complete}
use tiny_chat_microservices.Redis.{Awaited, finished}
use tiny_chat_microservices.Gateway.Guard.{handle, allow_or_deny, IsHashed, allow_or_deny_exact}
use tiny_chat_microservices.Gateway.Authentication.{Headers, bearer, auth_token}
use tiny_chat_microservices.Gateway.Authentication.Protected.{client, auth_token_sound}
use tiny_chat_microservices.Rpc
use tiny_chat_microservices.Auth.Servicer

ann_is_admitted : Admits str_eq (find_ann "ann@x.org") "secret" ann_info
ann_is_admitted = record {
  row = ann;
  found = refl;
  is_confirmed = refl;
  password_fits = refl;
  is_user = refl;
}

login_sound_example :
    (u : UserDetailedInfo) × Admits str_eq (find_ann "ann@x.org") "secret" u
    × (stored.reply ≡ some true)
    × (login
          (some (
            auth_service plain_jwt 50 "r" stored str_eq find_ann direct_channel direct_channel []
              false false))
          "ann@x.org"
          "secret"
        ≡ welcome plain_jwt 50 "r" stored str_eq find_ann direct_channel direct_channel [] u)
unfolding login auth_login user_login post_authenticate generate_access_token
login_sound_example =
    login_sound plain_jwt 50 "r" stored str_eq find_ann direct_channel direct_channel [] false false
      "ann@x.org" "secret" refl

login_complete_example :
    login
      (some (
        auth_service plain_jwt 50 "r" stored str_eq find_ann direct_channel direct_channel [] false
          false))
      "ann@x.org"
      "secret"
    ≡ welcome plain_jwt 50 "r" stored str_eq find_ann direct_channel direct_channel [] ann_info
login_complete_example =
    login_complete plain_jwt 50 "r" stored str_eq find_ann direct_channel direct_channel []
      "ann@x.org" "secret" ann_info ann_is_admitted refl (λ reply. refl) (λ reply. refl)

abbrev no_refresh : ℕ → String → CallResult (AuthRefreshReply Payload)
no_refresh uid token = Rpc.failure failed exception

abbrev profile : ℕ → Response Payload
profile uid = respond 200 empty

abbrev ann_headers : Headers Payload
ann_headers = record {
  authorization = some (bearer (record { uid = some 7; exp = some 1000 }));
  refresh_token = none;
}

auth_token_sound_example :
    (exp : ℕ) × (ann_headers.authorization
      ≡ some (bearer (plain_jwt.encode (record { uid = some 7; exp = some exp }))))
    × (20 < exp)
    × ((auth_token (some (client plain_jwt 20 21 direct_channel no_refresh)) profile ann_headers).1
        ≡ profile 7)
unfolding auth_token Servicer.auth_token authenticate
auth_token_sound_example =
    auth_token_sound plain_jwt 20 21 direct_channel no_refresh profile ann_headers 7 (omega arith)
      refl

abbrev hash : ℕ → String
hash zero = "none"
hash (suc n) = "some"

abbrev if_blocked : Bool → Awaited PyText
if_blocked true = finished none
if_blocked false = finished (some (str ""))

abbrev open_list : String → Awaited PyText
open_list key = if_blocked (str_eq key "none")

allow_or_deny_exact_example :
    (((allow_or_deny {Token = Payload} hash open_list [] 1).0 ≡ handle)
      ↔ (open_list (hash 1) ≡ finished (some (str ""))))
    × IsHashed hash (allow_or_deny {Token = Payload} hash open_list [] 1).1
allow_or_deny_exact_example =
    allow_or_deny_exact Payload hash open_list [] 1
      (λ ip key h. absurd (unfold dict_get in ground arith))

abbrev new_user : CallResult (Reply ℕ)
new_user = Rpc.success (accepted 7)

register_sound_example :
    (seq : ℕ) × (starts_with "chat-app" "chat" ≡ true)
    × (new_user ≡ Rpc.success (accepted seq))
    × ((register {Token = Payload} "chat" "chat-app" "ann@x.org"
          (some (register_service Payload plain_serializer direct_channel 90 100 new_user false))).1
        ≡ record {
          address = "ann@x.org";
          link = some (plain_serializer.dumps 90 (record { confirm = seq; exp = 100 + 300 }));
        }
          ∷ [])
unfolding register auth_register
register_sound_example =
    register_sound Payload plain_serializer direct_channel "chat" "chat-app" "ann@x.org" 90 100
      new_user false refl
