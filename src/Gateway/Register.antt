-- ===== src/Gateway/Register.antt =====
-- A registration across the services: routes/user.py calls auth_service.py, which calls
-- user_servicer.py.
use tiny_chat_microservices.Prelude.{
  ℕ, ◌+◌, String, ◌≡◌, refl, ap, ◌∙◌, Bool, true, Option, some, [], ◌∷◌, arith, Bool-cases, inl,
  inr, starts_with,
}
use tiny_chat_microservices.Rpc
use tiny_chat_microservices.Rpc.{CallResult, Channel, GrpcFailure, Info}
use tiny_chat_microservices.Users.{Reply, accepted}
use tiny_chat_microservices.Auth.Servicer.{AuthOpStatus, auth_success, auth_timeout}
use tiny_chat_microservices.Auth.Confirmation.{Serializer, AuthRegisterReply, auth_register}
use tiny_chat_microservices.Auth.Confirmation.Links.{auth_register-success}
use tiny_chat_microservices.Gateway.Account.{
  Mail, register, register_status, register_refused, call_failed, info_of,
}
use tiny_chat_microservices.Gateway.Account

module _ (Token Link : Type 0) where
  register_status-ok :
      (email : String) (reply : AuthRegisterReply Link) (status : AuthOpStatus)
      → (register_status {Token = Token} email reply status).0.status ≡ 200
      → (status ≡ auth_success)
        × ((register_status {Token = Token} email reply status).1
            ≡ record { address = email; link = reply.token } ∷ [])
  unfolding register_status register_refused
  register_status-ok email reply auth_success h = (refl, refl)
  register_status-ok email reply auth_timeout h = absurd (ground arith)
  register_status-ok email reply _ h = absurd (ground arith)

  register_result-ok :
      (email : String) (result : CallResult (AuthRegisterReply Link))
      → (Account.register_result {Token = Token} email result).0.status ≡ 200
      → (reply : AuthRegisterReply Link) × (result ≡ Rpc.success reply)
        × (reply.status ≡ auth_success)
        × ((Account.register_result {Token = Token} email result).1
            ≡ record { address = email; link = reply.token } ∷ [])
  unfolding Account.register_result call_failed
  register_result-ok email (Rpc.success reply) h =
      let (s, m) = register_status-ok email reply reply.status h in (reply, refl, s, m)
  register_result-ok email (Rpc.failure failure i) h = absurd (ground arith)

module _ (Token : Type 0) {Link : Type 0} (serializer : Serializer Link)
    (channel : Channel (AuthRegisterReply Link)) where
  -- `AuthService.AuthRegister` as the gateway sees it, for what the user service answers.
  abbrev pub register_service :
      (stamp now : ℕ) → CallResult (Reply ℕ) → Bool → CallResult (AuthRegisterReply Link)
  register_service stamp now result cancelled =
      channel.deliver (auth_register serializer stamp now (some result) cancelled)

  -- A registration is answered 200 only if the appid has the prefix and the user service has
  -- accepted it; then exactly one mail is handed over, to the address of the form, with the link for
  -- the number that the user service gave, which names an expiry 300 seconds ahead.
  pub register_sound :
      (appid_prefix appid email : String) (stamp now : ℕ) (result : CallResult (Reply ℕ))
      (cancelled : Bool)
      → (register {Token = Token} appid_prefix appid email
          (some (register_service stamp now result cancelled))).0.status
        ≡ 200
      → (seq : ℕ) × (starts_with appid appid_prefix ≡ true)
        × (result ≡ Rpc.success (accepted seq))
        × ((register {Token = Token} appid_prefix appid email
              (some (register_service stamp now result cancelled))).1
            ≡ record {
              address = email;
              link = some (serializer.dumps stamp (record { confirm = seq; exp = now + 300 }));
            }
              ∷ [])
  unfolding register
  register_sound appid_prefix appid email stamp now result cancelled h =
      elim (Bool-cases (starts_with appid appid_prefix)) [
        | inr e ↦ absurd (ground arith)
        | inl e ↦
            let (reply, d, s, m) =
              register_result-ok Token Link email (register_service stamp now result cancelled)
                (ground arith) in
            let (seq, r, t) =
              auth_register-success serializer stamp now result cancelled reply
                (channel.faithful _ reply d) s in
            (
              seq,
              e,
              r,
              rw e (m ∙ ap (λ (l : Option Link). record { address = email; link = l } ∷ []) t),
            )
      ]
