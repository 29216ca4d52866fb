-- ===== src/Auth/Confirmation/Links.antt =====
-- How long a confirmation link lives, and what a confirmed registration rests on.
use tiny_chat_microservices.Prelude.{
  ℕ, ◌+◌, ◌≤◌, ◌<◌, ◌≡◌, ◌≢◌, Bool, false, none, some, returns, arith, refl, ◌↔◌,
}
use tiny_chat_microservices.Rpc
use tiny_chat_microservices.Rpc.{CallResult, GrpcFailure}
use tiny_chat_microservices.Users.{Reply, accepted, refused, UserErrorCode, db_timeout}
use tiny_chat_microservices.Auth.Servicer.{
  auth_success, auth_expired, call_failure, refusal, auth_incorrect_confirmation,
}
use tiny_chat_microservices.Auth.Confirmation.{
  Serializer, Confirmation, Loaded, loaded, bad_time_signature, other_error, AuthConfirmReply,
  confirm_result, confirm_refusal, confirm_loaded, AuthRegisterReply, register_failed,
  register_result, auth_register, auth_register_confirm,
}

confirm_refusal-ne-expired : (code : UserErrorCode) → (confirm_refusal code).status ≢ auth_expired
unfolding confirm_refusal
confirm_refusal-ne-expired db_timeout = λ h. cc
confirm_refusal-ne-expired _ = λ h. cc

confirm_result-ne-expired :
    (r : CallResult (Reply (Unit {0}))) → (confirm_result r).status ≢ auth_expired
unfolding confirm_result call_failure
confirm_result-ne-expired (Rpc.success (accepted u)) = λ h. cc
confirm_result-ne-expired (Rpc.success (refused code)) = confirm_refusal-ne-expired code
confirm_result-ne-expired (Rpc.failure failure info) = λ h. ground arith

confirm_result-success :
    (r : CallResult (Reply (Unit {0})))
    → (confirm_result r).status ≡ auth_success
    → r ≡ Rpc.success (accepted tt)
unfolding confirm_result call_failure confirm_refusal
confirm_result-success (Rpc.success (accepted u)) h = refl
confirm_result-success (Rpc.success (refused code)) h = absurd (ground arith)
confirm_result-success (Rpc.failure failure info) h = absurd (ground arith)

module _ {Link : Type 0} (serializer : Serializer Link) where
  expiry :
      (now exp end seq : ℕ) (f : ℕ → CallResult (Reply (Unit {0}))) (cancelled : Bool)
      → exp + 300 ≡ end
      → (confirm_loaded serializer now
            (some f)
            cancelled
            (loaded (record { confirm = seq; exp = exp }))
          ≡ returns
              (some (record { status = auth_expired; info = some auth_incorrect_confirmation })))
        ↔ (end < now)
  unfolding confirm_loaded
  expiry now exp end seq f cancelled at_end =
      (λ h. ground (arith, confirm_result-ne-expired (f seq)), λ h. ground arith)

  loaded_success :
      (now : ℕ) (f : ℕ → CallResult (Reply (Unit {0}))) (cancelled : Bool) (l : Loaded)
      (reply : AuthConfirmReply)
      → confirm_loaded serializer now (some f) cancelled l ≡ returns (some reply)
      → reply.status ≡ auth_success
      → (c : Confirmation) × (l ≡ loaded c)
        × (f c.confirm ≡ Rpc.success (accepted tt))
        × (now ≤ c.exp + 300)
  unfolding confirm_loaded
  loaded_success now f cancelled (loaded c) reply h s =
      (c, refl, ground (arith, confirm_result-success (f c.confirm)), ground arith)
  loaded_success now f cancelled bad_time_signature reply h s = absurd (ground arith)
  loaded_success now f cancelled other_error reply h s = absurd (ground arith)

  refusal-register_failed :
      (code : UserErrorCode) (reply : AuthRegisterReply Link)
      → refusal register_failed code ≡ returns reply
      → reply.status ≢ auth_success
  unfolding refusal
  refusal-register_failed code reply h = λ s. ground arith

  register_result-success :
      (stamp issued : ℕ) (result : CallResult (Reply ℕ)) (reply : AuthRegisterReply Link)
      → register_result serializer stamp issued result ≡ returns reply
      → reply.status ≡ auth_success
      → (seq : ℕ) × (result ≡ Rpc.success (accepted seq))
        × (reply.token
            ≡ some (serializer.dumps stamp (record { confirm = seq; exp = issued + 300 })))
  unfolding register_result call_failure
  register_result-success stamp issued (Rpc.success (accepted seq)) reply h s =
      (seq, refl, ground arith)
  register_result-success stamp issued (Rpc.success (refused code)) reply h s =
      absurd (refusal-register_failed code reply h s)
  register_result-success stamp issued (Rpc.failure failure info) reply h s = absurd (ground arith)

  pub auth_register-success :
      (stamp issued : ℕ) (result : CallResult (Reply ℕ)) (cancelled : Bool)
      (reply : AuthRegisterReply Link)
      → auth_register serializer stamp issued (some result) cancelled ≡ returns (some reply)
      → reply.status ≡ auth_success
      → (seq : ℕ) × (result ≡ Rpc.success (accepted seq))
        × (reply.token
            ≡ some (serializer.dumps stamp (record { confirm = seq; exp = issued + 300 })))
  unfolding auth_register
  auth_register-success stamp issued result cancelled reply h s =
      register_result-success stamp issued result reply (ground arith) s

  -- A link that `AuthRegister` hands out at one time expires for `AuthRegisterConfirm` exactly when
  -- more than 600 seconds have passed: the 300 seconds are added on both sides.
  pub confirm_expiry :
      (stamp issued now seq : ℕ) (user_register_confirm : ℕ → CallResult (Reply (Unit {0})))
      (cancelled : Bool)
      → (link : Link) × (auth_register serializer stamp issued
            (some (Rpc.success (accepted seq)))
            false
          ≡ returns (some (record { status = auth_success; info = none; token = some link })))
        × ((auth_register_confirm serializer now (some user_register_confirm) cancelled link
              ≡ returns (
                  some (record { status = auth_expired; info = some auth_incorrect_confirmation })))
            ↔ (issued + 600 < now))
  unfolding auth_register auth_register_confirm
  confirm_expiry stamp issued now seq user_register_confirm cancelled =
      let c : Confirmation = record { confirm = seq; exp = issued + 300 } in
      (
        serializer.dumps stamp c,
        refl,
        rw serializer.loads-dumps (
            expiry now (issued + 300) (issued + 600) seq user_register_confirm cancelled
              (omega arith)),
      )

  -- A registration is confirmed only with a link that the service signed at some time, for the user
  -- whom the link names, by the user service, and no later than 300 seconds after the time that the
  -- link names as its expiry.
  pub confirm_success :
      (now : ℕ) (user_register_confirm : ℕ → CallResult (Reply (Unit {0}))) (cancelled : Bool)
      (link : Link) (reply : AuthConfirmReply)
      → auth_register_confirm serializer now (some user_register_confirm) cancelled link
        ≡ returns (some reply)
      → reply.status ≡ auth_success
      → (stamp seq exp : ℕ) × (link ≡ serializer.dumps stamp (record { confirm = seq; exp = exp }))
        × (user_register_confirm seq ≡ Rpc.success (accepted tt))
        × (now ≤ exp + 300)
  unfolding auth_register_confirm
  confirm_success now user_register_confirm cancelled link reply h s =
      let (c, e, u, k) =
        loaded_success now user_register_confirm cancelled (serializer.loads link) reply h s in
      let (stamp, signed) = serializer.genuine link c e in (stamp, c.confirm, c.exp, signed, u, k)
