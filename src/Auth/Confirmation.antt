-- ===== src/Auth/Confirmation.antt =====
-- chat/microservices/auth/auth_service.py: registration and its confirmation link. The signed and
-- time-stamped serializer of itsdangerous is the parameter `Serializer`; the link's text is an
-- abstract type. Times are seconds of the monotonic clock, rounded down.
pub mod Links
use tiny_chat_microservices.Prelude.{
  ℕ, ◌+◌, ◌≤◌, ◌<◌, String, ◌≡◌, ◌≢◌, Bool, true, false, Option, none, some, Outcome, returns,
  raises, attribute_error, library_error, ◌>>=◌, if◌then◌else◌, ltb, arith, refl, ◌↔◌,
}
use tiny_chat_microservices.Rpc
use tiny_chat_microservices.Rpc.{CallResult, GrpcFailure}
use tiny_chat_microservices.Users.{
  UserErrorCode, Reply, accepted, refused, unless_cancelled, db_timeout,
}
use tiny_chat_microservices.Auth.Servicer.{
  AuthOpStatus, AuthInfo, auth_success, auth_failed, auth_expired, auth_timeout, refusal,
  call_failure, auth_unknown_error, auth_incorrect_confirmation,
}

-- `{"confirm": …, "exp": …}`
pub record Confirmation : Type 0 where
  pub confirm : ℕ
  pub exp : ℕ

-- How `serializer.loads` ends.
pub data Loaded : Type 0 where
  loaded : Confirmation → Loaded
  bad_time_signature other_error : Loaded

-- itsdangerous with the service's keys. `dumps` puts the time at which it signs into the link; `loads`
-- gives back what `dumps` signed at some time, and nothing else.
pub record Serializer (Link : Type 0) : Type 0 where
  pub dumps : (stamp : ℕ) → Confirmation → Link
  pub loads : Link → Loaded
  pub loads-dumps : (stamp : ℕ) (c : Confirmation) → loads (dumps stamp c) ≡ loaded c
  pub genuine :
      (link : Link) (c : Confirmation)
      → loads link ≡ loaded c
      → (stamp : ℕ) × (link ≡ dumps stamp c)

pub record AuthRegisterReply (Link : Type 0) : Type 0 where
  pub status : AuthOpStatus
  pub info : Option AuthInfo
  pub token : Option Link

abbrev register_failed : {Link : Type 0} → AuthOpStatus → Option AuthInfo → AuthRegisterReply Link
register_failed status info = record { status = status; info = info; token = none }

pub record AuthConfirmReply : Type 0 where
  pub status : AuthOpStatus
  pub info : Option AuthInfo

confirm_refusal : UserErrorCode → AuthConfirmReply
confirm_refusal db_timeout = record { status = auth_timeout; info = none }
confirm_refusal _ = record { status = auth_failed; info = none }

confirm_result : CallResult (Reply (Unit {0})) → AuthConfirmReply
unfolding confirm_refusal call_failure
confirm_result (Rpc.success (accepted done)) = record { status = auth_success; info = none }
confirm_result (Rpc.success (refused code)) = confirm_refusal code
confirm_result (Rpc.failure failure info) =
    call_failure (λ status detail. record { status = status; info = detail }) failure

module _ {Link : Type 0} (serializer : Serializer Link) where
  unfoldable pub register_result :
      (stamp now : ℕ) → CallResult (Reply ℕ) → Outcome (AuthRegisterReply Link)
  unfolding refusal call_failure
  register_result stamp now (Rpc.success (accepted seq)) = returns (record {
    status = auth_success;
    info = none;
    token = some (serializer.dumps stamp (record { confirm = seq; exp = now + 300 }));
  })
  register_result stamp now (Rpc.success (refused code)) = refusal register_failed code
  register_result stamp now (Rpc.failure failure info) =
      returns (call_failure register_failed failure)

  -- `AuthRegister`: the answer of the user service for the request, if the service is found; `stamp` is
  -- the time of the wall clock, `now` that of the monotonic one
  unfoldable pub auth_register :
      (stamp now : ℕ)
      → Option (CallResult (Reply ℕ))
      → (cancelled : Bool) → Outcome (Option (AuthRegisterReply Link))
  unfolding register_result
  auth_register stamp now none cancelled = raises attribute_error
  auth_register stamp now (some result) cancelled = do
    reply ← register_result stamp now result
    returns (unless_cancelled cancelled reply)

  confirm_loaded :
      (now : ℕ)
      → Option (ℕ → CallResult (Reply (Unit {0})))
      → Bool
      → Loaded
      → Outcome (Option AuthConfirmReply)
  unfolding confirm_result
  confirm_loaded now user_service cancelled bad_time_signature =
      returns (some (record { status = auth_failed; info = none }))
  confirm_loaded now user_service cancelled other_error = raises library_error
  confirm_loaded now user_service cancelled (loaded info) =
      if ltb (info.exp + 300) now
      then returns
          (some (record { status = auth_expired; info = some auth_incorrect_confirmation }))
      else elim user_service [
        | none ↦ raises attribute_error
        | some user_register_confirm ↦
            returns
              (unless_cancelled cancelled (confirm_result (user_register_confirm info.confirm)))
      ]

  -- `AuthRegisterConfirm`
  unfoldable pub auth_register_confirm :
      (now : ℕ)
      → Option (ℕ → CallResult (Reply (Unit {0})))
      → (cancelled : Bool) (token : Link) → Outcome (Option AuthConfirmReply)
  unfolding confirm_loaded
  auth_register_confirm now user_service cancelled token =
      confirm_loaded now user_service cancelled (serializer.loads token)
