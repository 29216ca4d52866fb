-- ===== src/Users.antt =====
-- chat/microservices/user/user_servicer.py: the servicer that answers for the table of users.
-- What the executor and the password hash answer are arguments; `cancelled` is what
-- `context.cancelled()` says at the end of a method.
pub mod Register
pub mod Login
use tiny_chat_microservices.Prelude.{
  ℕ, zero, suc, ◌+◌, String, Bool, true, false, Option, none, some, if◌then◌else◌, Outcome, returns,
  raises, PyError, type_error,
}
use tiny_chat_microservices.Db.{
  ExecutionStatus, ExecutionResult, success, timeout_handling, info_dup_entry,
}

-- `UserErrorCode` of user.proto
pub data UserErrorCode : Type 0 where
  incorrect_email incorrect_pwd not_exists already_exists db_timeout redis_timeout unknown_error :
      UserErrorCode

-- The columns that the servicer reads of a row.
pub record UserRecord : Type 0 where
  pub seq : ℕ
  pub uid : String
  pub username : String
  pub password : String
  pub confirmed : Bool

pub record UserDetailedInfo : Type 0 where
  pub seq : ℕ
  pub uid : String
  pub username : String

-- A reply of this servicer: `success=True` with its content, or `success=False` with a code.
pub data Reply {ℓ} (A : Type ℓ) : Type ℓ where
  accepted : A → Reply A
  refused : UserErrorCode → Reply A

abbrev pub detailed_info : UserRecord → UserDetailedInfo
detailed_info row = record { seq = row.seq; uid = row.uid; username = row.username }

-- `if not context.cancelled(): return reply`
abbrev pub unless_cancelled {ℓ} : {A : Type ℓ} → Bool → A → Option A
unless_cancelled cancelled reply = if cancelled then none else some reply

module _ (check_password_hash : String → String → Bool) where
  unfoldable pub login_row : Option UserRecord → String → Reply UserDetailedInfo
  login_row none password = refused incorrect_email
  login_row (some row) password =
      if row.confirmed
      then (if check_password_hash row.password password
          then accepted (detailed_info row)
          else refused incorrect_pwd)
      else refused not_exists

  login_status : ExecutionStatus → Option UserRecord → String → Reply UserDetailedInfo
  unfolding login_row
  login_status success row password = login_row row password
  login_status timeout_handling row password = refused db_timeout
  login_status _ row password = refused unknown_error

  login_result :
      Option (ExecutionResult UserRecord) → Bool → String → Option (Reply UserDetailedInfo)
  unfolding login_status
  login_result none cancelled password = some (refused db_timeout)
  login_result (some result) cancelled password =
      unless_cancelled cancelled (login_status result.status result.payload password)

  -- `UserLogin`; `login_user` is the executor's answer for an email
  unfoldable pub user_login :
      (String → Option (ExecutionResult UserRecord))
      → Bool
      → (email password : String) → Option (Reply UserDetailedInfo)
  unfolding login_result
  user_login login_user cancelled email password =
      login_result (login_user email) cancelled password

-- The two messages that `UserRegisterConfirm` can build.
pub data ConfirmMessage : Type 0 where
  confirm_reply : Reply (Unit {0}) → ConfirmMessage
  register_reply : Reply ℕ → ConfirmMessage

confirm_status : ExecutionStatus → Reply (Unit {0})
confirm_status success = accepted tt
confirm_status timeout_handling = refused db_timeout
confirm_status _ = refused unknown_error

-- `UserRegisterConfirm`. Without a result it returns a `UserRegisterReply`.
unfoldable pub user_register_confirm :
    Option (ExecutionResult (Unit {0})) → Bool → Option ConfirmMessage
unfolding confirm_status
user_register_confirm none cancelled = some (register_reply (refused unknown_error))
user_register_confirm (some result) cancelled =
    unless_cancelled cancelled (confirm_reply (confirm_status result.status))

query_row : Option UserRecord → Reply UserDetailedInfo
query_row none = refused not_exists
query_row (some row) = if row.confirmed then accepted (detailed_info row) else refused not_exists

query_status : ExecutionStatus → Option UserRecord → Reply UserDetailedInfo
unfolding query_row
query_status success row = query_row row
query_status timeout_handling row = refused db_timeout
query_status _ row = refused unknown_error

-- `UserQuery`
unfoldable pub user_query :
    (String → Option (ExecutionResult UserRecord)) → Bool → String → Option (Reply UserDetailedInfo)
unfolding query_status
user_query query_user cancelled email = elim (query_user email) [
  | none ↦ some (refused unknown_error)
  | some result ↦ unless_cancelled cancelled (query_status result.status result.payload)
]

-- What one pass of the loop of `UserRegister` does: return at once, set the reply, raise, or go
-- round again.
pub data Pass : Type 0 where
  returns_now : Reply ℕ → Pass
  sets : Reply ℕ → Pass
  fails : PyError → Pass
  again : Pass

register_row : Option UserRecord → Pass
register_row none = fails type_error
register_row (some row) =
    if row.confirmed then sets (refused already_exists) else sets (accepted row.seq)

register_status : ExecutionStatus → Option UserRecord → Pass
unfolding register_row
register_status success row = register_row row
register_status timeout_handling row = sets (refused db_timeout)
register_status info_dup_entry row = again
register_status _ row = sets (refused unknown_error)

unfoldable pub register_pass : Option (ExecutionResult UserRecord) → Pass
unfolding register_status
register_pass none = returns_now (refused db_timeout)
register_pass (some result) = register_status result.status result.payload

-- `UserRegister`: `attempt n` is what the n-th call of the executor answers, and `cancelled n` what
-- `context.cancelled()` says at the n-th test of the loop. No task switch lies between the test
-- that ends the loop and the one behind it. `none` means that the fuel ran out.
module _ (attempt : ℕ → Option (ExecutionResult UserRecord)) (cancelled : ℕ → Bool) where
  unfoldable pub user_register : (fuel n : ℕ) → Option (Outcome (Option (Reply ℕ)))
  unfolding register_pass
  user_register zero n = none
  user_register (suc fuel) n = elim (cancelled n) [
    | true ↦ some (returns none)
    | false ↦ elim (register_pass (attempt n)) [
      | returns_now reply ↦ some (returns (some reply))
      | sets reply ↦ some (returns (unless_cancelled (cancelled (n + 1)) reply))
      | fails exc ↦ some (raises exc)
      | again ↦ user_register fuel (n + 1)
    ]
  ]
