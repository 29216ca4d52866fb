-- ===== src/Users/Login.antt =====
-- When `UserLogin` of user_servicer.py lets a user in.
use tiny_chat_microservices.Prelude.{
  String, ◌≡◌, Bool, true, false, Option, none, some, arith, refl,
}
use tiny_chat_microservices.Db.{ExecutionResult, ExecutionStatus, success}
use tiny_chat_microservices.Users.{
  UserRecord, UserDetailedInfo, accepted, user_login, login_row, login_status, login_result,
  detailed_info,
}

-- What a login rests on: the executor found a row for the email, the row is confirmed, and the
-- password fits the stored hash.
pub record Admits (check : String → String → Bool) (result : Option (ExecutionResult UserRecord))
    (password : String) (user : UserDetailedInfo) : Type 0 where
  pub row : UserRecord
  pub found : result ≡ some (record { status = success; payload = some row })
  pub is_confirmed : row.confirmed ≡ true
  pub password_fits : check row.password password ≡ true
  pub is_user : user ≡ detailed_info row

module _ (check : String → String → Bool) where
  login_row-accepted :
      (found : Option UserRecord) (password : String) (user : UserDetailedInfo)
      → login_row check found password ≡ accepted user
      → (row : UserRecord) × (found ≡ some row)
        × (row.confirmed ≡ true)
        × (check row.password password ≡ true)
        × (user ≡ detailed_info row)
  unfolding login_row
  login_row-accepted none password user h = absurd (ground arith)
  login_row-accepted (some row) password user h =
      (row, refl, ground arith, ground arith, ground arith)

  login_status-accepted :
      (status : ExecutionStatus) (found : Option UserRecord) (password : String)
      (user : UserDetailedInfo)
      → login_status check status found password ≡ accepted user
      → (status ≡ success) × (login_row check found password ≡ accepted user)
  unfolding login_status
  login_status-accepted success found password user h = (refl, h)
  login_status-accepted _ found password user h = absurd (ground arith)

  login_result-accepted :
      (result : Option (ExecutionResult UserRecord)) (cancelled : Bool) (password : String)
      (user : UserDetailedInfo)
      → login_result check result cancelled password ≡ some (accepted user)
      → Admits check result password user
  unfolding login_result
  login_result-accepted none cancelled password user h = absurd (ground arith)
  login_result-accepted (some result) cancelled password user h =
      let (s, r) =
        login_status-accepted result.status result.payload password user (ground arith) in
      let (row, f, c, p, u) = login_row-accepted result.payload password user r in
      record { row = row; found = ground arith; is_confirmed = c; password_fits = p; is_user = u }

  -- `UserLogin` lets a user in only if the executor found a confirmed row for the email whose hash
  -- fits the password, and replies with the user of this row.
  pub user_login-accepted :
      (find : String → Option (ExecutionResult UserRecord)) (cancelled : Bool)
      (email password : String) (user : UserDetailedInfo)
      → user_login check find cancelled email password ≡ some (accepted user)
      → Admits check (find email) password user
  unfolding user_login
  user_login-accepted find cancelled email password user h =
      login_result-accepted (find email) cancelled password user h

  pub user_login-Admits :
      (find : String → Option (ExecutionResult UserRecord)) (email password : String)
      (user : UserDetailedInfo)
      → Admits check (find email) password user
      → user_login check find false email password ≡ some (accepted user)
  unfolding user_login login_row
  user_login-Admits find email password user a = rw a.found (ground arith)
