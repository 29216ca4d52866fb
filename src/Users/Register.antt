-- ===== src/Users/Register.antt =====
-- The loop of `UserRegister` in user_servicer.py.
use tiny_chat_microservices.Prelude.{
  ℕ, zero, suc, ◌+◌, ◌<◌, ◌≤◌, ◌≡◌, ◌≢◌, ◌∙◌, ap, Bool, true, false, Option, none, some, arith,
  returns, if◌then◌else◌,
}
use tiny_chat_microservices.Db.{ExecutionResult, success, info_dup_entry}
use tiny_chat_microservices.Users.{
  UserRecord, Reply, accepted, refused, already_exists, sets, again, register_row, register_status,
  register_pass, user_register,
}

module _ (attempt : ℕ → Option (ExecutionResult UserRecord)) (cancelled : ℕ → Bool) where
  register_again :
      (f n : ℕ)
      → cancelled n ≡ false
      → register_pass (attempt n) ≡ again
      → user_register attempt cancelled (suc f) n ≡ user_register attempt cancelled f (n + 1)
  unfolding user_register
  register_again f n c p = ground arith

  register_stop :
      (f n : ℕ)
      → register_pass (attempt n) ≢ again
      → user_register attempt cancelled (suc f) n ≡ user_register attempt cancelled 1 n
  unfolding user_register
  register_stop f n p = ground arith

  module _ (m : ℕ) (pass : (i : ℕ) → i < m → register_pass (attempt i) ≡ again)
      (live : (i : ℕ) → i < m → cancelled i ≡ false)
      (stop : register_pass (attempt m) ≢ again) where
    retries_from :
        (d n f : ℕ)
        → n + d ≡ m
        → d < f
        → user_register attempt cancelled f n ≡ user_register attempt cancelled 1 m
    retries_from d n zero e h = absurd (omega arith)
    retries_from zero n (suc f) e h = let p : n ≡ m = omega arith in rw p (register_stop f m stop)
    retries_from (suc d) n (suc f) e h =
        let p : n < m = omega arith in
        register_again f n (live n p) (pass n p)
        ∙ retries_from d (n + 1) f (omega arith) (omega arith)

    -- While the executor reports a duplicate entry and the call is not cancelled, `UserRegister`
    -- asks again: after m such answers, any fuel above m gives what the m-th answer, which is not a
    -- duplicate entry, gives on its own.
    pub user_register-retries :
        (f : ℕ) → m < f → user_register attempt cancelled f 0 ≡ user_register attempt cancelled 1 m
    user_register-retries f h = retries_from m 0 f (omega arith) h

-- The answer of the executor to an insert whose key is taken by another row.
abbrev pub duplicate : Option (ExecutionResult UserRecord) → Bool
duplicate none = false
duplicate (some result) = elim result.status [ info_dup_entry ↦ true | _ ↦ false ]

duplicate-again :
    (o : Option (ExecutionResult UserRecord)) → duplicate o ≡ true → register_pass o ≡ again
unfolding register_pass register_status
duplicate-again o h = ground arith

abbrev pub row_reply : UserRecord → Reply ℕ
row_reply row = if row.confirmed then refused already_exists else accepted row.seq

row-pass :
    (row : UserRecord)
    → register_pass (some (record { status = success; payload = some row })) ≡ sets (row_reply row)
unfolding register_pass register_status register_row
row-pass row = ground arith

-- `UserRegister` asks the executor again as long as it answers a duplicate entry. After m such answers
-- and a row, where the call is not cancelled, any fuel above m gives one reply: a confirmed row is
-- refused as one that exists, any other is accepted with its number.
pub user_register-row :
    (attempt : ℕ → Option (ExecutionResult UserRecord)) (cancelled : ℕ → Bool) (m f : ℕ)
    (row : UserRecord)
    → ((i : ℕ) → i < m → duplicate (attempt i) ≡ true)
    → ((i : ℕ) → i ≤ m + 1 → cancelled i ≡ false)
    → attempt m ≡ some (record { status = success; payload = some row })
    → m < f
    → user_register attempt cancelled f 0 ≡ some (returns (some (row_reply row)))
unfolding user_register
user_register-row attempt cancelled m f row pass live found fuel =
    let stop : register_pass (attempt m) ≡ sets (row_reply row) =
      ap register_pass found ∙ row-pass row in
    user_register-retries attempt cancelled m (λ i h. duplicate-again (attempt i) (pass i h))
      (λ i h. live i (omega arith)) (λ h. ground arith) f fuel
    ∙ ground (arith, stop, live m (omega arith), live (m + 1) (omega arith))
