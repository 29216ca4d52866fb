-- ===== src/Friends/Confirm.antt =====
-- The loop of `ConfirmFriend` in friend_servicer.py.
use tiny_chat_microservices.Prelude.{
  ℕ, zero, suc, ◌+◌, ◌≤◌, ◌<◌, ◌≡◌, refl, Bool, true, false, Option, none, some, arith, ◌⊎◌, inl,
  inr, Bool-cases, Option-cases, returns, ◌==◌,
}
use tiny_chat_microservices.Db.{ExecutionStatus, ExecutionResult, info_dup_entry}
use tiny_chat_microservices.Friends.{
  friend_success, CreateFriend, committed, not_run, transaction_failed, create_friend, confirm_pass,
  confirm_accepted, confirm_friend, accept_it,
}

confirm_pass-success :
    (c : CreateFriend) → confirm_pass c ≡ some friend_success → (c ≡ committed) ⊎ (c ≡ not_run)
unfolding confirm_pass
confirm_pass-success committed h = inl refl
confirm_pass-success not_run h = inr refl
confirm_pass-success (transaction_failed status) h = absurd (ground arith)

confirm_pass-again :
    (c : CreateFriend) → confirm_pass c ≡ none → c ≡ transaction_failed info_dup_entry
unfolding confirm_pass
confirm_pass-again committed h = absurd (ground arith)
confirm_pass-again not_run h = absurd (ground arith)
confirm_pass-again (transaction_failed info_dup_entry) h = refl
confirm_pass-again (transaction_failed _) h = absurd (ground arith)

module _ (attempt : ℕ → CreateFriend) (cancelled : ℕ → Bool) where
  confirm_accepted-from :
      (fuel n : ℕ)
      → confirm_accepted attempt cancelled fuel n ≡ some (some friend_success)
      → (m : ℕ) × (n ≤ m)
        × ((attempt m ≡ committed) ⊎ (attempt m ≡ not_run))
        × ((i : ℕ) → n ≤ i → i < m → attempt i ≡ transaction_failed info_dup_entry)
  unfolding confirm_accepted
  confirm_accepted-from zero n h = absurd (ground arith)
  confirm_accepted-from (suc fuel) n h = elim (Bool-cases (cancelled n)) [
    | inl c ↦ absurd (ground arith)
    | inr c ↦ elim (Option-cases (confirm_pass (attempt n))) [
      | inr (reply, e) ↦ (
        n,
        omega arith,
        confirm_pass-success (attempt n) (ground arith),
        λ i a b. absurd (omega arith),
      )
      | inl e ↦
          let (m, l, s, d) = confirm_accepted-from fuel (n + 1) (ground arith) in
          (
            m,
            omega arith,
            s,
            λ i a b. elim (Bool-cases (n == i)) [
              | inl q ↦ let p : i ≡ n = ground arith in rw p (confirm_pass-again (attempt n) e)
              | inr q ↦ d i (ground arith) b
            ],
          )
    ]
  ]

  -- While the session id is a duplicate every time, only cancellation ends the loop.
  cancelled_at :
      (m : ℕ)
      → ((i : ℕ) → i < m → attempt i ≡ transaction_failed info_dup_entry)
      → ((i : ℕ) → i < m → cancelled i ≡ false)
      → cancelled m ≡ true
      → (d n fuel : ℕ) → n + d ≡ m
      → d < fuel
      → confirm_accepted attempt cancelled fuel n ≡ some none
  unfolding confirm_accepted confirm_pass
  cancelled_at m dup live end d n zero e h = absurd (omega arith)
  cancelled_at m dup live end zero n (suc fuel) e h =
      let p : n ≡ m = omega arith in rw p (ground (arith, end))
  cancelled_at m dup live end (suc d) n (suc fuel) e h =
      let p : n < m = omega arith in
      ground (
        arith,
        live n p,
        dup n p,
        cancelled_at m dup live end d (n + 1) fuel (omega arith) (omega arith),
      )

module _ {A : Type 0} (attempt : ℕ → CreateFriend) (respond : Option (ExecutionResult A))
    (cancelled : ℕ → Bool) where
  -- An accepted request is answered with success only if a call of `create_friend` was committed or
  -- was not run at all, and all calls before it failed with a duplicate entry.
  pub confirm_friend-success :
      (fuel : ℕ)
      → confirm_friend accept_it attempt respond cancelled fuel
        ≡ some (returns (some friend_success))
      → (m : ℕ) × ((attempt m ≡ committed) ⊎ (attempt m ≡ not_run))
        × ((i : ℕ) → i < m → attempt i ≡ transaction_failed info_dup_entry)
  unfolding confirm_friend
  confirm_friend-success fuel h =
      let (m, l, s, d) = confirm_accepted-from attempt cancelled fuel 0 (ground arith) in
      (m, s, λ i b. d i (omega arith) b)

  -- If every call of `create_friend` ends with a duplicate entry until the client cancels, then the
  -- method returns nothing, with any fuel above the number of calls.
  pub confirm_friend-cancelled :
      (m fuel : ℕ)
      → ((i : ℕ) → i < m → attempt i ≡ transaction_failed info_dup_entry)
      → ((i : ℕ) → i < m → cancelled i ≡ false)
      → cancelled m ≡ true
      → m < fuel
      → confirm_friend accept_it attempt respond cancelled fuel ≡ some (returns none)
  unfolding confirm_friend
  confirm_friend-cancelled m fuel dup live end h =
      ground (arith, cancelled_at attempt cancelled m dup live end m 0 fuel (omega arith) h)

  -- An accepted request is answered with success although the transaction was not run, since no
  -- connection could be had in time, if the client does not cancel before the reply: the statuses
  -- of the statements do not matter.
  pub confirm_friend-not_run :
      (fuel : ℕ) (inserted responded : ExecutionStatus)
      → cancelled 0 ≡ false
      → cancelled 1 ≡ false
      → confirm_friend accept_it
          (λ n. create_friend false inserted responded)
          respond
          cancelled
          (suc fuel)
        ≡ some (returns (some friend_success))
  unfolding confirm_friend confirm_accepted confirm_pass create_friend
  confirm_friend-not_run fuel inserted responded p q = ground (arith, p, q)
