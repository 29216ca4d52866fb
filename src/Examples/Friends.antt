-- ===== src/Examples/Friends.antt =====
-- Friend requests that are confirmed.
use tiny_chat_microservices.Prelude.{
  ℕ, zero, suc, ◌<◌, ◌≡◌, refl, Bool, true, false, Option, none, some, arith, ◌⊎◌, returns,
}
use tiny_chat_microservices.Db.{ExecutionResult, info_dup_entry}
use tiny_chat_microservices.Friends.{
  CreateFriend, committed, not_run, transaction_failed, confirm_friend, accept_it,
}
use tiny_chat_microservices.Friends.Confirm.{confirm_friend-success, confirm_friend-cancelled}

-- A duplicate entry, and then a commit.
abbrev second_time : ℕ → CreateFriend
second_time zero = transaction_failed info_dup_entry
second_time (suc n) = committed

abbrev always_duplicate : ℕ → CreateFriend
always_duplicate n = transaction_failed info_dup_entry

abbrev no_answer : Option (ExecutionResult ℕ)
no_answer = none

abbrev live : ℕ → Bool
live n = false

abbrev until_two : ℕ → Bool
until_two (suc (suc n)) = true
until_two _ = false

confirm_friend-success_example :
    (m : ℕ) × ((second_time m ≡ committed) ⊎ (second_time m ≡ not_run))
    × ((i : ℕ) → i < m → second_time i ≡ transaction_failed info_dup_entry)
unfolding confirm_friend
confirm_friend-success_example = confirm_friend-success second_time no_answer live 3 refl

two_live : (i : ℕ) → i < 2 → until_two i ≡ false
two_live zero h = refl
two_live (suc zero) h = refl
two_live (suc (suc i)) h = absurd (omega arith)

confirm_friend-cancelled_example :
    confirm_friend accept_it always_duplicate no_answer until_two 3 ≡ some (returns none)
confirm_friend-cancelled_example =
    confirm_friend-cancelled always_duplicate no_answer until_two 2 3 (λ i h. refl)
      (λ i h. two_live i h) refl (omega arith)
