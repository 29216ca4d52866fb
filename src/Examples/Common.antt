-- ===== src/Examples/Common.antt =====
-- The pieces that the services share.
use tiny_chat_microservices.Prelude.{
  ℕ, ◌≡◌, refl, ◌⊎◌, true, false, some, List, [], ◌∷◌, raises, invalid_state,
}
use tiny_chat_microservices.Db.{Waiter, Pool, next_waiter, release, time_reserve}
use tiny_chat_microservices.Db.Borrow.{HandedOver, GivenBack, time_reserve-pool}

-- The first of two callers that wait for a connection has been cancelled.
abbrev waiting : List Waiter
waiting = record { number = 1; done = true } ∷ record { number = 2; done = false } ∷ []

abbrev busy_pool : Pool
busy_pool = record { free = []; used = 5 ∷ 6 ∷ []; waiters = waiting; handed = [] }

time_reserve-pool_example :
    let left = (time_reserve {A = ℕ} (λ p. p) 3 10 2 (some 5) (raises invalid_state) busy_pool).1 in
    HandedOver (λ p. p) 5 busy_pool left ⊎ GivenBack (λ p. p) 5 busy_pool left
time_reserve-pool_example =
    time_reserve-pool (λ p. p) 5 {A = ℕ} 3 10 2 (raises invalid_state) busy_pool refl

handed_to_second : (release (λ p. p) 5 busy_pool).handed ≡ (2, 5) ∷ []
unfolding release next_waiter
handed_to_second = refl
