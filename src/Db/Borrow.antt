-- ===== src/Db/Borrow.antt =====
-- What becomes of the connection that `time_reserve` of postgres/executor.py has borrowed.
use tiny_chat_microservices.Prelude.{
  ℕ, ◌+◌, ◌≡◌, refl, ap, ◌⊎◌, inl, inr, Bool, true, false, ◌&&◌, Option, none, some, List, [], ◌∷◌,
  ◌++◌, Outcome, returns, raises, if◌then◌else◌, ◌==◌, arith, leb, Bool-cases, times, times-last,
  times-without,
}
use tiny_chat_microservices.Db.{
  Waiter, Pool, next_waiter, put_back, release_found, release, run_and_release, time_reserve,
}

abbrev pub all_done : List Waiter → Bool
all_done [] = true
all_done (waiter ∷ waiters) = waiter.done && all_done waiters

-- The first waiter that is not done, and those behind it.
abbrev pub IsFirst : List Waiter → ℕ → List Waiter → Type 0
IsFirst waiters w rest =
    (before : List Waiter) × (all_done before ≡ true)
    × (waiters ≡ before ++ (record { number = w; done = false } ∷ rest))

next_waiter-IsFirst :
    (waiters : List Waiter) (w : ℕ) (rest : List Waiter)
    → next_waiter waiters ≡ some (w, rest)
    → IsFirst waiters w rest
unfolding next_waiter
next_waiter-IsFirst [] w rest h = absurd (ground arith)
next_waiter-IsFirst (waiter ∷ waiters) w rest h = elim (Bool-cases waiter.done) [
  | inl e ↦
      let (before, all, same) = next_waiter-IsFirst waiters w rest (ground arith) in
      (waiter ∷ before, ground arith, ap (λ (l : List Waiter). waiter ∷ l) same)
  | inr e ↦ ([], refl, ground arith)
]

next_waiter-all_done :
    (waiters : List Waiter) → next_waiter waiters ≡ none → all_done waiters ≡ true
unfolding next_waiter
next_waiter-all_done [] h = refl
next_waiter-all_done (waiter ∷ waiters) h = ground (arith, next_waiter-all_done waiters)

module _ (detaching : Pool → Pool) (conn : ℕ) where
  -- A waiter has got the connection, which stays lent.
  abbrev pub HandedOver : Pool → Pool → Type 0
  HandedOver pool left =
      (w : ℕ) × (rest : List Waiter) × IsFirst pool.waiters w rest
      × (left ≡ record pool { waiters = rest; handed = (w, conn) ∷ pool.handed })

  -- The connection is free and not lent any more; the others are where they are after its detaching.
  abbrev pub GivenBack : Pool → Pool → Type 0
  GivenBack pool left =
      let now = detaching (record pool { waiters = [] }) in
      (all_done pool.waiters ≡ true)
      × ((c : ℕ)
          → let one : ℕ = if conn == c then 1 else 0 in
            (times left.free c ≡ times now.free c + one)
            × (times left.used c + one ≡ times now.used c))

  put_back-counts :
      (pool : Pool) (c : ℕ)
      → let now = detaching (record pool { waiters = [] }) in
        let left = put_back detaching conn pool in
        let one : ℕ = if conn == c then 1 else 0 in
        times now.used conn ≡ 1
        → (times left.free c ≡ times now.free c + one)
          × (times left.used c + one ≡ times now.used c)
  unfolding put_back
  put_back-counts pool c lent =
      let now = detaching (record pool { waiters = [] }) in
      (times-last now.free conn c, ground (arith, times-without now.used conn c))

  release_found-cases :
      (pool : Pool) (o : Option (ℕ × List Waiter))
      → next_waiter pool.waiters ≡ o
      → times (detaching (record pool { waiters = [] })).used conn ≡ 1
      → HandedOver pool (release_found detaching conn pool o)
        ⊎ GivenBack pool (release_found detaching conn pool o)
  unfolding release_found
  release_found-cases pool none e lent =
      inr (next_waiter-all_done pool.waiters e, λ c. put_back-counts pool c lent)
  release_found-cases pool (some (w, rest)) e lent =
      inl (w, rest, next_waiter-IsFirst pool.waiters w rest e, refl)

  release-cases :
      (pool : Pool)
      → times (detaching (record pool { waiters = [] })).used conn ≡ 1
      → HandedOver pool (release detaching conn pool) ⊎ GivenBack pool (release detaching conn pool)
  unfolding release
  release-cases pool lent = release_found-cases pool (next_waiter pool.waiters) refl lent

  module _ {ℓ} {A : Type ℓ} where
    run_and_release-pool :
        (pool : Pool) (wrapped : Outcome A)
        → (run_and_release detaching conn wrapped pool).1 ≡ release detaching conn pool
    unfolding run_and_release
    run_and_release-pool pool (returns a) = refl
    run_and_release-pool pool (raises e) = refl

    -- A connection that is borrowed is given away exactly once, whether the operation runs out of time
    -- before it starts, returns or raises, where the set of lent connections still has it when it has
    -- been detached: it goes to the first waiter that is not done, and the pool is else as it was; or
    -- every waiter is done, it is free once more and not lent, and the other connections are where
    -- they were.
    pub time_reserve-pool :
        (reserve timeout waited : ℕ) (wrapped : Outcome A) (pool : Pool)
        → times (detaching (record pool { waiters = [] })).used conn ≡ 1
        → let left = (time_reserve detaching reserve timeout waited (some conn) wrapped pool).1 in
          HandedOver pool left ⊎ GivenBack pool left
    unfolding time_reserve
    time_reserve-pool reserve timeout waited wrapped pool lent =
        elim (Bool-cases (leb (reserve + waited) timeout)) [
          | inl e ↦ rw (e, run_and_release-pool pool wrapped) (release-cases pool lent)
          | inr e ↦ rw e (release-cases pool lent)
        ]
