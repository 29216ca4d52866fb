-- ===== src/Db.antt =====
-- chat/common/src/chatp/database: the result of a statement (model.py), the decorator `time_reserve`
-- of postgres/executor.py, which borrows a connection for one operation, and `release` of the pool
-- (postgres/backend.py). What `acquire` of the pool gives is an argument.
-- Times are whole numbers of a unit that the caller chooses; SQL and asyncpg are not modelled.
pub mod Borrow
use tiny_chat_microservices.Prelude.{
  ℕ, ◌+◌, Bool, Option, none, some, List, [], ◌∷◌, ◌++◌, without, Outcome, returns, raises,
  if◌then◌else◌, leb,
}

-- `ExecutionStatus`
pub data ExecutionStatus : Type 0 where
  success failed panic info panic_io_error panic_seq_num_wrong panic_interface info_dup_entry
        timeout_pending timeout_handling :
      ExecutionStatus

-- `ExecutionResult`, without the message that is only logged
pub record ExecutionResult {ℓ} (A : Type ℓ) : Type ℓ where
  pub status : ExecutionStatus
  pub payload : Option A

-- A future of a caller that waits for a connection; `done` says whether its wait is over.
pub record Waiter : Type 0 where
  pub number : ℕ
  pub done : Bool

-- `AsyncMyConnectionPool`, as far as lending goes: `_free`, `_used`, `_waiters`, and which waiter was
-- given which connection. A connection is a number.
pub record Pool : Type 0 where
  pub free : List ℕ
  pub used : List ℕ
  pub waiters : List Waiter
  pub handed : List (ℕ × ℕ)

-- The first waiter that is not done, with those behind it; the ones before it are dropped.
unfoldable pub next_waiter : List Waiter → Option (ℕ × List Waiter)
next_waiter [] = none
next_waiter (waiter ∷ waiters) =
    let rest = next_waiter waiters in if waiter.done then rest else some (waiter.number, waiters)

-- The connection is detached, and the pool may change meanwhile; `detach` lets no exception pass.
unfoldable pub put_back : (detaching : Pool → Pool) → ℕ → Pool → Pool
put_back detaching conn pool =
    let now = detaching (record pool { waiters = [] }) in
    record now { free = now.free ++ (conn ∷ []); used = without now.used conn }

release_found : (detaching : Pool → Pool) → ℕ → Pool → Option (ℕ × List Waiter) → Pool
unfolding put_back
release_found detaching conn pool none = put_back detaching conn pool
release_found detaching conn pool (some (number, waiters)) = record pool {
  waiters = waiters;
  handed = (number, conn) ∷ pool.handed;
}

-- `release`
unfoldable pub release : (detaching : Pool → Pool) → ℕ → Pool → Pool
unfolding release_found
release detaching conn pool = release_found detaching conn pool (next_waiter pool.waiters)

module _ {ℓ} {A : Type ℓ} (detaching : Pool → Pool) where
  -- The wrapped operation in its `try`: an exception passes through `finally` and goes on.
  run_and_release : ℕ → Outcome A → Pool → Outcome (Option A) × Pool
  unfolding release
  run_and_release conn (returns result) pool = (returns (some result), release detaching conn pool)
  run_and_release conn (raises exc) pool = (raises exc, release detaching conn pool)

  -- `_inner_impl` of time_reserve. `acquired` is what `db_pool.acquire` gave, `waited` how long that
  -- took, and the pool is the one that is found when the connection is to be given back.
  unfoldable pub time_reserve :
      (reserve timeout waited : ℕ) → Option ℕ → Outcome A → Pool → Outcome (Option A) × Pool
  unfolding release run_and_release
  time_reserve reserve timeout waited none wrapped pool = (returns none, pool)
  time_reserve reserve timeout waited (some conn) wrapped pool =
      if leb (reserve + waited) timeout
      then run_and_release conn wrapped pool
      else (returns none, release detaching conn pool)
