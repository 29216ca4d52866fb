-- ===== src/Redis/CacheService.antt =====
-- chat/common/src/chatp/redis/cache_service.py: reading and writing of single tasks and of batches,
-- as the groups of the client call them. A result is a number, and None is 0. `closing` is the test
-- of the state, `timely` whether enough time is left when the task is in the channel, and a waiter
-- answers or, if it is `none`, not in time. The counts of the service are left out.
pub mod Done
use tiny_chat_microservices.Prelude.{
  ℕ, zero, suc, Bool, true, false, Option, none, some, List, [], ◌∷◌, if◌then◌else◌, ◌==◌,
}
use tiny_chat_microservices.Aggregator.{
  Future, pending, resolved, set_future, errored, set_errors, Ending, gives, times_out, fails,
  length,
}

-- `redis_read` and `redis_write`, which have one body but for the channel: `none` is a TimeoutError
unfoldable pub redis_single : (closing timely : Bool) → Option ℕ → Option ℕ
redis_single closing timely waiter = if closing then some 0 else if timely then waiter else some 0

-- `(None,) * num_batch`
unfoldable pub nones : List ℕ → List ℕ
nones [] = []
nones (m ∷ messages) = 0 ∷ nones messages

single_read : Option ℕ → Ending
single_read none = times_out
single_read (some value) = gives (value ∷ [])

-- The waiter of a batch; the reader answers None if the circuit is broken or Redis raises, and then
-- `zip(futures, None)` raises TypeError.
batch_read : Option (Option (List ℕ)) → Ending
batch_read none = times_out
batch_read (some none) = fails
batch_read (some (some value)) = gives value

-- `redis_read_batch`, with the waiters of a single task and of a batch
unfoldable pub redis_read_batch :
    (closing timely : Bool) → Option ℕ → Option (Option (List ℕ)) → (messages : List ℕ) → Ending
unfolding redis_single single_read batch_read nones
redis_read_batch closing timely single batch messages =
    if closing
    then gives (nones messages)
    else if length messages == 1
    then single_read (redis_single false timely single)
    else if timely
    then batch_read batch
    else gives (nones messages)

-- `fut.set_result(data)` for each that is not done
unfoldable pub resolve_all : List Future → ℕ → List Future
resolve_all [] value = []
resolve_all (f ∷ futures) value = set_future f (resolved value) ∷ resolve_all futures value

resolve_first : List Future → Option ℕ → List Future
resolve_first [] value = []
resolve_first (f ∷ futures) none = set_future f errored ∷ futures
resolve_first (f ∷ futures) (some value) = set_future f (resolved value) ∷ futures

batch_written : List Future → Option ℕ → List Future
batch_written futures none = set_errors futures
batch_written futures (some value) = resolve_all futures value

-- `redis_write_batch`, which sets the futures itself
unfoldable pub redis_write_batch :
    (closing timely : Bool) → Option ℕ → Option ℕ → (messages : List ℕ) → List Future → List Future
unfolding redis_single resolve_all resolve_first batch_written
redis_write_batch closing timely single batch messages futures =
    if closing
    then resolve_all futures 0
    else if length messages == 1
    then resolve_first futures (redis_single false timely single)
    else if timely
    then batch_written futures batch
    else resolve_all futures 0
