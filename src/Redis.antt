-- ===== src/Redis.antt =====
-- chat/common/src/chatp/redis: what a client of Redis gets back (client.py), to which side of the
-- cache service each operation goes (client.py, model.py), and the replies of the two rate limiters.
-- The cache service and Redis are arguments.
pub mod CacheService
use tiny_chat_microservices.Prelude.{
  ℕ, ◌%◌, ◌≡◌, ◌↔◌, ◌||◌, refl, Bool, true, false, Option, none, some, arith, ◌==◌, if◌then◌else◌,
}

-- `ResponseStatus`
pub data ResponseStatus : Type 0 where
  redis_success redis_failed redis_timeout : ResponseStatus

-- How an awaited operation ends: it gives data, perhaps None, or raises TimeoutError.
pub data Awaited {ℓ} (A : Type ℓ) : Type ℓ where
  finished : Option A → Awaited A
  timed_out : Awaited A

-- The body that every operation of `RedisClient` has around its `await`.
unfoldable pub respond {ℓ} : {A : Type ℓ} → Awaited A → Option A × ResponseStatus
respond timed_out = (none, redis_timeout)
respond (finished (some value)) = (some value, redis_success)
respond (finished none) = (none, redis_failed)

-- The operations of `RedisClient`.
pub data Operation : Type 0 where
  redis_get redis_set redis_setnx redis_mget redis_mset redis_hlen redis_hget redis_hset
        redis_hgetall redis_hdel redis_delete redis_incr redis_lpush redis_rpush ip_ratelimiter
        token_ratelimiter :
      Operation

-- The `RedisTaskType` that an operation passes on.
unfoldable pub task_type : Operation → ℕ
task_type redis_get = 0
task_type redis_set = 1
task_type redis_setnx = 5
task_type redis_mget = 4
task_type redis_mset = 7
task_type redis_hlen = 6
task_type redis_hget = 8
task_type redis_hset = 9
task_type redis_hgetall = 10
task_type redis_hdel = 11
task_type redis_delete = 19
task_type redis_incr = 13
task_type redis_lpush = 15
task_type redis_rpush = 17
task_type ip_ratelimiter = 12
task_type token_ratelimiter = 14

-- The ways to the cache service: alone by `redis_read` or `redis_write`, or through the aggregator
-- that `__aenter__` has made for the task type.
pub data Way : Type 0 where
  read write : Way
  group : ℕ → Way

unfoldable pub way : Operation → Way
unfolding task_type
way redis_get = group (task_type redis_get)
way redis_set = group (task_type redis_set)
way redis_setnx = write
way redis_mget = read
way redis_mset = write
way redis_hlen = read
way redis_hget = read
way redis_hset = write
way redis_hgetall = read
way redis_hdel = write
way redis_delete = group (task_type redis_delete)
way redis_incr = write
way redis_lpush = group (task_type redis_lpush)
way redis_rpush = group (task_type redis_rpush)
way ip_ratelimiter = read
way token_ratelimiter = read

-- An aggregator that `__aenter__` makes: whether it writes, its timeout in seconds and the greatest
-- number of requests in a batch.
pub record Group : Type 0 where
  pub writes : Bool
  pub timeout : ℕ
  pub max_count : ℕ

group_of : ℕ → Group
group_of task =
    if task % 2 == 1
    then record { writes = true; timeout = 5; max_count = 25 }
    else record { writes = false; timeout = 3; max_count = 50 }

-- The loop of `__aenter__`: the group of a task type, if it makes one.
unfoldable pub groups : ℕ → Option Group
unfolding group_of
groups task =
    if task == 0 || (task == 1 || (task == 19 || (task == 15 || task == 17)))
    then some (group_of task)
    else none

-- Whether an operation ends at the writing side; `none` is a missing group, a KeyError.
unfoldable pub writes : Operation → Option Bool
unfolding way groups
writes operation = elim (way operation) [
  | read ↦ some false
  | write ↦ some true
  | group task ↦ elim (groups task) [ none ↦ none | some g ↦ some g.writes ]
]

-- Every operation finds its way, and goes to the writing side exactly if its task type is odd.
pub writes-odd : (operation : Operation) → writes operation ≡ some (task_type operation % 2 == 1)
unfolding writes
writes-odd redis_get = refl
writes-odd _ = refl

-- A status other than success comes with no data, and success with data.
pub respond-status {ℓ} :
    {A : Type ℓ} (result : Awaited A)
    → ((respond result).1 ≡ redis_success) ↔ ((value : A) × ((respond result).0 ≡ some value))
unfolding respond
respond-status timed_out = (λ h. absurd (ground arith), λ h. absurd (ground arith))
respond-status (finished none) = (λ h. absurd (ground arith), λ h. absurd (ground arith))
respond-status (finished (some v)) = (λ h. (v, refl), λ h. refl)

-- `RatelimiterStatus`
pub data RatelimiterStatus : Type 0 where
  rate_allowed rate_rejected rate_blocked : RatelimiterStatus
