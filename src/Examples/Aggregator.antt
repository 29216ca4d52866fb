-- ===== src/Examples/Aggregator.antt =====
-- Two calls that fill a batch.
use tiny_chat_microservices.Prelude.{
  ap, sym, some-value, none, ℕ, ◌≡◌, ◌≤◌, ◌<◌, refl, Bool, true, false, some, List, [], ◌∷◌,
  dict_get, dict_put, arith, times, without,
}
use tiny_chat_microservices.Aggregator.{
  Batch, Aggregator, fresh, pending, clear_with, clear, collect, joined, join, lock_at, resume,
  gives, set_results, put_back, set_futures, ended, ended_found, finish, length,
}
use tiny_chat_microservices.Redis.CacheService.{redis_read_batch, redis_write_batch}
use tiny_chat_microservices.Redis.CacheService.Done.{all_done, all_done-finish}
use tiny_chat_microservices.Aggregator.Steps.{Reach, start, joins, resumes}
use tiny_chat_microservices.Aggregator.Lists.{all_args, count}
use tiny_chat_microservices.Aggregator.Batches.{Reach-batches}
use tiny_chat_microservices.Aggregator.Once.{Reach-once}

-- The second caller fills the batch and begins its execution, the first one goes on after that.
abbrev filled : Aggregator
filled = join (some 2) 8 (join (some 2) 7 fresh)

abbrev gone_on : Aggregator
gone_on = resume 0 filled

filled-Reach : (calm : Bool) → Reach calm 2 (7 ∷ 8 ∷ []) filled
filled-Reach calm = joins 8 (joins 7 start)

filled-waits : 1 ≤ times filled.waiting 0
unfolding join joined clear clear_with collect dict_put dict_get
filled-waits = omega arith

gone_on-Reach : Reach true 2 (7 ∷ 8 ∷ []) gone_on
gone_on-Reach = resumes 0 filled-waits (filled-Reach true)

abbrev first_batch : Batch
first_batch = record { args = 7 ∷ 8 ∷ []; futures = pending ∷ pending ∷ []; lock = 0 }

filled-batch : dict_get filled.past 0 ≡ some first_batch
unfolding join joined clear clear_with collect dict_put dict_get
filled-batch = refl

gone_on-past : 0 < gone_on.now
unfolding resume lock_at without join joined clear clear_with collect dict_put dict_get
gone_on-past = omega arith

gone_on-waiting : times gone_on.waiting 0 ≡ 0
unfolding resume lock_at without join joined clear clear_with collect dict_put dict_get
gone_on-waiting = refl

Reach-batches_example :
    (all_args filled ≡ 7 ∷ 8 ∷ [])
    × (length first_batch.args ≤ 2)
    × (length first_batch.args ≡ count first_batch.futures)
Reach-batches_example =
    Reach-batches {calm = false} 0 first_batch (omega arith) (filled-Reach false) filled-batch

Reach-once_example : (times gone_on.executions 0 ≡ 1) × ((k : ℕ) → times gone_on.executions k ≤ 1)
Reach-once_example = Reach-once {xs = 7 ∷ 8 ∷ []} 0 gone_on-Reach gone_on-past gone_on-waiting

-- An execution that ends before the first caller goes on is made again.
abbrev executed_twice : List ℕ
executed_twice = (resume 0 (finish 0 (gives (1 ∷ 2 ∷ [])) filled)).executions

twice : executed_twice ≡ 0 ∷ 0 ∷ []
unfolding finish ended_found ended put_back set_futures set_results resume lock_at without join
    joined clear clear_with collect dict_put dict_get
twice = refl

two_values :
    (values : List ℕ)
    → some (some (1 ∷ 2 ∷ [])) ≡ some (some values)
    → length values ≡ length first_batch.args
two_values values e =
    ap length
      (sym (some-value (1 ∷ 2 ∷ []) values (some-value (some (1 ∷ 2 ∷ [])) (some values) e)))

-- The batch is read from Redis in time.
all_done-finish_example :
    ((c : Batch) × (dict_get
          (finish 0
            (redis_read_batch false true none (some (some (1 ∷ 2 ∷ []))) first_batch.args)
            filled).past
          0
        ≡ some c)
      × (all_done c.futures ≡ true))
    × (all_done (redis_write_batch false true none none first_batch.args first_batch.futures)
        ≡ true)
all_done-finish_example =
    all_done-finish {calm = false} 0 first_batch false true none (some (some (1 ∷ 2 ∷ []))) none
      (omega arith) (filled-Reach false) filled-batch (λ e. ground arith) two_values
