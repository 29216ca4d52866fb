-- ===== src/Aggregator.antt =====
-- chat/common/src/chatp/utils/aggregator.py: `Aggregator`, which gathers the arguments of concurrent
-- calls into one call of a function. Arguments and results are numbers. A caller is known by the
-- batch that it joined and its place there; batches are numbered. The events only say when a caller
-- goes on, which the steps leave open: it is woken by the last caller of its batch or by its timeout.
pub mod Steps
pub mod Lists
pub mod Batches
pub mod Locks
pub mod Once
use tiny_chat_microservices.Prelude.{
  ℕ, zero, suc, ◌+◌, Bool, true, false, ◌&&◌, not, Option, none, some, List, [], ◌∷◌, ◌++◌, Dict,
  dict_get, dict_put, if◌then◌else◌, ◌==◌, ltb, without,
}

-- A caller's future is `none` until it is done; `errored` is one with the TimeoutError.
pub data Future : Type 0 where
  pending errored : Future
  resolved : ℕ → Future

-- What `_args`, `_futures` and `_lock` hold for a batch.
pub record Batch : Type 0 where
  pub args : List ℕ
  pub futures : List Future
  pub lock : ℕ

-- `now` is the number of the batch that callers join, `past` has those that `_clear` replaced. A lock
-- is a number, of which `made` were made; `locks` says which are locked and `cache` is the deque of
-- the global cache. `waiting` has the batches of the callers that wait for their event, `executing`
-- of those that await `_func`, and `executions` of all calls of `_func`.
pub record Aggregator : Type 0 where
  pub current : Batch
  pub past : Dict Batch
  pub now : ℕ
  pub locks : Dict Bool
  pub cache : List ℕ
  pub made : ℕ
  pub waiting : List ℕ
  pub executing : List ℕ
  pub executions : List ℕ

-- `__init__`
abbrev pub fresh : Aggregator
fresh = record {
  current = record { args = []; futures = []; lock = 0 };
  past = [];
  now = 0;
  locks = [];
  cache = [];
  made = 1;
  waiting = [];
  executing = [];
  executions = [];
}

abbrev pub islocked : Dict Bool → ℕ → Bool
islocked locks lock = elim (dict_get locks lock) [ none ↦ false | some b ↦ b ]

-- `_clear`, with `get_or_create` of the cache of locks, which the other Aggregators of the process
-- share: what they do to it stands in `Steps.Reach`
unfoldable pub clear_with : Aggregator → List ℕ → Aggregator
clear_with a [] = record a {
  past = dict_put a.past a.now a.current;
  now = a.now + 1;
  current = record { args = []; futures = []; lock = a.made };
  made = a.made + 1;
}
clear_with a (lock ∷ cache) = record a {
  past = dict_put a.past a.now a.current;
  now = a.now + 1;
  current = record { args = []; futures = []; lock = lock };
  cache = cache;
}

unfoldable pub clear : Aggregator → Aggregator
unfolding clear_with
clear a = clear_with a a.cache

-- `if lock.acquire()`, and the call of `_func` begins
unfoldable pub collect : Aggregator → (batch lock : ℕ) → Aggregator
collect a batch lock = if islocked a.locks lock then a else record a {
  locks = dict_put a.locks lock true;
  executing = batch ∷ a.executing;
  executions = batch ∷ a.executions;
}

abbrev pub length : List ℕ → ℕ
length [] = 0
length (x ∷ xs) = suc (length xs)

unfoldable pub joined : Aggregator → ℕ → Aggregator
joined a arg = record a {
  current = record a.current {
    args = a.current.args ++ (arg ∷ []);
    futures = a.current.futures ++ (pending ∷ []);
  };
}

abbrev pub is_full : Option ℕ → List ℕ → Bool
is_full none args = false
is_full (some max_count) args = length args == max_count

-- `aggregate` up to its first await: the caller that fills the batch goes on, others wait.
unfoldable pub join : (max_count : Option ℕ) → ℕ → Aggregator → Aggregator
unfolding joined clear collect
join max_count arg a =
    if is_full max_count (joined a arg).current.args
    then collect (clear (joined a arg)) a.now a.current.lock
    else record (joined a arg) { waiting = a.now ∷ a.waiting }

-- The lock that the callers of a batch hold, given that of the current one.
unfoldable pub lock_at : (lock : ℕ) (past : Dict Batch) (now batch : ℕ) → ℕ
lock_at lock past now batch =
    if batch == now then lock else elim (dict_get past batch) [ none ↦ 0 | some b ↦ b.lock ]

abbrev pub lock_of : Aggregator → ℕ → ℕ
lock_of a batch = lock_at a.current.lock a.past a.now batch

-- A caller that waited goes on, woken or after its timeout.
unfoldable pub resume : (batch : ℕ) → Aggregator → Aggregator
unfolding clear collect
resume batch a =
    let left = record a { waiting = without a.waiting batch } in
    collect (if batch == a.now then clear left else left) batch (lock_of a batch)

-- How `_func` ends: with results, with TimeoutError, or with another exception.
pub data Ending : Type 0 where
  gives : List ℕ → Ending
  times_out fails : Ending

unfoldable pub set_future : Future → Future → Future
set_future pending f = f
set_future errored f = errored
set_future (resolved x) f = resolved x

-- `zip(futures, results)`
unfoldable pub set_results : List Future → List ℕ → List Future
unfolding set_future
set_results [] results = []
set_results (f ∷ futures) [] = f ∷ futures
set_results (f ∷ futures) (x ∷ results) = set_future f (resolved x) ∷ set_results futures results

unfoldable pub set_errors : List Future → List Future
unfolding set_future
set_errors [] = []
set_errors (f ∷ futures) = set_future f errored ∷ set_errors futures

-- `LockCache.put_back`, with the bound of 1024 entries
abbrev pub bounded : List ℕ → List ℕ
bounded [] = []
bounded (x ∷ xs) = if ltb (length xs) 1024 then x ∷ xs else xs

unfoldable pub put_back : Aggregator → ℕ → Aggregator
put_back a lock = record a {
  locks = dict_put a.locks lock false;
  cache = bounded (a.cache ++ (lock ∷ []));
}

unfoldable pub set_futures : Aggregator → ℕ → Batch → List Future → Aggregator
set_futures a n batch futures = record a {
  past = dict_put a.past n (record batch { futures = futures });
}

unfoldable pub ended : Aggregator → ℕ → Batch → Ending → Aggregator
unfolding set_futures put_back
ended a n batch (gives results) =
    put_back (set_futures a n batch (set_results batch.futures results)) batch.lock
ended a n batch times_out = put_back (set_futures a n batch (set_errors batch.futures)) batch.lock
ended a n batch fails = a

unfoldable pub ended_found : Aggregator → ℕ → Ending → Option Batch → Aggregator
unfolding ended
ended_found a n ending none = a
ended_found a n ending (some batch) = ended a n batch ending

-- `_execute` of a batch ends, and what follows; the batch is one of `past`.
unfoldable pub finish : (batch : ℕ) → Ending → Aggregator → Aggregator
unfolding ended_found
finish n ending a =
    ended_found (record a { executing = without a.executing n }) n ending (dict_get a.past n)
