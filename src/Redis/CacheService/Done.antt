-- ===== src/Redis/CacheService/Done.antt =====
-- Every caller of a batch is answered.
use tiny_chat_microservices.Prelude.{
  ℕ, suc, ◌≡◌, ◌≢◌, ◌<◌, refl, sym, ap, ◌∙◌, Bool, true, false, ◌&&◌, Option, none, some,
  Bool-cases, inl, inr, List, [], ◌∷◌, dict_get, get-put, if◌then◌else◌, ◌==◌, arith,
}
use tiny_chat_microservices.Aggregator.{
  Future, pending, resolved, errored, Batch, Aggregator, Ending, gives, times_out, fails, length,
  set_future, set_results, set_errors, set_futures, put_back, ended, ended_found, finish,
}
use tiny_chat_microservices.Aggregator.Steps.{Reach}
use tiny_chat_microservices.Aggregator.Lists.{count}
use tiny_chat_microservices.Aggregator.Batches.{Reach-batches}
use tiny_chat_microservices.Redis.CacheService.{
  redis_single, nones, single_read, batch_read, redis_read_batch, resolve_all, resolve_first,
  batch_written, redis_write_batch,
}

abbrev is_done : Future → Bool
is_done pending = false
is_done errored = true
is_done (resolved x) = true

abbrev pub all_done : List Future → Bool
all_done [] = true
all_done (f ∷ fs) = is_done f && all_done fs

set_future-resolved : (f : Future) (x : ℕ) → is_done (set_future f (resolved x)) ≡ true
unfolding set_future
set_future-resolved pending x = refl
set_future-resolved errored x = refl
set_future-resolved (resolved y) x = refl

set_future-errored : (f : Future) → is_done (set_future f errored) ≡ true
unfolding set_future
set_future-errored pending = refl
set_future-errored errored = refl
set_future-errored (resolved y) = refl

set_results-done :
    (fs : List Future) (xs : List ℕ) → length xs ≡ count fs → all_done (set_results fs xs) ≡ true
unfolding set_results
set_results-done [] xs e = refl
set_results-done (f ∷ fs) [] e = absurd (omega arith)
set_results-done (f ∷ fs) (x ∷ xs) e =
    ground (arith, set_future-resolved f x, set_results-done fs xs)

set_errors-done : (fs : List Future) → all_done (set_errors fs) ≡ true
unfolding set_errors
set_errors-done [] = refl
set_errors-done (f ∷ fs) = ground (arith, set_future-errored f, set_errors-done fs)

resolve_all-done : (fs : List Future) (x : ℕ) → all_done (resolve_all fs x) ≡ true
unfolding resolve_all
resolve_all-done [] x = refl
resolve_all-done (f ∷ fs) x = ground (arith, set_future-resolved f x, resolve_all-done fs x)

resolve_first-done :
    (fs : List Future) (o : Option ℕ) → count fs ≡ 1 → all_done (resolve_first fs o) ≡ true
unfolding resolve_first
resolve_first-done [] o e = refl
resolve_first-done (f ∷ []) none e = ground (arith, set_future-errored f)
resolve_first-done (f ∷ []) (some x) e = ground (arith, set_future-resolved f x)
resolve_first-done (f ∷ (g ∷ fs)) o e = absurd (omega arith)

length-nones : (xs : List ℕ) → length (nones xs) ≡ length xs
unfolding nones
length-nones [] = refl
length-nones (x ∷ xs) = ap suc (length-nones xs)

-- What an ending sets the futures of a batch to.
abbrev settled : List Future → Ending → List Future
settled fs (gives xs) = set_results fs xs
settled fs times_out = set_errors fs
settled fs fails = fs

batch_written-done :
    (timely : Bool) (o : Option ℕ) (fs : List Future)
    → all_done (if timely then batch_written fs o else resolve_all fs 0) ≡ true
unfolding batch_written
batch_written-done true none fs = set_errors-done fs
batch_written-done true (some x) fs = resolve_all-done fs x
batch_written-done false o fs = resolve_all-done fs 0

write-done :
    (closing timely : Bool) (single batch : Option ℕ) (messages : List ℕ) (fs : List Future)
    → length messages ≡ count fs
    → all_done (redis_write_batch closing timely single batch messages fs) ≡ true
unfolding redis_write_batch
write-done true timely single batch messages fs e = resolve_all-done fs 0
write-done false timely single batch messages fs e = elim (Bool-cases (length messages == 1)) [
  | inl t ↦ rw t (resolve_first-done fs (redis_single false timely single) (ground arith))
  | inr f ↦ rw f (batch_written-done timely batch fs)
]

single_read-done :
    (o : Option ℕ) (fs : List Future) → count fs ≡ 1 → all_done (settled fs (single_read o)) ≡ true
unfolding single_read
single_read-done none fs e = set_errors-done fs
single_read-done (some x) fs e = set_results-done fs (x ∷ []) (sym e)

batch_read-done :
    (timely : Bool) (o : Option (Option (List ℕ))) (messages : List ℕ) (fs : List Future)
    → length messages ≡ count fs
    → o ≢ some none
    → ((values : List ℕ) → o ≡ some (some values) → length values ≡ length messages)
    → all_done (settled fs (if timely then batch_read o else gives (nones messages))) ≡ true
unfolding batch_read
batch_read-done true none messages fs e answers full = set_errors-done fs
batch_read-done true (some none) messages fs e answers full = absurd (answers refl)
batch_read-done true (some (some values)) messages fs e answers full =
    set_results-done fs values (full values refl ∙ e)
batch_read-done false o messages fs e answers full =
    set_results-done fs (nones messages) (length-nones messages ∙ e)

read-done :
    (closing timely : Bool) (single : Option ℕ) (batch : Option (Option (List ℕ)))
    (messages : List ℕ) (fs : List Future)
    → length messages ≡ count fs
    → batch ≢ some none
    → ((values : List ℕ) → batch ≡ some (some values) → length values ≡ length messages)
    → all_done (settled fs (redis_read_batch closing timely single batch messages)) ≡ true
unfolding redis_read_batch
read-done true timely single batch messages fs e answers full =
    set_results-done fs (nones messages) (length-nones messages ∙ e)
read-done false timely single batch messages fs e answers full =
    elim (Bool-cases (length messages == 1)) [
      | inl t ↦ rw t (single_read-done (redis_single false timely single) fs (ground arith))
      | inr f ↦ rw f (batch_read-done timely batch messages fs e answers full)
    ]

-- What `finish` leaves of the batch.
finish-settled :
    (a : Aggregator) (n : ℕ) (b : Batch) (ending : Ending)
    → dict_get a.past n ≡ some b
    → ending ≢ fails
    → dict_get (finish n ending a).past n ≡ some (record b { futures = settled b.futures ending })
unfolding finish ended_found ended put_back set_futures
finish-settled a n b (gives xs) e h =
    rw e (ground (arith, get-put a.past n n (record b { futures = set_results b.futures xs })))
finish-settled a n b times_out e h =
    rw e (ground (arith, get-put a.past n n (record b { futures = set_errors b.futures })))
finish-settled a n b fails e h = absurd (h refl)

single_read-returns : (o : Option ℕ) → single_read o ≢ fails
unfolding single_read
single_read-returns none h = ground arith
single_read-returns (some x) h = ground arith

batch_read-returns : (o : Option (Option (List ℕ))) → o ≢ some none → batch_read o ≢ fails
unfolding batch_read
batch_read-returns none answers h = ground arith
batch_read-returns (some none) answers h = answers refl
batch_read-returns (some (some xs)) answers h = ground arith

read-returns :
    (closing timely : Bool) (single : Option ℕ) (batch : Option (Option (List ℕ)))
    (messages : List ℕ)
    → batch ≢ some none
    → redis_read_batch closing timely single batch messages ≢ fails
unfolding redis_read_batch
read-returns closing timely single batch messages answers h = ground (
  arith,
  single_read-returns (redis_single false timely single),
  batch_read-returns batch answers,
)

-- In every state that the callers of an Aggregator can reach, when a batch ends through the Redis cache
-- service, all its futures are done, so no caller waits for ever: for a batch of readers, if an answer
-- to the batch has as many values as it was asked for and is not None, and for a batch of writers,
-- whose futures the service sets itself. This holds as well when the service is closing, when too
-- little time is left, and when Redis does not answer in time.
pub all_done-finish :
    {calm : Bool} {max_count : ℕ} {xs : List ℕ} {a : Aggregator} (n : ℕ) (b : Batch)
    (closing timely : Bool) (single : Option ℕ) (batch : Option (Option (List ℕ)))
    (written : Option ℕ)
    → 0 < max_count
    → Reach calm max_count xs a
    → dict_get a.past n ≡ some b
    → batch ≢ some none
    → ((values : List ℕ) → batch ≡ some (some values) → length values ≡ length b.args)
    → ((c : Batch) × (dict_get
            (finish n (redis_read_batch closing timely single batch b.args) a).past
            n
          ≡ some c)
        × (all_done c.futures ≡ true))
      × (all_done (redis_write_batch closing timely single written b.args b.futures) ≡ true)
all_done-finish {a = a} n b closing timely single batch written pos r e answers full =
    let (_, _, same) = Reach-batches n b pos r e in
    let ending = redis_read_batch closing timely single batch b.args in
    (
      (
        record b { futures = settled b.futures ending },
        finish-settled a n b ending e (read-returns closing timely single batch b.args answers),
        read-done closing timely single batch b.args b.futures same answers full,
      ),
      write-done closing timely single written b.args b.futures same,
    )
