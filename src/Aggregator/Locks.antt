-- ===== src/Aggregator/Locks.antt =====
-- The locks of the batches of an `Aggregator`: an invariant, and what keeps it when callers join and go on.
use tiny_chat_microservices.Prelude.{
  ℕ, ◌+◌, ◌≤◌, ◌<◌, ◌≡◌, ◌≢◌, Bool, true, false, ◌&&◌, ◌||◌, not, some, Bool-cases, inl, inr, List,
  [], ◌∷◌, Dict, dict_get, dict_put, get-put, if◌then◌else◌, ◌==◌, ltb, arith, times, times-without,
  without,
}
use tiny_chat_microservices.Aggregator.{
  Batch, Aggregator, Future, clear_with, islocked, collect, joined, lock_at, lock_of,
}

pub lock_at-now : (lock : ℕ) (past : Dict Batch) (now : ℕ) → lock_at lock past now now ≡ lock
unfolding lock_at
lock_at-now lock past now = ground arith

pub lock_at-cleared :
    (new : ℕ) (past : Dict Batch) (now n : ℕ) (batch : Batch)
    → lock_at new (dict_put past now batch) (now + 1) n
      ≡ (if n == now + 1 then new else lock_at batch.lock past now n)
unfolding lock_at
lock_at-cleared new past now n batch = ground (arith, get-put past now n batch)

pub lock_at-put :
    (lock : ℕ) (past : Dict Batch) (now n k : ℕ) (b : Batch) (fs : List Future)
    → dict_get past n ≡ some b
    → lock_at lock (dict_put past n (record b { futures = fs })) now k ≡ lock_at lock past now k
unfolding lock_at
lock_at-put lock past now n k b fs e = ground (arith, get-put past n k (record b { futures = fs }))

-- Callers may still join or go on with the batch, or it is executed.
abbrev pub is_open : Aggregator → ℕ → Bool
is_open a n = n == a.now || (ltb n a.now && not (times a.waiting n + times a.executing n == 0))

pub record Inv (a : Aggregator) : Type 0 where
  pub unstarted : (n : ℕ) → a.now ≤ n → times a.executions n ≡ 0
  pub idle : (n : ℕ) → a.now ≤ n → times a.executing n ≡ 0
  pub unjoined : (n : ℕ) → a.now < n → times a.waiting n ≡ 0
  pub counted : (n : ℕ) → times a.executing n ≤ times a.executions n
  pub once : (n : ℕ) → times a.executions n ≤ 1
  pub served : (n : ℕ) → n < a.now → 1 ≤ times a.waiting n + times a.executions n
  pub held :
      (n : ℕ)
      → is_open a n ≡ true
      → islocked a.locks (lock_of a n) ≡ not (times a.executions n == 0)
  pub apart :
      (n k : ℕ) → is_open a n ≡ true → is_open a k ≡ true → lock_of a n ≡ lock_of a k → n ≡ k
  pub uncached : (n : ℕ) → is_open a n ≡ true → times a.cache (lock_of a n) ≡ 0
  pub below : (n : ℕ) → is_open a n ≡ true → lock_of a n < a.made
  pub distinct : (l : ℕ) → times a.cache l ≤ 1
  pub cache_below : (l : ℕ) → a.made ≤ l → times a.cache l ≡ 0
  pub free : (l : ℕ) → 1 ≤ times a.cache l → islocked a.locks l ≡ false
  pub unmade : (l : ℕ) → a.made ≤ l → islocked a.locks l ≡ false

-- A caller waits in the batch that it joined.
pub wait-Inv :
    (a : Aggregator) (arg : ℕ) → Inv a → Inv (record (joined a arg) { waiting = a.now ∷ a.waiting })
unfolding joined
wait-Inv a arg v = record {
  unstarted = v.unstarted;
  idle = v.idle;
  unjoined = λ n h. ground (arith, v.unjoined n);
  counted = v.counted;
  once = v.once;
  served = λ n h. ground (arith, v.served n);
  held = λ n h. v.held n (ground arith);
  apart = λ n k h g. v.apart n k (ground arith) (ground arith);
  uncached = λ n h. v.uncached n (ground arith);
  below = λ n h. v.below n (ground arith);
  distinct = v.distinct;
  cache_below = v.cache_below;
  free = v.free;
  unmade = v.unmade;
}

-- A new batch gets a lock that is not locked and that no open batch has.
module _ (a : Aggregator) (v : Inv a) (left : 1 ≤ times a.waiting a.now) (new made : ℕ)
    (cache : List ℕ) (unlocked : islocked a.locks new ≡ false) (more : a.made ≤ made)
    (made_it : new < made) (fewer : (l : ℕ) → times cache l + (if l == new then 1 else 0) ≤ 1)
    (part : (l : ℕ) → times cache l ≤ times a.cache l)
    (not_used : (n : ℕ) → is_open a n ≡ true → lock_of a n ≢ new) where
  abbrev next : Aggregator
  next = record a {
    past = dict_put a.past a.now a.current;
    now = a.now + 1;
    current = record { args = []; futures = []; lock = new };
    cache = cache;
    made = made;
  }

  lock_of-next : (n : ℕ) → lock_of next n ≡ (if n == a.now + 1 then new else lock_of a n)
  lock_of-next n = lock_at-cleared new a.past a.now n a.current

  is_open-next : (n : ℕ) → is_open next n ≡ (n == a.now + 1 || is_open a n)
  is_open-next n = ground (arith, v.idle n, v.unjoined n)

  next-Inv : Inv next
  next-Inv = record {
    unstarted = λ n h. v.unstarted n (omega arith);
    idle = λ n h. v.idle n (omega arith);
    unjoined = λ n h. v.unjoined n (omega arith);
    counted = v.counted;
    once = v.once;
    served = λ n h. ground (arith, v.served n);
    held = λ n h. ground (arith, is_open-next n, lock_of-next n, v.held n, v.unstarted n);
    apart = λ n k h g e. ground (
      arith,
      is_open-next n,
      lock_of-next n,
      is_open-next k,
      lock_of-next k,
      not_used n,
      not_used k,
      v.apart n k,
    );
    uncached = λ n h.
        ground (arith, is_open-next n, lock_of-next n, v.uncached n, fewer new, part (lock_of a n));
    below = λ n h. ground (arith, is_open-next n, lock_of-next n, v.below n);
    distinct = λ l. ground (arith, fewer l);
    cache_below = λ l h. ground (arith, part l, v.cache_below l);
    free = λ l h. v.free l (ground (arith, part l));
    unmade = λ l h. v.unmade l (omega arith);
  }

pub clear-Inv :
    (a : Aggregator) (cache : List ℕ)
    → a.cache ≡ cache
    → Inv a
    → 1 ≤ times a.waiting a.now
    → Inv (clear_with a cache)
unfolding clear_with
clear-Inv a [] e v left =
    next-Inv a v left a.made (a.made + 1) a.cache (v.unmade a.made (omega arith)) (omega arith)
      (omega arith) (λ l. ground (arith, e)) (λ l. omega arith) (λ n h c. ground (arith, v.below n))
clear-Inv a (lock ∷ cache) e v left =
    let there : 1 ≤ times a.cache lock = ground (arith, e) in
    next-Inv a v left lock a.made cache (v.free lock there) (omega arith)
      (ground (arith, v.cache_below lock)) (λ l. ground (arith, e, v.distinct l))
      (λ l. ground (arith, e)) (λ n h c. ground (arith, v.uncached n))

-- A caller of a batch that is not current goes on, and executes it if it is the first.
module _ (a : Aggregator) (n : ℕ) (v : Inv a) (past : n < a.now)
    (waits : 1 ≤ times a.waiting n) where
  was_open : is_open a n ≡ true
  was_open = ground arith

  locked-Inv :
      islocked a.locks (lock_of a n) ≡ true → Inv (record a { waiting = without a.waiting n })
  locked-Inv locked = record {
    unstarted = v.unstarted;
    idle = v.idle;
    unjoined = λ k h. ground (arith, times-without a.waiting n k, v.unjoined k);
    counted = v.counted;
    once = v.once;
    served = λ k h. ground (arith, times-without a.waiting n k, v.served k, v.held n was_open);
    held = λ k h. v.held k (ground (arith, times-without a.waiting n k));
    apart = λ k j h g.
        v.apart k j (ground (arith, times-without a.waiting n k))
          (ground (arith, times-without a.waiting n j));
    uncached = λ k h. v.uncached k (ground (arith, times-without a.waiting n k));
    below = λ k h. v.below k (ground (arith, times-without a.waiting n k));
    distinct = v.distinct;
    cache_below = v.cache_below;
    free = v.free;
    unmade = v.unmade;
  }

  abbrev begun : Aggregator
  begun = record a {
    waiting = without a.waiting n;
    locks = dict_put a.locks (lock_of a n) true;
    executing = n ∷ a.executing;
    executions = n ∷ a.executions;
  }

  begun-open : (k : ℕ) → is_open begun k ≡ true → is_open a k ≡ true
  begun-open k h = ground (arith, times-without a.waiting n k, was_open)

  begun-Inv : islocked a.locks (lock_of a n) ≡ false → Inv begun
  begun-Inv unlocked =
      let none_yet : times a.executions n ≡ 0 = ground (arith, v.held n was_open) in
      record {
        unstarted = λ k h. ground (arith, v.unstarted k);
        idle = λ k h. ground (arith, v.idle k);
        unjoined = λ k h. ground (arith, times-without a.waiting n k, v.unjoined k);
        counted = λ k. ground (arith, v.counted k);
        once = λ k. ground (arith, v.once k);
        served = λ k h. ground (arith, times-without a.waiting n k, v.served k);
        held = λ k h. ground (
          arith,
          get-put a.locks (lock_of a n) (lock_of a k) true,
          v.held k (begun-open k h),
          v.apart k n (begun-open k h) was_open,
        );
        apart = λ k j h g. v.apart k j (begun-open k h) (begun-open j g);
        uncached = λ k h. v.uncached k (begun-open k h);
        below = λ k h. v.below k (begun-open k h);
        distinct = v.distinct;
        cache_below = v.cache_below;
        free = λ l h.
            ground (arith, get-put a.locks (lock_of a n) l true, v.free l h, v.uncached n was_open);
        unmade = λ l h.
            ground (arith, get-put a.locks (lock_of a n) l true, v.unmade l h, v.below n was_open);
      }

  pub serve-Inv : Inv (collect (record a { waiting = without a.waiting n }) n (lock_of a n))
  unfolding collect
  serve-Inv = elim (Bool-cases (islocked a.locks (lock_of a n))) [
    | inl t ↦ rw t (locked-Inv t)
    | inr f ↦ rw f (begun-Inv f)
  ]
