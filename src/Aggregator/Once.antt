-- ===== src/Aggregator/Once.antt =====
-- How often the function is called for a batch, where a batch ends only when its callers have gone on.
use tiny_chat_microservices.Prelude.{
  ℕ, ◌+◌, ◌≤◌, ◌<◌, ◌≡◌, refl, sym, subst, true, false, ◌&&◌, not, Option, none, some, Bool-cases,
  inl, inr, List, [], ◌∷◌, ◌++◌, Dict, dict_get, dict_put, get-put, if◌then◌else◌, ◌==◌, arith,
  times, times-last, times-without, without,
}
use tiny_chat_microservices.Aggregator.{
  Batch, Aggregator, Future, clear_with, clear, collect, joined, is_full, join, lock_at, lock_of,
  resume, Ending, gives, times_out, fails, set_results, set_errors, bounded, put_back, set_futures,
  ended, ended_found, finish,
}
use tiny_chat_microservices.Aggregator.Steps.{Reach, start, joins, resumes, ends, elsewhere}
use tiny_chat_microservices.Aggregator.Locks.{
  Inv, is_open, lock_at-now, lock_at-cleared, lock_at-put, wait-Inv, clear-Inv, serve-Inv,
}

-- A caller of the current batch goes on: the batch is closed first.
module _ (a : Aggregator) (v : Inv a) (waits : 1 ≤ times a.waiting a.now) where
  close-Inv :
      (cache : List ℕ)
      → a.cache ≡ cache
      → Inv (
          collect
            (clear_with (record a { waiting = without a.waiting a.now }) cache)
            a.now
            a.current.lock)
  unfolding clear_with
  close-Inv [] e =
      let c = clear-Inv a [] e v waits in
      let same = lock_at-cleared a.made a.past a.now a.now a.current in
      let here = lock_at-now a.current.lock a.past a.now in
      subst
        (λ l.
          Inv (collect (clear_with (record a { waiting = without a.waiting a.now }) []) a.now l))
        (ground (arith, same, here)) (serve-Inv (clear_with a []) a.now c (omega arith) waits)
  close-Inv (lock ∷ cache) e =
      let c = clear-Inv a (lock ∷ cache) e v waits in
      let same = lock_at-cleared lock a.past a.now a.now a.current in
      let here = lock_at-now a.current.lock a.past a.now in
      subst
        (λ l. Inv (
          collect (clear_with (record a { waiting = without a.waiting a.now }) (lock ∷ cache)) a.now
            l))
        (ground (arith, same, here))
        (serve-Inv (clear_with a (lock ∷ cache)) a.now c (omega arith) waits)

resume-Inv : (a : Aggregator) (n : ℕ) → Inv a → 1 ≤ times a.waiting n → Inv (resume n a)
unfolding resume clear
resume-Inv a n v waits = elim (Bool-cases (n == a.now)) [
  | inl t ↦
      let e : n ≡ a.now = ground arith in
      rw (t, e, lock_at-now a.current.lock a.past a.now)
        (close-Inv a v (rw (sym e) waits) a.cache refl)
  | inr f ↦ rw f (serve-Inv a n v (ground (arith, v.unjoined n)) waits)
]

without-first : (n : ℕ) (c : List ℕ) → without (n ∷ c) n ≡ c
unfolding without
without-first n c = ground arith

join-Inv : (a : Aggregator) (m arg : ℕ) → Inv a → Inv (join (some m) arg a)
unfolding join clear
join-Inv a m arg v =
    let w = wait-Inv a arg v in
    elim (Bool-cases (is_full (some m) (joined a arg).current.args)) [
      | inl t ↦ rw t (
          subst
            (λ (waiting : List ℕ). Inv (
              collect (clear_with (record (joined a arg) { waiting = waiting }) a.cache) a.now
                a.current.lock))
            (without-first a.now a.waiting)
            (close-Inv (record (joined a arg) { waiting = a.now ∷ a.waiting }) w (ground arith)
              a.cache refl))
      | inr f ↦ rw f w
    ]

times-bounded : (c : List ℕ) (i : ℕ) → times (bounded c) i ≤ times c i
times-bounded [] i = omega arith
times-bounded (x ∷ c) i = ground arith

-- An execution ends, and nobody of its batch waits.
module _ (a : Aggregator) (n : ℕ) (v : Inv a) (runs : 1 ≤ times a.executing n)
    (calm : times a.waiting n ≡ 0) where
  was_running : is_open a n ≡ true
  was_running = ground (arith, v.idle n)

  abbrev over : Dict Batch → Aggregator
  over past = record a { executing = without a.executing n; past = past }

  over-open : (k : ℕ) (past : Dict Batch) → is_open (over past) k ≡ (not (k == n) && is_open a k)
  over-open k past = ground (arith, times-without a.executing n k, v.idle n, v.counted n, v.once n)

  over-Inv :
      (past : Dict Batch)
      → ((k : ℕ) → lock_at a.current.lock past a.now k ≡ lock_of a k)
      → Inv (over past)
  over-Inv past same = record {
    unstarted = v.unstarted;
    idle = λ k h. ground (arith, times-without a.executing n k, v.idle k);
    unjoined = v.unjoined;
    counted = λ k. ground (arith, times-without a.executing n k, v.counted k);
    once = v.once;
    served = v.served;
    held = λ k h. ground (arith, same k, over-open k past, v.held k);
    apart = λ k j h g e.
        ground (arith, same k, same j, over-open k past, over-open j past, v.apart k j);
    uncached = λ k h. ground (arith, same k, over-open k past, v.uncached k);
    below = λ k h. ground (arith, same k, over-open k past, v.below k);
    distinct = v.distinct;
    cache_below = v.cache_below;
    free = v.free;
    unmade = v.unmade;
  }

  abbrev returned : Dict Batch → Aggregator
  returned past = record (over past) {
    locks = dict_put a.locks (lock_of a n) false;
    cache = bounded (a.cache ++ (lock_of a n ∷ []));
  }

  times-cache :
      (l : ℕ)
      → times (bounded (a.cache ++ (lock_of a n ∷ []))) l
        ≤ times a.cache l + (if lock_of a n == l then 1 else 0)
  times-cache l =
      ground
        (arith, times-bounded (a.cache ++ (lock_of a n ∷ [])) l, times-last a.cache (lock_of a n) l)

  returned-Inv :
      (past : Dict Batch)
      → ((k : ℕ) → lock_at a.current.lock past a.now k ≡ lock_of a k)
      → Inv (returned past)
  returned-Inv past same =
      let o = over-Inv past same in
      record {
        unstarted = o.unstarted;
        idle = o.idle;
        unjoined = o.unjoined;
        counted = o.counted;
        once = o.once;
        served = o.served;
        held = λ k h. ground (
          arith,
          same k,
          over-open k past,
          get-put a.locks (lock_of a n) (lock_of a k) false,
          v.held k,
          v.apart k n,
          was_running,
        );
        apart = o.apart;
        uncached = λ k h. ground (
          arith,
          same k,
          over-open k past,
          times-cache (lock_of a k),
          v.uncached k,
          v.apart k n,
          was_running,
        );
        below = o.below;
        distinct = λ l. ground (arith, times-cache l, v.distinct l, v.uncached n, was_running);
        cache_below = λ l h. ground (arith, times-cache l, v.cache_below l, v.below n, was_running);
        free =
            λ l h. ground (arith, times-cache l, get-put a.locks (lock_of a n) l false, v.free l);
        unmade = λ l h. ground (arith, get-put a.locks (lock_of a n) l false, v.unmade l);
      }

  batch_lock : (b : Batch) → dict_get a.past n ≡ some b → b.lock ≡ lock_of a n
  unfolding lock_at
  batch_lock b e = ground (arith, v.idle n)

  put_back-Inv :
      (b : Batch) (fs : List Future)
      → dict_get a.past n ≡ some b
      → Inv (put_back (set_futures (record a { executing = without a.executing n }) n b fs) b.lock)
  unfolding put_back set_futures
  put_back-Inv b fs e =
      let past = dict_put a.past n (record b { futures = fs }) in
      subst
        (λ l. Inv (record (over past) {
          locks = dict_put a.locks l false;
          cache = bounded (a.cache ++ (l ∷ []));
        }))
        (sym (batch_lock b e))
        (returned-Inv past (λ k. lock_at-put a.current.lock a.past a.now n k b fs e))

  ended-Inv :
      (ending : Ending) (o : Option Batch)
      → dict_get a.past n ≡ o
      → Inv (ended_found (record a { executing = without a.executing n }) n ending o)
  unfolding ended_found ended
  ended-Inv ending none e = over-Inv a.past (λ k. refl)
  ended-Inv (gives rs) (some b) e = put_back-Inv b (set_results b.futures rs) e
  ended-Inv times_out (some b) e = put_back-Inv b (set_errors b.futures) e
  ended-Inv fails (some b) e = over-Inv a.past (λ k. refl)

Reach-Inv : {m : ℕ} {xs : List ℕ} {a : Aggregator} → Reach true m xs a → Inv a
unfolding finish dict_get
Reach-Inv start = record {
  unstarted = λ n h. refl;
  idle = λ n h. refl;
  unjoined = λ n h. refl;
  counted = λ n. omega arith;
  once = λ n. omega arith;
  served = λ n h. absurd (omega arith);
  held = λ n h. ground arith;
  apart = λ n k h g e. ground arith;
  uncached = λ n h. refl;
  below = λ n h. ground (arith, lock_at-now 0 [] 0);
  distinct = λ l. omega arith;
  cache_below = λ l h. refl;
  free = λ l h. refl;
  unmade = λ l h. refl;
}
Reach-Inv {m = m} (joins {a = a} arg r) = join-Inv a m arg (Reach-Inv r)
Reach-Inv (resumes {a = a} n h r) = resume-Inv a n (Reach-Inv r) h
Reach-Inv (ends {a = a} n ending h c r) =
    ended-Inv a n (Reach-Inv r) h c ending (dict_get a.past n) refl
Reach-Inv (elsewhere locks cache made e r) = absurd (ground arith)

-- However its callers interleave, as long as a batch ends only when its callers have all gone on, no
-- caller is cancelled and no other Aggregator of the process uses the cache of locks meanwhile: the
-- function is called at most once for a batch, and exactly once for a batch that is closed and whose
-- callers have gone on, so that none of them waits for a call that nobody makes.
pub Reach-once :
    {max_count : ℕ} {xs : List ℕ} {a : Aggregator} (n : ℕ)
    → Reach true max_count xs a
    → n < a.now
    → times a.waiting n ≡ 0
    → (times a.executions n ≡ 1) × ((k : ℕ) → times a.executions k ≤ 1)
Reach-once n r past gone = let v = Reach-Inv r in (ground (arith, v.once n, v.served n), v.once)
