-- ===== src/Storage/Slots.antt =====
-- cass_storage_service.py: `cal_bucket_val` in several processes that share the counter in Redis, for one
-- session. A counter value stands for the place of one message in a bucket. That `WriteToSession` counts
-- back is not among the events.
use tiny_chat_microservices.Prelude.{
  ℕ, ◌+◌, ◌-◌, ◌/◌, ◌%◌, ◌≤◌, ◌<◌, ◌≡◌, refl, sym, ap, subst, ◌∙◌, ◌⊎◌, Bool, true, false, ◌&&◌,
  Option, none, some, List, [], ◌∷◌, ◌==◌, if◌then◌else◌, times, arith, Bool-cases, inl, inr, ◌≢◌,
  some-value,
}
use tiny_chat_microservices.Storage.{
  BucketCacheLine, Next, counted, wait_for_lock, ask_redis, next_value, before_lock, with_lock,
  refill, message_count_one_bucket,
}

-- The counter in Redis, the line of each process, and the values that were given with their buckets.
pub record System : Type 0 where
  pub counter : ℕ
  pub line : ℕ → Option BucketCacheLine
  pub given : List ℕ
  pub buckets : List ℕ

-- What happens: a process begins a call, or goes on with the lock, or has the answer of Redis; Redis
-- counts on and the answer is lost, after which `redis_incr_rollback` of redis/handler.py may count back;
-- or a line that no call holds leaves the cache.
pub data Event : Type 0 where
  begins : (process : ℕ) → Event
  goes_on : (process : ℕ) → (was_ready : Bool) → Event
  answered : (process : ℕ) → Event
  answer_lost : Event
  rolled_back : Event
  evicted : (process : ℕ) → Event

abbrev pub set_line : System → ℕ → Option BucketCacheLine → ℕ → Option BucketCacheLine
set_line s process line i = if i == process then line else s.line i

unfoldable pub give : System → ℕ → BucketCacheLine → System
give s process line = record s {
  line = set_line s process (some line);
  given = line.curr_val ∷ s.given;
  buckets = line.bucket ∷ s.buckets;
}

unfoldable pub after_next : System → ℕ → Next → System
unfolding give
after_next s process (counted line) = give s process line
after_next s process wait_for_lock = s
after_next s process ask_redis = s

unfoldable pub step : System → Event → System
unfolding after_next before_lock with_lock give refill
step s (begins process) = after_next s process (before_lock (s.line process))
step s (goes_on process was_ready) = after_next s process (with_lock was_ready (s.line process))
step s (answered process) =
    give (record s { counter = s.counter + 100 }) process (refill (s.counter + 100))
step s answer_lost = record s { counter = s.counter + 100 }
step s rolled_back = record s { counter = s.counter - 100 }
step s (evicted process) = record s { line = set_line s process none }

unfoldable pub run : System → List Event → System
unfolding step
run s [] = s
run s (e ∷ events) = run (step s e) events

abbrev pub empty_system : System
empty_system = record { counter = 0; line = λ _. none; given = []; buckets = [] }

-- Whether each value lies in the bucket that was returned with it.
abbrev pub in_buckets : List ℕ → List ℕ → Bool
in_buckets [] buckets = true
in_buckets (v ∷ given) [] = false
in_buckets (v ∷ given) (b ∷ buckets) =
    (v / message_count_one_bucket == b) && in_buckets given buckets

-- A line holds a range of 100 values, of which those behind `curr_val` were not given yet.
record Range (counter : ℕ) (given : List ℕ) (line : BucketCacheLine) : Type 0 where
  below : line.end_val ≤ counter
  whole : line.end_val % 100 ≡ 0
  first : line.end_val ≤ line.curr_val + 100
  last : line.curr_val < line.end_val
  bucket : line.bucket ≡ (line.end_val - 100) / message_count_one_bucket
  free : (v : ℕ) → line.curr_val < v → v < line.end_val → times given v ≡ 0

record Apart (s : System) : Type 0 where
  aligned : s.counter % 100 ≡ 0
  below : (v : ℕ) → s.counter ≤ v → times s.given v ≡ 0
  once : (v : ℕ) → times s.given v ≤ 1
  placed : in_buckets s.given s.buckets ≡ true
  range : (i : ℕ) (line : BucketCacheLine) → s.line i ≡ some line → Range s.counter s.given line
  apart :
      (i j : ℕ) (k l : BucketCacheLine)
      → s.line i ≡ some k
      → s.line j ≡ some l
      → k.end_val ≡ l.end_val
      → i ≡ j

-- The ranges of two lines with different ends have no value in common.
other-Range :
    (counter : ℕ) (given : List ℕ) (line l : BucketCacheLine)
    → Range counter given l
    → Range counter given line
    → l.end_val ≢ line.end_val
    → Range counter (line.curr_val ∷ given) l
other-Range counter given line l h r differ = record {
  below = h.below;
  whole = h.whole;
  first = h.first;
  last = h.last;
  bucket = h.bucket;
  free = λ v p q. ground (arith, h.free v p q, apart v p q);
}
  where
    apart : (v : ℕ) → l.curr_val < v → v < l.end_val → line.curr_val ≢ v
    apart v p q e =
        differ (omega (arith, h.whole, r.whole, h.first, r.first, h.last, r.last, e, p, q))

same-Range :
    (counter : ℕ) (given : List ℕ) (line : BucketCacheLine)
    → Range counter given line
    → Range counter (line.curr_val ∷ given) line
same-Range counter given line r = record {
  below = r.below;
  whole = r.whole;
  first = r.first;
  last = r.last;
  bucket = r.bucket;
  free = λ v p q. ground (arith, r.free v p q);
}

line-give :
    (s : System) (process : ℕ) (line : BucketCacheLine) (i : ℕ) (l : BucketCacheLine)
    → set_line s process (some line) i ≡ some l
    → ((i ≡ process) × (l ≡ line)) ⊎ ((i ≢ process) × (s.line i ≡ some l))
line-give s process line i l e = elim (Bool-cases (i == process)) [
  | inl mine ↦ inl (ground arith, some-value l line (sym (ground (arith, e, mine))))
  | inr other ↦ inr (ground arith, ground (arith, e, other))
]

-- A value that was not given yet, of a line whose range no other process has.
give-Apart :
    (s : System) (process : ℕ) (line : BucketCacheLine)
    → Apart s
    → times s.given line.curr_val ≡ 0
    → Range s.counter s.given line
    → ((i : ℕ) (l : BucketCacheLine) → s.line i ≡ some l → l.end_val ≡ line.end_val → i ≡ process)
    → Apart (give s process line)
unfolding give
give-Apart s process line h unused r only = record {
  aligned = h.aligned;
  below = λ v p. ground (arith, h.below v, r.below, r.last);
  once = λ v. ground (arith, h.once v, unused);
  placed = ground (arith, h.placed, r.bucket, r.first, r.last, r.whole);
  range = λ i l e. elim (line-give s process line i l e) [
    | inl (mine, same) ↦
        subst (λ m. Range s.counter (line.curr_val ∷ s.given) m) (sym same)
          (same-Range s.counter s.given line r)
    | inr (other, there) ↦
        other-Range s.counter s.given line l (h.range i l there) r
          λ ends. other (only i l there ends)
  ];
  apart = λ i j k l d e ends. elim (line-give s process line i k d) [
    | inl (mine, same) ↦ elim (line-give s process line j l e) [
      | inl (yours, also) ↦ mine ∙ sym yours
      | inr (other, there) ↦ absurd (other (only j l there (sym ends ∙ ap (λ m. m.end_val) same)))
    ]
    | inr (other, there) ↦ elim (line-give s process line j l e) [
      | inl (mine, same) ↦ absurd (other (only i k there (ends ∙ ap (λ m. m.end_val) same)))
      | inr (another, here) ↦ h.apart i j k l there here ends
    ]
  ];
}

before_lock-counted :
    (o : Option BucketCacheLine) (line : BucketCacheLine)
    → before_lock o ≡ counted line
    → (old : BucketCacheLine) × (o ≡ some old)
      × (line ≡ next_value old)
      × (old.curr_val + 1 < old.end_val)
unfolding before_lock
before_lock-counted none line e = ground arith
before_lock-counted (some old) line e = (old, refl, ground arith, ground arith)

with_lock-before_lock :
    (was_ready : Bool) (o : Option BucketCacheLine) (line : BucketCacheLine)
    → with_lock was_ready o ≡ counted line
    → before_lock o ≡ counted line
unfolding with_lock before_lock
with_lock-before_lock true o line e = ground arith
with_lock-before_lock false none line e = ground arith
with_lock-before_lock false (some old) line e = ground arith

counted-Apart :
    (s : System) (process : ℕ) (line : BucketCacheLine)
    → Apart s
    → before_lock (s.line process) ≡ counted line
    → Apart (give s process line)
counted-Apart s process line h e =
    let (old, there, next, room) = before_lock-counted (s.line process) line e in
    let r : Range s.counter s.given old = h.range process old there in
    subst (λ l. Apart (give s process l)) (sym next)
      (give-Apart s process (next_value old) h (r.free (old.curr_val + 1) (omega arith) room)
        (record {
          below = r.below;
          whole = r.whole;
          first = omega (arith, r.first);
          last = room;
          bucket = r.bucket;
          free = λ v p q. r.free v (omega (arith, p)) q;
        })
        λ i l d ends. h.apart i process l old d there ends)

after_next-Apart :
    (s : System) (process : ℕ) (n : Next)
    → Apart s
    → ((line : BucketCacheLine) → n ≡ counted line → before_lock (s.line process) ≡ counted line)
    → Apart (after_next s process n)
unfolding after_next
after_next-Apart s process (counted line) h e = counted-Apart s process line h (e line refl)
after_next-Apart s process wait_for_lock h e = h
after_next-Apart s process ask_redis h e = h

raised : System → System
raised s = record s { counter = s.counter + 100 }

raised-Apart : (s : System) → Apart s → Apart (raised s)
unfolding raised
raised-Apart s h = record {
  aligned = omega (arith, h.aligned);
  below = λ v p. h.below v (omega arith);
  once = h.once;
  placed = h.placed;
  range = λ i l e.
      let r : Range s.counter s.given l = h.range i l e in
      record {
        below = omega (arith, r.below);
        whole = r.whole;
        first = r.first;
        last = r.last;
        bucket = r.bucket;
        free = r.free;
      };
  apart = h.apart;
}

refill-Range : (s : System) → Apart s → Range (s.counter + 100) s.given (refill (s.counter + 100))
unfolding refill
refill-Range s h = record {
  below = omega arith;
  whole = omega (arith, h.aligned);
  first = omega arith;
  last = omega arith;
  bucket = refl;
  free = λ v p q. h.below v (omega (arith, p));
}

answered-Apart :
    (s : System) (process : ℕ)
    → Apart s
    → Apart (give (raised s) process (refill (s.counter + 100)))
unfolding raised refill
answered-Apart s process h =
    give-Apart (raised s) process (refill (s.counter + 100)) (raised-Apart s h)
      (h.below (s.counter + 100 - 100) (omega arith)) (refill-Range s h)
      λ i l e ends. absurd (omega (arith, (h.range i l e).below, ends))

evicted-Apart :
    (s : System) (process : ℕ) → Apart s → Apart (record s { line = set_line s process none })
evicted-Apart s process h = record {
  aligned = h.aligned;
  below = h.below;
  once = h.once;
  placed = h.placed;
  range = λ i l e. h.range i l (ground (arith, e));
  apart = λ i j k l d e ends. h.apart i j k l (ground (arith, d)) (ground (arith, e)) ends;
}

-- Whether no event counts back in Redis.
unfoldable pub no_rollback : List Event → Bool
no_rollback [] = true
no_rollback (rolled_back ∷ events) = false
no_rollback (e ∷ events) = no_rollback events

step-Apart : (s : System) (e : Event) → no_rollback (e ∷ []) ≡ true → Apart s → Apart (step s e)
unfolding step raised no_rollback
step-Apart s (begins process) c h =
    after_next-Apart s process (before_lock (s.line process)) h λ l e. e
step-Apart s (goes_on process was_ready) c h =
    after_next-Apart s process (with_lock was_ready (s.line process)) h
      λ l e. with_lock-before_lock was_ready (s.line process) l e
step-Apart s (answered process) c h = answered-Apart s process h
step-Apart s answer_lost c h = raised-Apart s h
step-Apart s rolled_back c h = absurd (ground arith)
step-Apart s (evicted process) c h = evicted-Apart s process h

no_rollback-cons :
    (e : Event) (events : List Event)
    → no_rollback (e ∷ events) ≡ true
    → (no_rollback (e ∷ []) ≡ true) × (no_rollback events ≡ true)
unfolding no_rollback
no_rollback-cons (begins process) events h = (refl, h)
no_rollback-cons (goes_on process was_ready) events h = (refl, h)
no_rollback-cons (answered process) events h = (refl, h)
no_rollback-cons answer_lost events h = (refl, h)
no_rollback-cons rolled_back events h = absurd (ground arith)
no_rollback-cons (evicted process) events h = (refl, h)

run-Apart :
    (s : System) (events : List Event) → no_rollback events ≡ true → Apart s → Apart (run s events)
unfolding run
run-Apart s [] c h = h
run-Apart s (e ∷ events) c h =
    let (now, later) = no_rollback-cons e events c in
    run-Apart (step s e) events later (step-Apart s e now h)

empty_system-Apart : Apart empty_system
empty_system-Apart = record {
  aligned = refl;
  below = λ v p. refl;
  once = λ v. omega arith;
  placed = refl;
  range = λ i l e. ground (arith, e);
  apart = λ i j k l d e ends. ground (arith, d);
}

-- Whichever processes count messages of a session, in any order, as long as no call counts back and no
-- count in Redis is rolled back, no counter value is given twice, and each lies in the bucket that was
-- returned with it.
pub run-once :
    (events : List Event) (v : ℕ)
    → no_rollback events ≡ true
    → (times (run empty_system events).given v ≤ 1)
      × (in_buckets (run empty_system events).given (run empty_system events).buckets ≡ true)
run-once events v c =
    let h : Apart (run empty_system events) = run-Apart empty_system events c empty_system-Apart in
    (h.once v, h.placed)
