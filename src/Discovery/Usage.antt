-- ===== src/Discovery/Usage.antt =====
-- chat/common/src/chatp/manager/statistic.py: `ServiceUsage`, the calls of each worker process to one
-- server. The counts that the processes report are numbers of calls, so none is negative.
use tiny_chat_microservices.Prelude.{
  ℕ, ◌+◌, ◌-◌, ◌≤◌, ◌≡◌, refl, sym, subst, Option-cases, inl, inr, keys-put_there, Bool, true,
  false, ◌&&◌, Option, none, some, List, [], ◌∷◌, Dict, dict_get, dict_put, dict_pop, keys,
  keys-put, keys-pop, pop-absent, get-absent, times, times-last, times-without, ◌==◌, if◌then◌else◌,
  if-both, arith, PyError, key_error, type_error, zero_division,
}

-- A quotient of two numbers, which is not computed
pub record Fraction : Type 0 where
  pub numerator : ℕ
  pub denominator : ℕ

-- `UsagePair`
pub record UsagePair : Type 0 where
  pub count : ℕ
  pub proportion : Fraction

-- `ServiceUsage`, with the number of a process as the key
pub record ServiceUsage : Type 0 where
  pub total_count : ℕ
  pub usages : Dict UsagePair

-- `UsagePair()` of the defaultdict, or the pair that is there
abbrev pub pair_of : Option UsagePair → UsagePair
pair_of none = record { count = 0; proportion = record { numerator = 0; denominator = 1 } }
pair_of (some pair) = pair

-- `update`: what it does, and what it raises
unfoldable pub update : ServiceUsage → (proc_seq count : ℕ) → ServiceUsage × Option PyError
update u proc_seq count =
    let total = u.total_count + count in
    let pair = pair_of (dict_get u.usages proc_seq) in
    let counted = pair.count + count in
    if total == 0
    then (
      record {
        total_count = total;
        usages = dict_put u.usages proc_seq (record pair { count = counted });
      },
      some zero_division,
    )
    else (
      record {
        total_count = total;
        usages = dict_put u.usages proc_seq (record {
          count = counted;
          proportion = record { numerator = counted; denominator = total };
        });
      },
      none,
    )

-- `for usage in usages.values(): usage.proportion = usage.count / total`
unfoldable pub divide_all : Dict UsagePair → (total : ℕ) → Dict UsagePair
divide_all [] total = []
divide_all ((proc_seq, pair) ∷ usages) total =
    (proc_seq, record pair { proportion = record { numerator = pair.count; denominator = total } })
    ∷ divide_all usages total

abbrev pub is_empty : Dict UsagePair → Bool
is_empty [] = true
is_empty (e ∷ usages) = false

-- The rest of `pop`; a division by zero is the first, if there is one.
unfoldable pub pop_rest : (total : ℕ) → Dict UsagePair → ServiceUsage × Option PyError
unfolding divide_all
pop_rest total usages =
    if is_empty usages
    then (record { total_count = total; usages = usages }, none)
    else if total == 0
    then (record { total_count = total; usages = usages }, some zero_division)
    else (record { total_count = total; usages = divide_all usages total }, none)

unfoldable pub pop_found :
    ServiceUsage → (proc_seq : ℕ) → Option UsagePair → ServiceUsage × Option PyError
unfolding pop_rest
pop_found u proc_seq none = (u, some key_error)
pop_found u proc_seq (some pair) =
    pop_rest (u.total_count - pair.count) (dict_pop u.usages proc_seq)

-- `pop`
unfoldable pub pop : ServiceUsage → (proc_seq : ℕ) → ServiceUsage × Option PyError
unfolding pop_found
pop u proc_seq = pop_found u proc_seq (dict_get u.usages proc_seq)

-- `usages.pop(proc_seq, None)` of `proc_consistency`, where `ServiceUsage.pop` has no second argument
unfoldable pub proc_consistency : ServiceUsage → (proc_seq : ℕ) → ServiceUsage × Option PyError
proc_consistency u proc_seq = (u, some type_error)

pub data Event : Type 0 where
  loads : (proc_seq count : ℕ) → Event
  leaves : (proc_seq : ℕ) → Event
  shut_down : (proc_seq : ℕ) → Event

unfoldable pub step : ServiceUsage → Event → ServiceUsage
unfolding update pop proc_consistency
step u (loads proc_seq count) = (update u proc_seq count).0
step u (leaves proc_seq) = (pop u proc_seq).0
step u (shut_down proc_seq) = (proc_consistency u proc_seq).0

unfoldable pub run : ServiceUsage → List Event → ServiceUsage
unfolding step
run u [] = u
run u (e ∷ events) = run (step u e) events

abbrev pub sum : Dict UsagePair → ℕ
sum [] = 0
sum ((proc_seq, pair) ∷ usages) = pair.count + sum usages

sum-put :
    (d : Dict UsagePair) (k : ℕ) (v : UsagePair)
    → sum (dict_put d k v) + (pair_of (dict_get d k)).count ≡ sum d + v.count
unfolding dict_put dict_get
sum-put [] k v = omega arith
sum-put ((j, w) ∷ d) k v = ground (arith, sum-put d k v)

sum-pop :
    (d : Dict UsagePair) (k : ℕ)
    → times (keys d) k ≤ 1
    → sum (dict_pop d k) + (pair_of (dict_get d k)).count ≡ sum d
unfolding dict_pop dict_get
sum-pop [] k h = omega arith
sum-pop ((j, w) ∷ d) k h = ground (arith, sum-pop d k, pop-absent d k)

sum-divide_all : (d : Dict UsagePair) (total : ℕ) → sum (divide_all d total) ≡ sum d
unfolding divide_all
sum-divide_all [] total = refl
sum-divide_all ((j, w) ∷ d) total = ground (arith, sum-divide_all d total)

keys-divide_all : (d : Dict UsagePair) (total : ℕ) → keys (divide_all d total) ≡ keys d
unfolding divide_all
keys-divide_all [] total = refl
keys-divide_all ((j, w) ∷ d) total = ground (arith, keys-divide_all d total)

pub record Exact (u : ServiceUsage) : Type 0 where
  pub total : u.total_count ≡ sum u.usages
  pub once : (k : ℕ) → times (keys u.usages) k ≤ 1

put-once :
    (d : Dict UsagePair) (k j : ℕ) (v : UsagePair)
    → times (keys d) j ≤ 1
    → times (keys (dict_put d k v)) j ≤ 1
put-once d k j v h = elim (Option-cases (dict_get d k)) [
  | inl e ↦ ground (arith, keys-put d k v e, times-last (keys d) k j, get-absent d k e)
  | inr (pair, e) ↦ subst (λ l. times l j ≤ 1) (sym (keys-put_there d k v pair e)) h
]

put-Exact :
    (u : ServiceUsage) (k count : ℕ) (pair : UsagePair)
    → pair.count ≡ (pair_of (dict_get u.usages k)).count + count
    → Exact u
    → Exact (record { total_count = u.total_count + count; usages = dict_put u.usages k pair })
put-Exact u k count pair e h = record {
  total = omega (arith, h.total, sum-put u.usages k pair, e);
  once = λ j. put-once u.usages k j pair (h.once j);
}

update-Exact : (u : ServiceUsage) (k count : ℕ) → Exact u → Exact (update u k count).0
unfolding update
update-Exact u k count h =
    if-both (λ (p : ServiceUsage × Option PyError). Exact (p.0)) (u.total_count + count == 0)
      (put-Exact u k count _ refl h) (put-Exact u k count _ refl h)

pop_rest-Exact :
    (total : ℕ) (d : Dict UsagePair)
    → total ≡ sum d
    → ((k : ℕ) → times (keys d) k ≤ 1)
    → Exact (pop_rest total d).0
unfolding pop_rest
pop_rest-Exact total d e h = record {
  total = ground (arith, sum-divide_all d total, e);
  once = λ k. ground (arith, keys-divide_all d total, h k);
}

pop_found-Exact :
    (u : ServiceUsage) (k : ℕ) (o : Option UsagePair)
    → dict_get u.usages k ≡ o
    → Exact u
    → Exact (pop_found u k o).0
unfolding pop_found
pop_found-Exact u k none e h = h
pop_found-Exact u k (some pair) e h =
    pop_rest-Exact (u.total_count - pair.count) (dict_pop u.usages k)
      (ground (arith, h.total, sum-pop u.usages k (h.once k), e))
      λ j.
        ground (arith, keys-pop u.usages k (h.once k), times-without (keys u.usages) k j, h.once j)

step-Exact : (u : ServiceUsage) (e : Event) → Exact u → Exact (step u e)
unfolding step pop proc_consistency
step-Exact u (loads k count) h = update-Exact u k count h
step-Exact u (leaves k) h = pop_found-Exact u k (dict_get u.usages k) refl h
step-Exact u (shut_down k) h = h

run-Exact : (u : ServiceUsage) (events : List Event) → Exact u → Exact (run u events)
unfolding run
run-Exact u [] h = h
run-Exact u (e ∷ events) h = run-Exact (step u e) events (step-Exact u e h)

abbrev pub new_usage : ServiceUsage
new_usage = record { total_count = 0; usages = [] }

new_usage-Exact : Exact new_usage
new_usage-Exact = record { total = refl; once = λ k. omega arith }

-- Whether each proportion is the count over `total`
abbrev pub whole : Dict UsagePair → (total : ℕ) → Bool
whole [] total = true
whole ((k, pair) ∷ usages) total =
    (pair.proportion.denominator == total)
    && (pair.proportion.numerator == pair.count)
    && whole usages total

divide_all-whole : (d : Dict UsagePair) (total : ℕ) → whole (divide_all d total) total ≡ true
unfolding divide_all
divide_all-whole [] total = refl
divide_all-whole ((k, pair) ∷ d) total = ground (arith, divide_all-whole d total)

pop_rest-whole :
    (total : ℕ) (d : Dict UsagePair)
    → (pop_rest total d).1 ≡ none
    → whole (pop_rest total d).0.usages (pop_rest total d).0.total_count ≡ true
unfolding pop_rest
pop_rest-whole total [] e = refl
pop_rest-whole total (p ∷ d) e = ground (arith, divide_all-whole (p ∷ d) total)

pop_found-whole :
    (u : ServiceUsage) (k : ℕ) (o : Option UsagePair)
    → (pop_found u k o).1 ≡ none
    → whole (pop_found u k o).0.usages (pop_found u k o).0.total_count ≡ true
unfolding pop_found
pop_found-whole u k none e = ground arith
pop_found-whole u k (some pair) e =
    pop_rest-whole (u.total_count - pair.count) (dict_pop u.usages k) e

-- Whatever the processes report, once a process is taken out without an exception `total_count` is the
-- sum of the counts that are left, and the proportion of each process is its count over this sum.
pub run-pop :
    (events : List Event) (proc_seq : ℕ)
    → (pop (run new_usage events) proc_seq).1 ≡ none
    → let left = (pop (run new_usage events) proc_seq).0 in
      (left.total_count ≡ sum left.usages) × (whole left.usages (sum left.usages) ≡ true)
unfolding pop
run-pop events proc_seq e =
    let u : ServiceUsage = run new_usage events in
    let h : Exact (pop_found u proc_seq (dict_get u.usages proc_seq)).0 =
      pop_found-Exact u proc_seq (dict_get u.usages proc_seq) refl
        (run-Exact new_usage events new_usage-Exact) in
    (
      h.total,
      subst (λ n. whole ((pop_found u proc_seq (dict_get u.usages proc_seq)).0.usages) n ≡ true)
          (h.total) (pop_found-whole u proc_seq _ e),
    )
