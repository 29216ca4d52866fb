-- ===== src/Aggregator/Batches.antt =====
-- How an `Aggregator` puts the arguments of its calls into batches.
use tiny_chat_microservices.Prelude.{
  ℕ, ◌+◌, ◌≤◌, ◌<◌, ◌≡◌, refl, sym, ap, ◌∙◌, Bool, Option, none, some, Bool-cases, inl, inr, List,
  [], ◌∷◌, ◌++◌, Dict, dict_get, dict_put, get-put, if◌then◌else◌, ◌==◌, arith, without,
}
use tiny_chat_microservices.Aggregator.{
  Future, pending, Batch, Aggregator, clear_with, clear, islocked, collect, length, joined, join,
  lock_of, resume, Ending, gives, times_out, fails, set_results, set_errors, put_back, set_futures,
  ended, ended_found, finish,
}
use tiny_chat_microservices.Aggregator.Steps.{Reach, start, joins, resumes, ends, elsewhere}
use tiny_chat_microservices.Aggregator.Lists.{
  count, gathered, all_args, append_assoc, append_nil, gathered-new, gathered-same, length-last,
  count-last, count-set_results, count-set_errors, put-cases,
}

-- What holds of the batches after calls with the arguments xs.
record Inv (m : ℕ) (xs : List ℕ) (past : Dict Batch) (current : Batch) (now : ℕ) : Type 0 where
  order : gathered past ++ current.args ≡ xs
  bounded : (n : ℕ) (b : Batch) → dict_get past n ≡ some b → length b.args ≤ m
  matched : (n : ℕ) (b : Batch) → dict_get past n ≡ some b → length b.args ≡ count b.futures
  room : length current.args ≤ m
  current_matched : length current.args ≡ count current.futures
  above : (n : ℕ) → now ≤ n → dict_get past n ≡ none

abbrev Valid : ℕ → List ℕ → Aggregator → Type 0
Valid m xs a = Inv m xs a.past a.current a.now

cleared-Inv :
    (m : ℕ) (xs : List ℕ) (past : Dict Batch) (batch : Batch) (now lock : ℕ)
    → Inv m xs past batch now
    → Inv m xs (dict_put past now batch) (record { args = []; futures = []; lock = lock }) (now + 1)
cleared-Inv m xs past batch now lock v = record {
  order =
      append_nil (gathered (dict_put past now batch))
      ∙ gathered-new past now batch (v.above now (omega arith))
      ∙ v.order;
  bounded = λ n b h.
      put-cases past now n batch b (λ (c : Batch). length c.args ≤ m) h v.room (v.bounded n b);
  matched = λ n b h.
      put-cases past now n batch b (λ (c : Batch). length c.args ≡ count c.futures) h
        v.current_matched (v.matched n b);
  room = omega arith;
  current_matched = refl;
  above = λ n h. ground (arith, get-put past now n batch, v.above n);
}

clear-Valid :
    (m : ℕ) (xs : List ℕ) (a : Aggregator) (cache : List ℕ)
    → Valid m xs a
    → Valid m xs (clear_with a cache)
unfolding clear_with
clear-Valid m xs a [] v = cleared-Inv m xs a.past a.current a.now a.made v
clear-Valid m xs a (lock ∷ cache) v = cleared-Inv m xs a.past a.current a.now lock v

collect-Valid :
    (m : ℕ) (xs : List ℕ) (a : Aggregator) (n lock : ℕ)
    → Valid m xs a
    → Valid m xs (collect a n lock)
unfolding collect
collect-Valid m xs a n lock v = elim (Bool-cases (islocked a.locks lock)) [
  | inl t ↦ rw t v
  | inr f ↦ rw f v
]

joined-Inv :
    (m : ℕ) (xs : List ℕ) (a : Aggregator) (arg : ℕ)
    → length a.current.args < m
    → Valid m xs a
    → Valid m (xs ++ (arg ∷ [])) (joined a arg)
unfolding joined
joined-Inv m xs a arg less v = record {
  order =
      sym (append_assoc (gathered a.past) a.current.args (arg ∷ []))
      ∙ ap (λ (l : List ℕ). l ++ (arg ∷ [])) v.order;
  bounded = v.bounded;
  matched = v.matched;
  room = ground (arith, length-last a.current.args arg);
  current_matched = ground (
    arith,
    length-last a.current.args arg,
    count-last a.current.futures pending,
    v.current_matched,
  );
  above = v.above;
}

-- Between the steps the batch that callers join has room for one more.
record Ok (m : ℕ) (xs : List ℕ) (a : Aggregator) : Type 0 where
  valid : Valid m xs a
  less : length a.current.args < m

clear-Ok :
    (m : ℕ) (xs : List ℕ) (a : Aggregator) (cache : List ℕ)
    → 0 < m
    → Valid m xs a
    → Ok m xs (clear_with a cache)
unfolding clear_with
clear-Ok m xs a [] pos v = record { valid = clear-Valid m xs a [] v; less = pos }
clear-Ok m xs a (lock ∷ cache) pos v = record {
  valid = clear-Valid m xs a (lock ∷ cache) v;
  less = pos;
}

collect-Ok :
    (m : ℕ) (xs : List ℕ) (a : Aggregator) (n lock : ℕ) → Ok m xs a → Ok m xs (collect a n lock)
unfolding collect
collect-Ok m xs a n lock v = elim (Bool-cases (islocked a.locks lock)) [
  | inl t ↦ rw t v
  | inr f ↦ rw f (record { valid = v.valid; less = v.less })
]

join-Ok :
    (m : ℕ) (xs : List ℕ) (a : Aggregator) (arg : ℕ)
    → 0 < m
    → Ok m xs a
    → Ok m (xs ++ (arg ∷ [])) (join (some m) arg a)
unfolding join clear joined
join-Ok m xs a arg pos v =
    let w = joined-Inv m xs a arg v.less v.valid in
    elim (Bool-cases (length (a.current.args ++ (arg ∷ [])) == m)) [
      | inl t ↦
          rw t (collect-Ok m _ _ a.now a.current.lock (clear-Ok m _ (joined a arg) a.cache pos w))
      | inr f ↦ rw f (record { valid = w; less = ground (arith, w.room) })
    ]

resume-Ok :
    (m : ℕ) (xs : List ℕ) (a : Aggregator) (n : ℕ) → 0 < m → Ok m xs a → Ok m xs (resume n a)
unfolding resume clear
resume-Ok m xs a n pos v =
    let left = record a { waiting = without a.waiting n } in
    collect-Ok m xs (if n == a.now then clear left else left) n (lock_of a n)
      (elim (Bool-cases (n == a.now)) [
        | inl t ↦ rw t (clear-Ok m xs left a.cache pos v.valid)
        | inr f ↦ rw f (record { valid = v.valid; less = v.less })
      ])

futures-Ok :
    (m : ℕ) (xs : List ℕ) (a : Aggregator) (n : ℕ) (b : Batch) (fs : List Future)
    → dict_get a.past n ≡ some b
    → count fs ≡ count b.futures
    → Ok m xs a
    → Ok m xs (set_futures a n b fs)
unfolding set_futures
futures-Ok m xs a n b fs e same v = record {
  valid = record {
    order =
        ap (λ (l : List ℕ). l ++ a.current.args)
          (gathered-same a.past n b (record b { futures = fs }) e refl)
        ∙ v.valid.order;
    bounded = λ k c h.
        put-cases a.past n k (record b { futures = fs }) c (λ (x : Batch). length x.args ≤ m) h
          (v.valid.bounded n b e) (v.valid.bounded k c);
    matched = λ k c h.
        put-cases a.past n k (record b { futures = fs }) c
          (λ (x : Batch). length x.args ≡ count x.futures) h (v.valid.matched n b e ∙ sym same)
          (v.valid.matched k c);
    room = v.valid.room;
    current_matched = v.valid.current_matched;
    above = λ k h. ground (arith, get-put a.past n k (record b { futures = fs }), v.valid.above k);
  };
  less = v.less;
}

ended-Ok :
    (m : ℕ) (xs : List ℕ) (a : Aggregator) (n : ℕ) (ending : Ending) (o : Option Batch)
    → dict_get a.past n ≡ o
    → Ok m xs a
    → Ok m xs (ended_found a n ending o)
unfolding ended_found ended put_back
ended-Ok m xs a n ending none e v = v
ended-Ok m xs a n (gives rs) (some b) e v =
    let w = futures-Ok m xs a n b (set_results b.futures rs) e (count-set_results b.futures rs) v in
    record { valid = w.valid; less = w.less }
ended-Ok m xs a n times_out (some b) e v =
    let w = futures-Ok m xs a n b (set_errors b.futures) e (count-set_errors b.futures) v in
    record { valid = w.valid; less = w.less }
ended-Ok m xs a n fails (some b) e v = v

finish-Ok :
    (m : ℕ) (xs : List ℕ) (a : Aggregator) (n : ℕ) (ending : Ending)
    → Ok m xs a
    → Ok m xs (finish n ending a)
unfolding finish
finish-Ok m xs a n ending v =
    ended-Ok m xs (record a { executing = without a.executing n }) n ending _ refl
      (record { valid = v.valid; less = v.less })

Reach-Ok :
    {calm : Bool} {m : ℕ} {xs : List ℕ} {a : Aggregator} → 0 < m → Reach calm m xs a → Ok m xs a
unfolding dict_get
Reach-Ok pos start = record {
  valid = record {
    order = refl;
    bounded = λ n b h. absurd (ground arith);
    matched = λ n b h. absurd (ground arith);
    room = omega arith;
    current_matched = refl;
    above = λ n h. refl;
  };
  less = pos;
}
Reach-Ok {m = m} pos (joins {xs} {a} arg r) = join-Ok m xs a arg pos (Reach-Ok pos r)
Reach-Ok {m = m} {xs} pos (resumes {a = a} n h r) = resume-Ok m xs a n pos (Reach-Ok pos r)
Reach-Ok {m = m} {xs} pos (ends {a = a} n ending h c r) = finish-Ok m xs a n ending (Reach-Ok pos r)
Reach-Ok pos (elsewhere locks cache made e r) =
    let v = Reach-Ok pos r in
    record {
      valid = record {
        order = v.valid.order;
        bounded = v.valid.bounded;
        matched = v.valid.matched;
        room = v.valid.room;
        current_matched = v.valid.current_matched;
        above = v.valid.above;
      };
      less = v.less;
    }

-- However its callers interleave, an Aggregator puts the argument of every call into exactly one batch,
-- in the order of the calls, and a batch that is given to the function has at most max_count arguments
-- and a future for each of them.
pub Reach-batches :
    {calm : Bool} {max_count : ℕ} {xs : List ℕ} {a : Aggregator} (n : ℕ) (batch : Batch)
    → 0 < max_count
    → Reach calm max_count xs a
    → dict_get a.past n ≡ some batch
    → (all_args a ≡ xs)
      × (length batch.args ≤ max_count)
      × (length batch.args ≡ count batch.futures)
Reach-batches n batch pos r h =
    let v = (Reach-Ok pos r).valid in (v.order, v.bounded n batch h, v.matched n batch h)
