-- ===== src/Messages/AckQueue/Valid.antt =====
-- What holds of every `AckQueue`, and that `add` and `clear` keep it.
use tiny_chat_microservices.Prelude.{
  times, times-last, ℕ, suc, ◌+◌, ◌≤◌, ◌<◌, ◌≡◌, ◌≢◌, sym, ap, ◌∙◌, Bool, true, false, Option, none,
  some, List, [], ◌∷◌, ◌++◌, dict_get, dict_pop, get-put, get-pop, if◌then◌else◌, ◌==◌, arith,
}
use tiny_chat_microservices.Messages.Spans.{
  Span, size, occurs, occurs-get, occurs-put, occurs-pop, size-put, size-pop,
}
use tiny_chat_microservices.Messages.AckQueue.{AckQueue, cache_append, oldest_dropped, join_spans}

-- Whether there is a span that starts there, and one that ends there.
abbrev pub starts_at : Option Span → ℕ → Bool
starts_at none s = false
starts_at (some (a, b)) s = a == s

abbrev pub ends_at : Option Span → ℕ → Bool
ends_at none e = false
ends_at (some (a, b)) e = b == e

-- The tables name spans of the list that start and end where they say, no object stands twice in the
-- list and the cache, and `cnt` counts the spans.
pub record IsValid (q : AckQueue) : Type 0 where
  pub starts :
      (s i : ℕ) → dict_get q.query_left s ≡ some i → starts_at (dict_get q.spans i) s ≡ true
  pub ends : (e i : ℕ) → dict_get q.query_right e ≡ some i → ends_at (dict_get q.spans i) e ≡ true
  pub full : (i : ℕ) (v : Span) → dict_get q.spans i ≡ some v → v.0 < v.1
  pub distinct : (i : ℕ) → times q.cache i + occurs q.spans i ≤ 1
  pub below : (i : ℕ) → q.made ≤ i → times q.cache i + occurs q.spans i ≡ 0
  pub counted : q.cnt ≡ size q.spans

times-dropped : (c : List ℕ) (j : ℕ) → times (oldest_dropped c) j ≤ times c j
times-dropped [] j = omega arith
times-dropped (k ∷ c) j = ground arith

pub times-append :
    (c : List ℕ) (i j : ℕ) → times (cache_append c i) j ≤ times c j + (if i == j then 1 else 0)
unfolding cache_append
times-append c i j = ground (arith, times-last c i j, times-dropped (c ++ (i ∷ [])) j)

some-start : (v w : Span) → some v ≡ some w → v.0 ≡ w.0
some-start a w e = ap (λ (o : Option Span). elim o [ none ↦ a.0 | some v ↦ v.0 ]) e

module _ (q : AckQueue) (start left right s e : ℕ) (v : IsValid q)
    (hl : dict_get q.spans left ≡ some (s, start))
    (hr : dict_get q.spans right ≡ some (suc start, e)) where
  pub two : left ≢ right
  two same =
      let starts : s ≡ suc start =
        some-start (s, start) (suc start, e) (sym hl ∙ ap (λ i. dict_get q.spans i) same ∙ hr) in
      let f = v.full left (s, start) hl in omega arith

  pub join_spans-IsValid : IsValid (join_spans q start left right (s, start) (suc start, e))
  unfolding join_spans
  join_spans-IsValid =
      let rest = dict_pop q.spans right in
      record {
        starts = λ t i h. ground (
          arith,
          get-pop q.query_left (suc start) t,
          get-put rest left i (s, e),
          get-pop q.spans right i,
          v.starts t i,
          two,
        );
        ends = λ t i h. ground (
          arith,
          get-pop q.query_right start t,
          get-put (dict_pop q.query_right start) e t left,
          get-put rest left i (s, e),
          get-pop q.spans right i,
          v.ends t i,
          two,
        );
        full = λ i w h. ground (
          arith,
          get-put rest left i (s, e),
          get-pop q.spans right i,
          v.full i w,
          v.full left (s, start),
          v.full right (suc start, e),
        );
        distinct = λ i. ground (
          arith,
          times-append q.cache right i,
          occurs-put rest left i (s, e),
          occurs-pop q.spans right i,
          occurs-get q.spans right (suc start, e),
          occurs-get q.spans left (s, start),
          occurs-pop q.spans right left,
          v.distinct i,
          v.distinct right,
          two,
        );
        below = λ i h. ground (
          arith,
          times-append q.cache right i,
          occurs-put rest left i (s, e),
          occurs-pop q.spans right i,
          occurs-get q.spans right (suc start, e),
          occurs-get q.spans left (s, start),
          occurs-pop q.spans right left,
          v.below i,
          v.below left,
        );
        counted = ground (
          arith,
          size-put rest left (s, e),
          size-pop q.spans right,
          v.counted,
          v.distinct right,
          occurs-get q.spans right (suc start, e),
          occurs-get q.spans left (s, start),
          occurs-pop q.spans right left,
          two,
        );
      }
