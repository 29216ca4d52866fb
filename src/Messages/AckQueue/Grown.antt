-- ===== src/Messages/AckQueue/Grown.antt =====
-- An `AckQueue` whose span grows, or that gets a new one, is valid again.
use tiny_chat_microservices.Prelude.{
  times, ℕ, suc, ◌+◌, ◌≤◌, ◌≡◌, some, List, [], ◌∷◌, Dict, dict_get, dict_put, dict_pop, get-put,
  get-pop, if◌then◌else◌, ◌==◌, arith,
}
use tiny_chat_microservices.Messages.Spans.{
  Span, size, occurs, occurs-get, get-occurs, occurs-put, size-put,
}
use tiny_chat_microservices.Messages.AckQueue.{AckQueue, grow_right, grow_left, link_span}
use tiny_chat_microservices.Messages.AckQueue.Valid.{IsValid}

module _ (q : AckQueue) (start left s : ℕ) (v : IsValid q)
    (hl : dict_get q.spans left ≡ some (s, start)) where
  pub grow_right-IsValid : IsValid (grow_right q start left (s, start))
  unfolding grow_right
  grow_right-IsValid = record {
    starts = λ t i h. ground (arith, get-put q.spans left i (s, start + 1), v.starts t i);
    ends = λ t i h. ground (
      arith,
      get-pop q.query_right start t,
      get-put (dict_pop q.query_right start) (suc start) t left,
      get-put q.spans left i (s, start + 1),
      v.ends t i,
    );
    full = λ i w h.
        ground (arith, get-put q.spans left i (s, start + 1), v.full i w, v.full left (s, start));
    distinct = λ i. ground (
      arith,
      occurs-put q.spans left i (s, start + 1),
      occurs-get q.spans left (s, start),
      v.distinct i,
    );
    below = λ i h. ground (
      arith,
      occurs-put q.spans left i (s, start + 1),
      occurs-get q.spans left (s, start),
      v.below i,
    );
    counted = ground (
      arith,
      size-put q.spans left (s, start + 1),
      occurs-get q.spans left (s, start),
      v.counted,
    );
  }

module _ (q : AckQueue) (start right e : ℕ) (v : IsValid q)
    (hr : dict_get q.spans right ≡ some (suc start, e)) where
  pub grow_left-IsValid : IsValid (grow_left q start right (suc start, e))
  unfolding grow_left
  grow_left-IsValid = record {
    starts = λ t i h. ground (
      arith,
      get-pop q.query_left (suc start) t,
      get-put (dict_pop q.query_left (suc start)) start t right,
      get-put q.spans right i (start, e),
      v.starts t i,
    );
    ends = λ t i h. ground (arith, get-put q.spans right i (start, e), v.ends t i);
    full = λ i w h.
        ground (arith, get-put q.spans right i (start, e), v.full i w, v.full right (suc start, e));
    distinct = λ i. ground (
      arith,
      occurs-put q.spans right i (start, e),
      occurs-get q.spans right (suc start, e),
      v.distinct i,
    );
    below = λ i h. ground (
      arith,
      occurs-put q.spans right i (start, e),
      occurs-get q.spans right (suc start, e),
      v.below i,
    );
    counted = ground (
      arith,
      size-put q.spans right (start, e),
      occurs-get q.spans right (suc start, e),
      v.counted,
    );
  }

put_first :
    (d : Dict Span) (c i : ℕ) (w : Span)
    → c ≡ size d
    → (if c == 0 then (i, w) ∷ [] else dict_put d i w) ≡ dict_put d i w
unfolding dict_put
put_first [] c i w e = ground arith
put_first (_ ∷ d) c i w e = ground arith

-- No span is in the list when the count is 0, so that the two ways of linking are one.
pub link_span-put :
    (q : AckQueue) (start i : ℕ)
    → q.cnt ≡ size q.spans
    → (link_span q start i).spans ≡ dict_put q.spans i (start, start + 1)
unfolding link_span
link_span-put q start i c = put_first q.spans q.cnt i (start, start + 1) c

module _ (q : AckQueue) (start n : ℕ) (v : IsValid q) (made : ℕ) (cache : List ℕ)
    (more : q.made ≤ made) (unused : occurs q.spans n ≡ 0) where
  pub link_span-IsValid :
      ((i : ℕ) → times cache i + (if n == i then 1 else 0) + occurs q.spans i ≤ 1)
      → ((i : ℕ) → made ≤ i → times cache i + (if n == i then 1 else 0) + occurs q.spans i ≡ 0)
      → IsValid (link_span (record q { made = made; cache = cache }) start n)
  unfolding link_span
  link_span-IsValid a b =
      let p = link_span-put (record q { made = made; cache = cache }) start n v.counted in
      record {
        starts = λ t i h. ground (
          arith,
          p,
          get-put q.query_left start t n,
          get-put q.spans n i (start, suc start),
          v.starts t i,
          get-occurs q.spans n unused,
        );
        ends = λ t i h. ground (
          arith,
          p,
          get-put q.query_right (suc start) t n,
          get-put q.spans n i (start, suc start),
          v.ends t i,
          get-occurs q.spans n unused,
        );
        full = λ i w h. ground (arith, p, get-put q.spans n i (start, suc start), v.full i w);
        distinct = λ i. ground (arith, p, occurs-put q.spans n i (start, suc start), a i);
        below = λ i h. ground (arith, p, occurs-put q.spans n i (start, suc start), b i);
        counted = ground (arith, p, size-put q.spans n (start, suc start), v.counted);
      }
