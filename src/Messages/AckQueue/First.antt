-- ===== src/Messages/AckQueue/First.antt =====
-- The first span of an `AckQueue` to which only greater numbers are added.
use tiny_chat_microservices.Prelude.{
  ℕ, suc, ◌+◌, ◌≤◌, ◌<◌, ◌≡◌, ◌≢◌, refl, ap, subst, ◌∙◌, Bool, true, false, Option, none, some,
  List, [], ◌∷◌, Dict, dict_get, dict_put, dict_pop, get-pop, ◌==◌, arith,
}
use tiny_chat_microservices.Messages.Spans.{Span, any, get-occurs}
use tiny_chat_microservices.Messages.AckQueue.{
  AckQueue, join_spans, grow_right, grow_left, new_span, add_between, end_of_first,
}
use tiny_chat_microservices.Messages.AckQueue.Valid.{IsValid, starts_at, two}
use tiny_chat_microservices.Messages.AckQueue.Grown.{link_span-put}
use tiny_chat_microservices.Messages.AckQueue.Contents.{starts_at-some, ends_at-some}

-- The first span of the list starts at a number.
abbrev pub starts_first : Dict Span → ℕ → Bool
starts_first [] o = false
starts_first ((i, (s, e)) ∷ d) o = s == o

first-put :
    (d : Dict Span) (o k s e f : ℕ)
    → starts_first d o ≡ true
    → dict_get d k ≡ some (s, e)
    → starts_first (dict_put d k (s, f)) o ≡ true
unfolding dict_put dict_get
first-put [] o k s e f h g = absurd (ground arith)
first-put ((i, (a, b)) ∷ d) o k s e f h g = ground (arith, ap (λ o. starts_at o s) g)

first-put_new :
    (d : Dict Span) (o k : ℕ) (v : Span)
    → starts_first d o ≡ true
    → dict_get d k ≡ none
    → starts_first (dict_put d k v) o ≡ true
unfolding dict_put dict_get
first-put_new [] o k v h g = absurd (ground arith)
first-put_new ((i, (a, b)) ∷ d) o k v h g = ground (arith)

first-put_other :
    (d : Dict Span) (o k s e : ℕ) (v : Span)
    → starts_first d o ≡ true
    → dict_get d k ≡ some (s, e)
    → s ≢ o
    → starts_first (dict_put d k v) o ≡ true
unfolding dict_put dict_get
first-put_other [] o k s e v h g n = absurd (ground arith)
first-put_other ((i, (a, b)) ∷ d) o k s e v h g n = ground (arith, ap (λ o. starts_at o s) g)

first-pop :
    (d : Dict Span) (o k s e : ℕ)
    → starts_first d o ≡ true
    → dict_get d k ≡ some (s, e)
    → s ≢ o
    → starts_first (dict_pop d k) o ≡ true
unfolding dict_pop dict_get
first-pop [] o k s e h g n = absurd (ground arith)
first-pop ((i, (a, b)) ∷ d) o k s e h g n = ground (arith, ap (λ o. starts_at o s) g)

-- A number above the start of the first span is added.
module _ (q : AckQueue) (o start : ℕ) (v : IsValid q) (h : starts_first q.spans o ≡ true)
    (above : o ≤ start) where
  apart :
      (left right s e : ℕ)
      → dict_get q.spans left ≡ some (s, start)
      → dict_get q.spans right ≡ some (start + 1, e)
      → left ≢ right
  apart left right s e hl hr =
      let n : start + 1 ≡ suc start = omega arith in
      two q start left right s e v hl (subst (λ m. dict_get q.spans right ≡ some (m, e)) n hr)

  pub add_between-first :
      (l r : Option ℕ)
      → dict_get q.query_right start ≡ l
      → dict_get q.query_left (start + 1) ≡ r
      → starts_first (add_between q start l r).spans o ≡ true
  unfolding add_between join_spans grow_right grow_left new_span
  add_between-first none none el er = new_first q.cache refl
    where
      new_first :
          (cache : List ℕ) → q.cache ≡ cache → starts_first (new_span q start cache).spans o ≡ true
      new_first [] e = rw (link_span-put (record q { made = q.made + 1 }) start q.made v.counted) (
          first-put_new q.spans o q.made _ h
            (get-occurs q.spans q.made (ground (arith, v.below q.made))))
      new_first (n ∷ cache) e =
          rw (link_span-put (record q { cache = cache }) start n v.counted)
            (first-put_new q.spans o n _ h (get-occurs q.spans n (ground (arith, e, v.distinct n))))
  add_between-first (some left) none el er =
      let (s, hl) = ends_at-some (dict_get q.spans left) start (v.ends start left el) in
      rw hl (first-put q.spans o left s start (start + 1) h hl)
  add_between-first none (some right) el er =
      let (e, hr) =
        starts_at-some (dict_get q.spans right) (start + 1) (v.starts (start + 1) right er) in
      rw hr (first-put_other q.spans o right (start + 1) e _ h hr (λ c. omega arith))
  add_between-first (some left) (some right) el er =
      let (s, hl) = ends_at-some (dict_get q.spans left) start (v.ends start left el) in
      let (e, hr) =
        starts_at-some (dict_get q.spans right) (start + 1) (v.starts (start + 1) right er) in
      rw (hl, hr)
        (first-put (dict_pop q.spans right) o left s start e
          (first-pop q.spans o right (start + 1) e h hr (λ c. omega arith))
          (get-pop q.spans right left ∙ ground (arith, hl, apart left right s e hl hr)))

pub first-any :
    (d : Dict Span) (o x : ℕ)
    → starts_first d o ≡ true
    → o ≤ x
    → x < end_of_first d
    → any d x ≡ true
first-any [] o x h a b = absurd (omega arith)
first-any ((i, (s, e)) ∷ d) o x h a b = ground arith
