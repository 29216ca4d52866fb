-- ===== src/Messages/AckQueue/Contents.antt =====
-- What an `AckQueue` contains.
use tiny_chat_microservices.Prelude.{
  times, ℕ, suc, ◌+◌, ◌≤◌, ◌≡◌, refl, sym, ap, subst, true, false, ◌&&◌, ◌||◌, Option, none, some,
  Bool-cases, inl, inr, List, [], ◌∷◌, Dict, dict_get, dict_pop, get-pop, get-empty, ◌==◌, ltb, leb,
  arith, pos, negsuc,
}
use tiny_chat_microservices.Messages.Spans.{Span, size, any, occurs, any-new, any-grown, any-pop}
use tiny_chat_microservices.Messages.AckQueue.{
  AckQueue, empty_queue, cache_append, found, join_spans, grow_right, grow_left, link_span,
  new_span, add_between, add, cached, clear, visit, contains,
}
use tiny_chat_microservices.Messages.AckQueue.Valid.{
  IsValid, starts_at, ends_at, two, times-append, join_spans-IsValid,
}
use tiny_chat_microservices.Messages.AckQueue.Grown.{
  grow_right-IsValid, grow_left-IsValid, link_span-IsValid, link_span-put,
}

-- A queue is as it was, and one number more is in it.
pub record Adds (q : AckQueue) (start : ℕ) (after : AckQueue) : Type 0 where
  pub valid : IsValid after
  pub exact : (x : ℕ) → any after.spans x ≡ (start == x || any q.spans x)

pub starts_at-some : (o : Option Span) (s : ℕ) → starts_at o s ≡ true → (e : ℕ) × (o ≡ some (s, e))
starts_at-some none s h = absurd (ground arith)
starts_at-some (some (a, b)) s h =
    let e : a ≡ s = ground arith in (b, ap (λ (n : ℕ). some (n, b)) e)

pub ends_at-some : (o : Option Span) (e : ℕ) → ends_at o e ≡ true → (s : ℕ) × (o ≡ some (s, e))
ends_at-some none e h = absurd (ground arith)
ends_at-some (some (a, b)) e h =
    let same : b ≡ e = ground arith in (a, ap (λ (n : ℕ). some (a, n)) same)

module _ (q : AckQueue) (start left right s e : ℕ) (v : IsValid q)
    (hl : dict_get q.spans left ≡ some (s, start))
    (hr : dict_get q.spans right ≡ some (suc start, e)) where
  join_spans-Adds : Adds q start (join_spans q start left right (s, start) (suc start, e))
  unfolding join_spans
  join_spans-Adds = record {
    valid = join_spans-IsValid q start left right s e v hl hr;
    exact = λ x. ground (
      arith,
      any-pop q.spans right (suc start, e) x hr,
      v.distinct right,
      v.full left (s, start),
      v.full right (suc start, e),
      any-grown (dict_pop q.spans right) left (s, start) (s, e) x (leb start x && ltb x e),
      get-pop q.spans right left,
      two q start left right s e v hl hr,
    );
  }

module _ (q : AckQueue) (start left s : ℕ) (v : IsValid q)
    (hl : dict_get q.spans left ≡ some (s, start)) where
  grow_right-Adds : Adds q start (grow_right q start left (s, start))
  unfolding grow_right
  grow_right-Adds = record {
    valid = grow_right-IsValid q start left s v hl;
    exact = λ x. ground (
      arith,
      v.full left (s, start),
      any-grown q.spans left (s, start) (s, suc start) x (start == x),
    );
  }

module _ (q : AckQueue) (start right e : ℕ) (v : IsValid q)
    (hr : dict_get q.spans right ≡ some (suc start, e)) where
  grow_left-Adds : Adds q start (grow_left q start right (suc start, e))
  unfolding grow_left
  grow_left-Adds = record {
    valid = grow_left-IsValid q start right e v hr;
    exact = λ x. ground (
      arith,
      v.full right (suc start, e),
      any-grown q.spans right (suc start, e) (start, e) x (start == x),
    );
  }

new_span-Adds :
    (q : AckQueue) (start : ℕ) (cache : List ℕ)
    → q.cache ≡ cache
    → IsValid q
    → Adds q start (new_span q start cache)
unfolding new_span link_span
new_span-Adds q start [] e v =
    let unused : occurs q.spans q.made ≡ 0 = ground (arith, v.below q.made) in
    let p = link_span-put (record q { made = q.made + 1 }) start q.made v.counted in
    record {
      valid =
          link_span-IsValid q start q.made v (q.made + 1) q.cache (omega arith) unused
            (λ i. ground (arith, v.distinct i, v.below q.made)) (λ i h. ground (arith, v.below i));
      exact = λ x. ground (arith, p, any-new q.spans q.made (start, suc start) x unused);
    }
new_span-Adds q start (n ∷ cache) e v =
    let unused : occurs q.spans n ≡ 0 = ground (arith, e, v.distinct n) in
    let p = link_span-put (record q { cache = cache }) start n v.counted in
    record {
      valid =
          link_span-IsValid q start n v q.made cache (omega arith) unused
            (λ i. ground (arith, e, v.distinct i)) (λ i h. ground (arith, e, v.below i));
      exact = λ x. ground (arith, p, any-new q.spans n (start, suc start) x unused);
    }

add_between-Adds :
    (q : AckQueue) (start : ℕ) (l r : Option ℕ)
    → IsValid q
    → dict_get q.query_right start ≡ l
    → dict_get q.query_left (suc start) ≡ r
    → Adds q start (add_between q start l r)
unfolding add_between
add_between-Adds q start none none v el er = new_span-Adds q start q.cache refl v
add_between-Adds q start (some left) none v el er =
    let (s, hl) = ends_at-some (dict_get q.spans left) start (v.ends start left el) in
    rw hl (grow_right-Adds q start left s v hl)
add_between-Adds q start none (some right) v el er =
    let (e, hr) =
      starts_at-some (dict_get q.spans right) (suc start) (v.starts (suc start) right er) in
    subst (λ o. Adds q start (grow_left q start right (found o))) (sym hr)
      (grow_left-Adds q start right e v hr)
add_between-Adds q start (some left) (some right) v el er =
    let (s, hl) = ends_at-some (dict_get q.spans left) start (v.ends start left el) in
    let (e, hr) =
      starts_at-some (dict_get q.spans right) (suc start) (v.starts (suc start) right er) in
    rw (hl, hr) (join_spans-Adds q start left right s e v hl hr)

pub add-Adds : (q : AckQueue) (start : ℕ) → IsValid q → Adds q start (add q (pos start))
unfolding add
add-Adds q start v =
    let e : suc start ≡ start + 1 = omega arith in
    add_between-Adds q start _ _ v refl (ap (λ n. dict_get q.query_left n) e)

times-cached : (c : List ℕ) (d : Dict Span) (i : ℕ) → times (cached c d) i ≤ times c i + occurs d i
unfolding cached
times-cached c [] i = omega arith
times-cached c ((j, w) ∷ d) i =
    ground (arith, times-cached (cache_append c j) d i, times-append c j i)

pub clear-IsValid : (q : AckQueue) → IsValid q → IsValid (clear q)
unfolding clear
clear-IsValid q v = elim (Bool-cases (q.cnt == 0)) [
  | inl t ↦ rw t v
  | inr f ↦ rw f (record {
    starts = λ t i h. ground (arith, get-empty {V = ℕ} t);
    ends = λ t i h. ground (arith, get-empty {V = ℕ} t);
    full = λ i w h. ground (arith, get-empty {V = Span} i);
    distinct = λ i. ground (arith, times-cached q.cache q.spans i, v.distinct i);
    below = λ i h. ground (arith, times-cached q.cache q.spans i, v.below i);
    counted = refl;
  })
]

visit-any : (all rest : Dict Span) (x : ℕ) → visit (size rest) all rest (pos x) ≡ any rest x
unfolding visit
visit-any all [] x = refl
visit-any all ((i, v) ∷ rest) x = ground (arith, visit-any all rest x)

visit-negsuc : (all rest : Dict Span) (n : ℕ) → visit (size rest) all rest (negsuc n) ≡ false
unfolding visit
visit-negsuc all [] n = refl
visit-negsuc all ((i, v) ∷ rest) n = visit-negsuc all rest n

pub contains-any : (q : AckQueue) (x : ℕ) → IsValid q → contains q (pos x) ≡ any q.spans x
unfolding contains
contains-any q x v = rw v.counted (visit-any q.spans q.spans x)

pub contains-negsuc : (q : AckQueue) (n : ℕ) → IsValid q → contains q (negsuc n) ≡ false
unfolding contains
contains-negsuc q n v = rw v.counted (visit-negsuc q.spans q.spans n)

pub empty_queue-IsValid : IsValid empty_queue
empty_queue-IsValid = record {
  starts = λ t i h. ground (arith, get-empty {V = ℕ} t);
  ends = λ t i h. ground (arith, get-empty {V = ℕ} t);
  full = λ i w h. ground (arith, get-empty {V = Span} i);
  distinct = λ i. ground arith;
  below = λ i h. refl;
  counted = refl;
}

any-size : (d : Dict Span) (x : ℕ) → size d ≡ 0 → any d x ≡ false
any-size [] x e = refl
any-size (_ ∷ d) x e = absurd (omega arith)

pub any-clear : (q : AckQueue) (x : ℕ) → q.cnt ≡ size q.spans → any (clear q).spans x ≡ false
unfolding clear
any-clear q x c = elim (Bool-cases (q.cnt == 0)) [
  | inl t ↦ rw t (any-size q.spans x (ground arith))
  | inr f ↦ rw f refl
]
