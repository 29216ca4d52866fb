-- ===== src/Messages/AckQueue.antt =====
-- chat/common/src/chatp/message/queue.py: `AckQueue`, the numbers that were acknowledged, as spans in
-- a linked list with two tables that find the span by its start and by its end.
pub mod Valid
pub mod Grown
pub mod Contents
pub mod Set
pub mod First
use tiny_chat_microservices.Prelude.{
  ℕ, zero, suc, ◌+◌, ◌-◌, Bool, true, false, ◌&&◌, ◌||◌, Option, none, some, List, [], ◌∷◌, ◌++◌,
  Dict, dict_get, dict_put, dict_pop, if◌then◌else◌, ◌==◌, ltb, leb, ℤ, pos, negsuc,
}
use tiny_chat_microservices.Messages.Spans.{Span, covers}

-- `spans` is the linked list behind the root, by the numbers of the span objects; `cache` is the
-- deque of the objects that are not in use, of which `made` were made.
pub record AckQueue : Type 0 where
  pub query_left : Dict ℕ
  pub query_right : Dict ℕ
  pub spans : Dict Span
  pub cnt : ℕ
  pub cache : List ℕ
  pub made : ℕ

-- `__init__`
abbrev pub empty_queue : AckQueue
empty_queue = record {
  query_left = [];
  query_right = [];
  spans = [];
  cnt = 0;
  cache = [];
  made = 0;
}

abbrev pub oldest_dropped : List ℕ → List ℕ
oldest_dropped [] = []
oldest_dropped (i ∷ cache) = cache

abbrev pub length : List ℕ → ℕ
length [] = 0
length (i ∷ cache) = suc (length cache)

-- `deque(maxlen=64).append`
unfoldable pub cache_append : List ℕ → ℕ → List ℕ
cache_append cache i =
    if ltb (length cache) 64 then cache ++ (i ∷ []) else oldest_dropped (cache ++ (i ∷ []))

-- The span of an object. The tables name objects of the list only.
abbrev pub found : Option Span → Span
found none = (0, 0)
found (some v) = v

abbrev pub span_of : Dict Span → ℕ → Span
span_of spans i = found (dict_get spans i)

-- `start` joins the spans [s, start) and [start + 1, e): the right one is removed.
unfoldable pub join_spans : AckQueue → ℕ → (left right : ℕ) → Span → Span → AckQueue
unfolding cache_append
join_spans q start left right (s, _) (_, e) = record q {
  query_left = dict_pop q.query_left (start + 1);
  query_right = dict_put (dict_pop q.query_right start) e left;
  spans = dict_put (dict_pop q.spans right) left (s, e);
  cnt = q.cnt - 1;
  cache = cache_append q.cache right;
}

unfoldable pub grow_right : AckQueue → ℕ → (left : ℕ) → Span → AckQueue
grow_right q start left (s, e) = record q {
  query_right = dict_put (dict_pop q.query_right start) (start + 1) left;
  spans = dict_put q.spans left (s, e + 1);
}

unfoldable pub grow_left : AckQueue → ℕ → (right : ℕ) → Span → AckQueue
grow_left q start right (s, e) = record q {
  query_left = dict_put (dict_pop q.query_left (start + 1)) start right;
  spans = dict_put q.spans right (s - 1, e);
}

-- A span for `start` alone, put last.
unfoldable pub link_span : AckQueue → ℕ → (span : ℕ) → AckQueue
link_span q start span = record q {
  query_left = dict_put q.query_left start span;
  query_right = dict_put q.query_right (start + 1) span;
  spans =
      if q.cnt == 0
      then (span, (start, start + 1)) ∷ []
      else dict_put q.spans span (start, start + 1);
  cnt = q.cnt + 1;
}

-- The object for it is the oldest of the cache, if there is one.
unfoldable pub new_span : AckQueue → ℕ → List ℕ → AckQueue
unfolding link_span
new_span q start [] = link_span (record q { made = q.made + 1 }) start q.made
new_span q start (span ∷ cache) = link_span (record q { cache = cache }) start span

unfoldable pub add_between : AckQueue → ℕ → Option ℕ → Option ℕ → AckQueue
unfolding join_spans grow_right grow_left new_span
add_between q start (some left) (some right) =
    join_spans q start left right (span_of q.spans left) (span_of q.spans right)
add_between q start (some left) none = grow_right q start left (span_of q.spans left)
add_between q start none (some right) = grow_left q start right (span_of q.spans right)
add_between q start none none = new_span q start q.cache

-- `add`
unfoldable pub add : AckQueue → ℤ → AckQueue
unfolding add_between
add q (negsuc n) = q
add q (pos start) =
    add_between q start (dict_get q.query_right start) (dict_get q.query_left (start + 1))

unfoldable pub cached : List ℕ → Dict Span → List ℕ
unfolding cache_append
cached cache [] = cache
cached cache ((i, v) ∷ spans) = cached (cache_append cache i) spans

-- `clear`
unfoldable pub clear : AckQueue → AckQueue
unfolding cached
clear q = if q.cnt == 0 then q else record q {
  query_left = [];
  query_right = [];
  spans = [];
  cnt = 0;
  cache = cached q.cache q.spans;
}

-- `iterator` takes `cnt` steps in the ring; behind its last span comes the root, [-1, 0).
unfoldable pub visit : (steps : ℕ) → (all rest : Dict Span) → ℤ → Bool
visit zero all rest x = false
visit (suc n) all [] (negsuc zero) = true
visit (suc n) all [] x = visit n all all x
visit (suc n) all ((i, v) ∷ rest) (negsuc m) = visit n all rest (negsuc m)
visit (suc n) all ((i, v) ∷ rest) (pos x) = covers v x || visit n all rest (pos x)

-- `__contains__`
unfoldable pub contains : AckQueue → ℤ → Bool
unfolding visit
contains q x = visit q.cnt q.spans q.spans x

abbrev pub end_of_first : Dict Span → ℕ
end_of_first [] = 0
end_of_first ((i, (s, e)) ∷ rest) = e

-- `first_end`, the end of the root where no span is in the ring
unfoldable pub first_end : AckQueue → ℕ
first_end q = end_of_first q.spans
