-- ===== src/Messages/Spans.antt =====
-- The linked list of spans that chat/common/src/chatp/message/queue.py keeps: each span object is a
-- number, and the list is in the order of `next` behind the root.
use tiny_chat_microservices.Prelude.{
  ℕ, suc, ◌+◌, ◌≤◌, ◌≡◌, refl, Bool, false, ◌&&◌, ◌||◌, none, some, [], ◌∷◌, Dict, dict_get,
  dict_put, dict_pop, if◌then◌else◌, ◌==◌, ltb, leb, arith,
}

-- `RangeSpan`: start and end, the end exclusive
abbrev pub Span : Type 0
Span = ℕ × ℕ

-- `start <= seq < end`
abbrev pub covers : Span → ℕ → Bool
covers (s, e) x = leb s x && ltb x e

abbrev pub size : Dict Span → ℕ
size [] = 0
size (n ∷ d) = suc (size d)

-- Whether a span of the list covers a number.
abbrev pub any : Dict Span → ℕ → Bool
any [] x = false
any ((i, v) ∷ d) x = covers v x || any d x

-- How often a span object stands in the list.
abbrev pub occurs : Dict Span → ℕ → ℕ
occurs [] i = 0
occurs ((j, v) ∷ d) i = (if j == i then 1 else 0) + occurs d i

pub occurs-get : (d : Dict Span) (i : ℕ) (v : Span) → dict_get d i ≡ some v → 1 ≤ occurs d i
unfolding dict_get
occurs-get [] i v h = absurd (ground arith)
occurs-get ((j, w) ∷ d) i v h = ground (arith, occurs-get d i v)

pub get-occurs : (d : Dict Span) (i : ℕ) → occurs d i ≡ 0 → dict_get d i ≡ none
unfolding dict_get
get-occurs [] i h = refl
get-occurs ((j, w) ∷ d) i h = ground (arith, get-occurs d i)

pub occurs-put :
    (d : Dict Span) (k j : ℕ) (v : Span)
    → occurs (dict_put d k v) j
      ≡ (if occurs d k == 0 then (if k == j then 1 else 0) + occurs d j else occurs d j)
unfolding dict_put
occurs-put [] k j v = ground arith
occurs-put ((i, w) ∷ d) k j v = ground (arith, occurs-put d k j v)

pub occurs-pop :
    (d : Dict Span) (k j : ℕ) → occurs (dict_pop d k) j ≡ (if k == j then 0 else occurs d j)
unfolding dict_pop
occurs-pop [] k j = ground arith
occurs-pop ((i, w) ∷ d) k j = ground (arith, occurs-pop d k j)

pub size-put :
    (d : Dict Span) (k : ℕ) (v : Span)
    → size (dict_put d k v) ≡ (if occurs d k == 0 then suc (size d) else size d)
unfolding dict_put
size-put [] k v = refl
size-put ((i, w) ∷ d) k v = ground (arith, size-put d k v)

pub size-pop : (d : Dict Span) (k : ℕ) → size (dict_pop d k) + occurs d k ≡ size d
unfolding dict_pop
size-pop [] k = refl
size-pop ((i, w) ∷ d) k = ground (arith, size-pop d k)

pub any-new :
    (d : Dict Span) (k : ℕ) (v : Span) (x : ℕ)
    → occurs d k ≡ 0
    → any (dict_put d k v) x ≡ (covers v x || any d x)
unfolding dict_put
any-new [] k v x e = refl
any-new ((i, w) ∷ d) k v x e = ground (arith, any-new d k v x)

-- A span that is replaced by one that covers one more thing.
pub any-grown :
    (d : Dict Span) (k : ℕ) (old v : Span) (x : ℕ) (more : Bool)
    → dict_get d k ≡ some old
    → covers v x ≡ (more || covers old x)
    → any (dict_put d k v) x ≡ (more || any d x)
unfolding dict_put dict_get
any-grown [] k old v x more h e = absurd (ground arith)
any-grown ((i, w) ∷ d) k old v x more h e = ground (arith, any-grown d k old v x more)

any-absent : (d : Dict Span) (k : ℕ) (x : ℕ) → occurs d k ≡ 0 → any (dict_pop d k) x ≡ any d x
unfolding dict_pop
any-absent [] k x e = refl
any-absent ((i, w) ∷ d) k x e = ground (arith, any-absent d k x)

pub any-pop :
    (d : Dict Span) (k : ℕ) (old : Span) (x : ℕ)
    → dict_get d k ≡ some old
    → occurs d k ≤ 1
    → any d x ≡ (covers old x || any (dict_pop d k) x)
unfolding dict_pop dict_get
any-pop [] k old x h e = absurd (ground arith)
any-pop ((i, w) ∷ d) k old x h e = ground (arith, any-pop d k old x, any-absent d k x)
