-- ===== src/Messages/Offsets/Acked.antt =====
-- Which offsets are acknowledged when an `OffsetRecord` gives the offset to be stored.
use tiny_chat_microservices.Prelude.{
  ℕ, suc, ◌≤◌, ◌<◌, ◌≡◌, refl, Bool, true, false, ◌&&◌, ◌||◌, some, List, [], ◌∷◌, Dict, dict_get,
  ◌==◌, ltb, arith, ℤ, pos,
}
use tiny_chat_microservices.Messages.Spans.{Span, any}
use tiny_chat_microservices.Messages.AckQueue.{add, clear, first_end}
use tiny_chat_microservices.Messages.AckQueue.Valid.{IsValid}
use tiny_chat_microservices.Messages.AckQueue.Contents.{add-Adds, clear-IsValid, any-clear}
use tiny_chat_microservices.Messages.Offsets.{
  OffsetRecord, add_offset, expected_offset, last_offset, tick, activate, deactivate, ack_all,
}
use tiny_chat_microservices.Messages.AckQueue.First.{starts_first, add_between-first, first-any}

-- Whether a number is in a list, and whether all of a list are above one.
abbrev pub among : List ℕ → ℕ → Bool
among [] x = false
among (y ∷ ys) x = y == x || among ys x

abbrev pub all_above : ℕ → List ℕ → Bool
all_above o [] = true
all_above o (y ∷ ys) = ltb o y && all_above o ys

record Acks (r : OffsetRecord) (o : ℕ) (offsets : List ℕ) : Type 0 where
  valid : IsValid r.queue
  head : starts_first r.queue.spans o ≡ true
  exact : (x : ℕ) → any r.queue.spans x ≡ (o == x || among offsets x)

get-first : (i : ℕ) (v : Span) (d : Dict Span) → dict_get ((i, v) ∷ d) i ≡ some v
unfolding dict_get
get-first i v d = ground arith

single-first :
    (d : Dict Span) (o : ℕ)
    → ((i : ℕ) (v : Span) → dict_get d i ≡ some v → v.0 < v.1)
    → ((x : ℕ) → any d x ≡ (o == x))
    → starts_first d o ≡ true
single-first [] o full exact = absurd (ground (arith, exact o))
single-first ((i, (s, e)) ∷ d) o full exact =
    let proper : s < e = full i (s, e) (get-first i (s, e) d) in ground (arith, exact s)

activate-Acks : (r : OffsetRecord) (o : ℕ) → IsValid r.queue → Acks (activate (some o) r).1 o []
unfolding activate
activate-Acks r o v =
    let adds = add-Adds (clear r.queue) o (clear-IsValid r.queue v) in
    let exact : (x : ℕ) → any (add (clear r.queue) (pos o)).spans x ≡ (o == x) =
      λ x. ground (arith, adds.exact x, any-clear r.queue x v.counted) in
    record {
      valid = adds.valid;
      head = single-first _ o adds.valid.full exact;
      exact = λ x. ground (arith, exact x);
    }

ack_all-Acks :
    (offsets : List ℕ) (r : OffsetRecord) (o : ℕ)
    → all_above o offsets ≡ true
    → Acks r o []
    → Acks (ack_all offsets r) o offsets
unfolding ack_all add_offset add
ack_all-Acks [] r o e a = a
ack_all-Acks (y ∷ offsets) r o e a =
    let b = ack_all-Acks offsets r o (ground arith) a in
    let adds = add-Adds (ack_all offsets r).queue y b.valid in
    record {
      valid = adds.valid;
      head =
          add_between-first (ack_all offsets r).queue o y b.valid b.head (ground arith) _ _ refl
            refl;
      exact = λ x. ground (arith, adds.exact x, b.exact x);
    }

-- The offset that a record gives `store_offset`, from the timer or when its subscriber becomes inactive.
pub data Stores (r : OffsetRecord) (offset : ℤ) : Type 0 where
  by_timer : (now : ℕ) → (tick now r).0 ≡ some offset → Stores r offset
  inactive : (deactivate r).0 ≡ some offset → Stores r offset

Stores-last_offset : (r : OffsetRecord) (offset : ℤ) → Stores r offset → last_offset r ≡ offset
unfolding tick deactivate
Stores-last_offset r offset (by_timer now h) = ground arith
Stores-last_offset r offset (inactive h) = ground arith

last_offset-expected :
    (r : OffsetRecord) (c : ℕ) → last_offset r ≡ pos c → expected_offset r ≡ suc c
unfolding last_offset
last_offset-expected r c h = ground arith

-- When a subscriber becomes active with the offset o that the broker has, and then acknowledges
-- messages behind o, in any order and each any number of times, an offset c that the timer or the end
-- of its activity gives the broker is reached without a gap: every message behind o up to c was
-- acknowledged. So a consumer that starts behind the stored offset misses none.
pub Stores-acked :
    (r : OffsetRecord) (o : ℕ) (offsets : List ℕ) (c x : ℕ)
    → IsValid r.queue
    → all_above o offsets ≡ true
    → Stores (ack_all offsets (activate (some o) r).1) (pos c)
    → o < x
    → x ≤ c
    → among offsets x ≡ true
unfolding expected_offset first_end
Stores-acked r o offsets c x v above stores after within =
    let now = ack_all offsets (activate (some o) r).1 in
    let a = ack_all-Acks offsets (activate (some o) r).1 o above (activate-Acks r o v) in
    let e : expected_offset now ≡ suc c =
      last_offset-expected now c (Stores-last_offset now (pos c) stores) in
    let covered = first-any now.queue.spans o x a.head (omega arith) (rw e (omega arith)) in
    ground (arith, a.exact x, covered)
