-- ===== src/Messages/AckQueue/Set.antt =====
-- An `AckQueue` is a set of numbers.
use tiny_chat_microservices.Prelude.{
  ℕ, ◌≡◌, refl, sym, ap, ◌∙◌, Bool, false, ◌||◌, List, [], ◌∷◌, ◌==◌, ℤ, pos, negsuc,
}
use tiny_chat_microservices.Messages.Spans.{any}
use tiny_chat_microservices.Messages.AckQueue.{AckQueue, empty_queue, add, clear, contains}
use tiny_chat_microservices.Messages.AckQueue.Valid.{IsValid}
use tiny_chat_microservices.Messages.AckQueue.Contents.{
  add-Adds, clear-IsValid, any-clear, contains-any, contains-negsuc, empty_queue-IsValid,
}

-- A call of a queue, and what a queue has seen of them, the last one first.
pub data Call : Type 0 where
  adds : ℤ → Call
  clears : Call

unfoldable pub run : List Call → AckQueue
run [] = empty_queue
run (adds seq ∷ calls) = add (run calls) seq
run (clears ∷ calls) = clear (run calls)

-- The set of the numbers that were added since the last `clear`.
unfoldable pub added : List Call → ℤ → Bool
added (adds (pos start) ∷ calls) (pos seq) = start == seq || added calls (pos seq)
added (adds (negsuc n) ∷ calls) (pos seq) = added calls (pos seq)
added _ seq = false

pub run-IsValid : (calls : List Call) → IsValid (run calls)
unfolding run add
run-IsValid [] = empty_queue-IsValid
run-IsValid (adds (pos start) ∷ calls) = (add-Adds (run calls) start (run-IsValid calls)).valid
run-IsValid (adds (negsuc n) ∷ calls) = run-IsValid calls
run-IsValid (clears ∷ calls) = clear-IsValid (run calls) (run-IsValid calls)

added-negsuc : (calls : List Call) (n : ℕ) → added calls (negsuc n) ≡ false
unfolding added
added-negsuc [] n = refl
added-negsuc (adds (pos m) ∷ calls) n = refl
added-negsuc (adds (negsuc m) ∷ calls) n = refl
added-negsuc (clears ∷ calls) n = refl

any-run : (calls : List Call) (seq : ℕ) → any (run calls).spans seq ≡ added calls (pos seq)
unfolding run added add
any-run [] seq = refl
any-run (adds (pos start) ∷ calls) seq =
    (add-Adds (run calls) start (run-IsValid calls)).exact seq
    ∙ ap (λ b. start == seq || b) (any-run calls seq)
any-run (adds (negsuc n) ∷ calls) seq = any-run calls seq
any-run (clears ∷ calls) seq = any-clear (run calls) seq (run-IsValid calls).counted

-- After any calls of `add` and `clear`, with numbers added twice or in any order, a queue contains the
-- numbers that were added since the last `clear`, negative ones excepted, and no others: the spans,
-- the two tables and the objects that are used again implement a set.
pub contains-run : (calls : List Call) (seq : ℤ) → contains (run calls) seq ≡ added calls seq
unfolding added
contains-run calls (pos seq) = contains-any (run calls) seq (run-IsValid calls) ∙ any-run calls seq
contains-run calls (negsuc n) =
    contains-negsuc (run calls) n (run-IsValid calls) ∙ sym (added-negsuc calls n)
