-- ===== src/Aggregator/Steps.antt =====
-- The interleavings of the callers of an `Aggregator`.
use tiny_chat_microservices.Prelude.{
  ℕ, ◌≤◌, ◌≡◌, Bool, false, Dict, some, List, [], ◌∷◌, ◌++◌, if◌then◌else◌, times,
}
use tiny_chat_microservices.Aggregator.{Aggregator, fresh, join, resume, Ending, finish}

-- The states that callers can reach, with the arguments of the calls in their order. A caller goes on
-- at any time. The cache of locks is one for all Aggregators of a process, so the others may do anything
-- to it and to the locks. Where `calm` holds, they do not, and a batch ends only when its callers have
-- all gone on. No caller is cancelled.
pub data Reach (calm : Bool) (max_count : ℕ) : List ℕ → Aggregator → Type 0 where
  start : Reach calm max_count [] fresh
  joins :
      {xs : List ℕ} {a : Aggregator} (arg : ℕ)
      → Reach calm max_count xs a
      → Reach calm max_count (xs ++ (arg ∷ [])) (join (some max_count) arg a)
  resumes :
      {xs : List ℕ} {a : Aggregator} (n : ℕ)
      → 1 ≤ times a.waiting n
      → Reach calm max_count xs a
      → Reach calm max_count xs (resume n a)
  ends :
      {xs : List ℕ} {a : Aggregator} (n : ℕ) (ending : Ending)
      → 1 ≤ times a.executing n
      → (if calm then times a.waiting n else 0) ≡ 0
      → Reach calm max_count xs a
      → Reach calm max_count xs (finish n ending a)
  elsewhere :
      {xs : List ℕ} {a : Aggregator} (locks : Dict Bool) (cache : List ℕ) (made : ℕ)
      → calm ≡ false
      → Reach calm max_count xs a
      → Reach calm max_count xs (record a { locks = locks; cache = cache; made = made })
