-- ===== src/Worker/Pacer/Runs.antt =====
-- The interleavings of the calls of one consumer for one sender (utils/pacer.py), as a step relation,
-- and what is kept true along them.
pub mod Calls
use tiny_chat_microservices.Prelude.{
  ℕ, ◌+◌, ◌≤◌, ◌<◌, ap, ◌≡◌, ◌≢◌, refl, sym, ◌∙◌, inl, inr, Bool-cases, Option-cases, leb, ltb,
  zero, suc, Bool, true, false, Option, none, some, List, [], ◌∷◌, arith, Dict, dict_get, dict_put,
  dict_has, get-put, get-empty, ◌==◌,
}
use tiny_chat_microservices.Redis.{Awaited, finished, timed_out}
use tiny_chat_microservices.Worker.Pacer.{
  DeliveryInfo, fresh, FilterState, new_item, can_ignore, retry_required, Progress, returned,
  waits_for_lock, waits_for_redis, return_it, initialized, decide, begin, on_lock, on_redis,
  on_handled_new_item, skip_handled, filter_new, size,
}

-- The info, the delivery id of the call that waits for Redis, and the ids that were returned as new.
pub record Sender : Type 0 where
  pub info : DeliveryInfo
  pub reader : Option ℕ
  pub accepted : List ℕ

abbrev pub note : FilterState → ℕ → List ℕ → List ℕ
note new_item d accepted = d ∷ accepted
note can_ignore d accepted = accepted
note retry_required d accepted = accepted

-- What a call leaves behind when it returns or starts to wait.
abbrev pub settle : DeliveryInfo × Progress → ℕ → Sender → Sender
settle (info, returned state) d s = record s { info = info; accepted = note state d s.accepted }
settle (info, waits_for_lock) d s = record s { info = info }
settle (info, waits_for_redis) d s = record s { info = info; reader = some d }

abbrev pub answered : DeliveryInfo × FilterState → ℕ → Sender → Sender
answered (info, state) d s = record {
  info = info;
  reader = none;
  accepted = note state d s.accepted;
}

-- Delivery ids start from 1, and so does what `on_handled_new_item` has written to Redis.
-- A call begins; a call that waits is given the free lock, in any order; Redis answers the call that
-- waits for it; a new item has been handled. That a call waited for the lock before it is given it
-- is not required: the relation has more runs than the program.
pub data Step (s : Sender) : Sender → Type 0 where
  call : (d m : ℕ) → Step s (settle (begin s.info d m) d s)
  lock : (d m : ℕ) → s.info.locked ≡ false → Step s (settle (on_lock s.info d m) d s)
  answer :
      (r : Awaited (Option ℕ)) (d m : ℕ)
      → s.reader ≡ some d
      → r ≢ finished (some (some 0))
      → Step s (answered (on_redis r s.info d m) d s)
  handled : (d : ℕ) → 0 < d → Step s (record s { info = (on_handled_new_item s.info d).0 })

pub data Reach : Sender → Type 0 where
  start : Reach (record { info = fresh; reader = none; accepted = [] })
  next : {s t : Sender} → Reach s → Step s t → Reach t

-- Every id of the list is a key of the dict.
abbrev pub Kept : Dict ℕ → List ℕ → Type 0
Kept ids [] = Unit
Kept ids (d ∷ ds) = (dict_has ids d ≡ true) × Kept ids ds

abbrev pub Absent : ℕ → List ℕ → Type 0
Absent d [] = Unit
Absent d (e ∷ es) = (d ≢ e) × Absent d es

-- No id stands twice in the list.
abbrev pub Distinct : List ℕ → Type 0
Distinct [] = Unit
Distinct (d ∷ ds) = Absent d ds × Distinct ds

abbrev pub is_some : Option ℕ → Bool
is_some none = false
is_some (some d) = true

pub record IsGood (info : DeliveryInfo) (accepted : List ℕ) : Type 0 where
  pub kept : Kept info.delivery_ids accepted
  pub distinct : Distinct accepted
  pub empty : info.next_delivery_id ≡ 0 → info.delivery_ids ≡ []

pub record Inv (s : Sender) : Type 0 where
  pub good : IsGood s.info s.accepted
  pub lock : s.info.locked ≡ is_some s.reader
  pub unread : is_some s.reader ≡ true → s.info.next_delivery_id ≡ 0
