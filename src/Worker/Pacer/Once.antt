-- ===== src/Worker/Pacer/Once.antt =====
-- Calls of `filter_or_not` and `on_handled_new_item` (utils/pacer.py) of one sender that interleave.
use tiny_chat_microservices.Prelude.{
  ℕ, ◌+◌, ◌≤◌, ◌<◌, ap, ◌≡◌, refl, inl, inr, Bool-cases, Option-cases, zero, suc, some, arith, Dict,
  ◌==◌,
}
use tiny_chat_microservices.Worker.Pacer.{on_handled_new_item, skip_handled, size}
use tiny_chat_microservices.Worker.Pacer.Runs.{
  Sender, Step, call, lock, answer, handled, Reach, start, next, Kept, Distinct, is_some, Inv,
}
use tiny_chat_microservices.Worker.Pacer.Runs.Calls.{begin-Inv, on_lock-Inv, on_redis-Inv}

skip_handled-le : (fuel : ℕ) (ids : Dict ℕ) (d k : ℕ) → skip_handled fuel ids d ≡ some k → d ≤ k
unfolding skip_handled
skip_handled-le zero ids d k h = absurd (ground arith)
skip_handled-le (suc fuel) ids d k h = ground (arith, skip_handled-le fuel ids (d + 1) k)

on_handled-Inv :
    (s : Sender) (d : ℕ)
    → 0 < d
    → Inv s
    → Inv (record s { info = (on_handled_new_item s.info d).0 })
unfolding on_handled_new_item
on_handled-Inv s d p v = elim (Bool-cases (d == s.info.next_delivery_id)) [
  | inr e ↦ rw e v
  | inl e ↦
      elim (Option-cases
        (skip_handled (suc (size s.info.delivery_ids)) s.info.delivery_ids (d + 1))) [
          | inl n ↦ rw (e, n) v
          | inr (k, n) ↦
              rw (e, n)
                (record {
                  good = record {
                    kept = v.good.kept;
                    distinct = v.good.distinct;
                    empty = λ z. absurd (
                        ground (
                          arith,
                          skip_handled-le (suc (size s.info.delivery_ids)) s.info.delivery_ids
                              (d + 1) k n,
                        ));
                  };
                  lock = v.lock;
                  unread = λ r. absurd (ground (arith, v.unread r));
                })
        ]
]

Step-Inv : {s t : Sender} → Step s t → Inv s → Inv t
Step-Inv {s} (call d m) v = begin-Inv s d m v
Step-Inv {s} (lock d m l) v = on_lock-Inv s d m l v
Step-Inv {s} (answer r d m e p) v =
    on_redis-Inv s r d m p (v.good.empty (v.unread (ap is_some e))) v
Step-Inv {s} (handled d p) v = on_handled-Inv s d p v

Reach-Inv : {s : Sender} → Reach s → Inv s
Reach-Inv start = record {
  good = record { kept = tt; distinct = tt; empty = λ z. refl };
  lock = refl;
  unread = λ r. refl;
}
Reach-Inv (next r st) = Step-Inv st (Reach-Inv r)

-- In every state that the calls of one consumer can reach, however they interleave, as long as the
-- ids that are handled and the numbers that Redis gives are not 0, no delivery id of the sender was
-- returned as new twice, and each that was is kept in the info.
pub accepted-Distinct :
    {s : Sender} → Reach s → Distinct s.accepted × Kept s.info.delivery_ids s.accepted
accepted-Distinct r = let v = Reach-Inv r in (v.good.distinct, v.good.kept)
