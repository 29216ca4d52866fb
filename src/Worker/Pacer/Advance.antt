-- ===== src/Worker/Pacer/Advance.antt =====
-- How `on_handled_new_item` moves `next_delivery_id`.
use tiny_chat_microservices.Prelude.{
  ℕ, zero, suc, ◌+◌, ◌≤◌, ◌<◌, ◌≡◌, ◌≢◌, true, false, none, some, [], ◌∷◌, arith, Dict, dict_get,
  dict_has, ◌==◌, leb, ◌⊎◌, if◌then◌else◌, inl, inr, Bool-cases,
}
use tiny_chat_microservices.Worker.Pacer.{DeliveryInfo, skip_handled, size, on_handled_new_item}

-- The number of entries whose key is d or greater.
from_key : Dict ℕ → ℕ → ℕ
from_key [] d = 0
from_key ((j, m) ∷ ids) d = let rest = from_key ids d in if leb d j then suc rest else rest

from_key-le-size : (ids : Dict ℕ) (d : ℕ) → from_key ids d ≤ size ids
unfolding from_key
from_key-le-size [] d = omega arith
from_key-le-size ((j, m) ∷ ids) d = ground (arith, from_key-le-size ids d)

from_key_mono : (ids : Dict ℕ) (d : ℕ) → from_key ids (d + 1) ≤ from_key ids d
unfolding from_key
from_key_mono [] d = omega arith
from_key_mono ((j, m) ∷ ids) d = ground (arith, from_key_mono ids d)

from_key-drops :
    (ids : Dict ℕ) (d : ℕ) → dict_has ids d ≡ true → from_key ids (d + 1) < from_key ids d
unfolding from_key dict_get
from_key-drops [] d h = absurd (ground arith)
from_key-drops ((j, m) ∷ ids) d h = elim (Bool-cases (j == d)) [
  | inl e ↦ ground (arith, from_key_mono ids d)
  | inr e ↦ ground (arith, from_key-drops ids d (ground arith))
]

-- What the loop returns: the first id from d on that is not a key.
pub record IsNext (ids : Dict ℕ) (d k : ℕ) : Type 0 where
  pub at_least : d ≤ k
  pub absent : dict_has ids k ≡ false
  pub skipped : (i : ℕ) → d ≤ i → i < k → dict_has ids i ≡ true

skip_handled-IsNext :
    (fuel : ℕ) (ids : Dict ℕ) (d : ℕ)
    → from_key ids d < fuel
    → (k : ℕ) × (skip_handled fuel ids d ≡ some k) × IsNext ids d k
unfolding skip_handled
skip_handled-IsNext zero ids d h = absurd (omega arith)
skip_handled-IsNext (suc fuel) ids d h = elim (Bool-cases (dict_has ids d)) [
  | inr e ↦ (
    d,
    ground arith,
    record { at_least = omega arith; absent = e; skipped = λ i a b. absurd (omega arith) },
  )
  | inl e ↦
      let (k, r, n) =
        skip_handled-IsNext fuel ids (d + 1) (omega (arith, from_key-drops ids d e)) in
      (
        k,
        ground arith,
        record {
          at_least = omega (arith, n.at_least);
          absent = n.absent;
          skipped = λ i a b. elim (Bool-cases (i == d)) [
            | inl q ↦ ground arith
            | inr q ↦ n.skipped i (ground arith) b
          ];
        },
      )
]

-- When the message at `next_delivery_id` has been handled, the loop ends, and `next_delivery_id`
-- becomes, in the info and in what is written to Redis, the first greater id that the info does not
-- keep: it keeps every id in between. For any other message nothing changes and nothing is written.
pub on_handled_new_item-IsNext :
    (info : DeliveryInfo) (d : ℕ)
    → ((d ≡ info.next_delivery_id)
        × ((k : ℕ) × (on_handled_new_item info d ≡ (record info { next_delivery_id = k }, some k))
            × IsNext info.delivery_ids (d + 1) k))
      ⊎ ((d ≢ info.next_delivery_id) × (on_handled_new_item info d ≡ (info, none)))
unfolding on_handled_new_item
on_handled_new_item-IsNext info d = elim (Bool-cases (d == info.next_delivery_id)) [
  | inl e ↦
      let (k, r, n) =
        skip_handled-IsNext (suc (size info.delivery_ids)) info.delivery_ids (d + 1)
          (omega (arith, from_key-le-size info.delivery_ids (d + 1))) in
      inl (ground arith, (k, ground arith, n))
  | inr e ↦ inr (λ q. ground arith, ground arith)
]
