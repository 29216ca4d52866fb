-- ===== src/Prelude/Entries.antt =====
-- The keys of a `dict`, and its values where they are numbers, in the order of its entries.
use Prim.Native.Nat.{ℕ, ◌≤◌}
use mathlib.Core.Path.{◌≡◌, refl}
use mathlib.Core.Option.{none, some}
use mathlib.Core.List.{List, [], ◌∷◌, ◌++◌}
use native.Mathlib.Omega.{arith}
use tiny_chat_microservices.Prelude.Counts.{times, without}
use tiny_chat_microservices.Prelude.Maps.{Dict, dict_get, dict_put, dict_pop}

abbrev pub keys {ℓ} : {V : Type ℓ} → Dict V → List ℕ
keys [] = []
keys ((k, v) ∷ d) = k ∷ keys d

abbrev pub values : Dict ℕ → List ℕ
values [] = []
values ((k, v) ∷ d) = v ∷ values d

pub keys-put {ℓ} :
    {V : Type ℓ} (d : Dict V) (k : ℕ) (v : V)
    → dict_get d k ≡ none
    → keys (dict_put d k v) ≡ keys d ++ (k ∷ [])
unfolding dict_get dict_put
keys-put [] k v h = refl
keys-put ((j, w) ∷ d) k v h = ground (arith, keys-put d k v)

pub values-put :
    (d : Dict ℕ) (k v : ℕ) → dict_get d k ≡ none → values (dict_put d k v) ≡ values d ++ (v ∷ [])
unfolding dict_get dict_put
values-put [] k v h = refl
values-put ((j, w) ∷ d) k v h = ground (arith, values-put d k v)

pub get-absent {ℓ} : {V : Type ℓ} (d : Dict V) (k : ℕ) → dict_get d k ≡ none → times (keys d) k ≡ 0
unfolding dict_get
get-absent [] k h = refl
get-absent ((j, w) ∷ d) k h = ground (arith, get-absent d k)

pub get-value : (d : Dict ℕ) (k v : ℕ) → dict_get d k ≡ some v → 1 ≤ times (values d) v
unfolding dict_get
get-value [] k v h = ground arith
get-value ((j, w) ∷ d) k v h = ground (arith, get-value d k v)

pub pop-absent {ℓ} : {V : Type ℓ} (d : Dict V) (k : ℕ) → times (keys d) k ≡ 0 → dict_pop d k ≡ d
unfolding dict_pop
pop-absent [] k h = refl
pop-absent ((j, w) ∷ d) k h = ground (arith, pop-absent d k)

pub keys-pop {ℓ} :
    {V : Type ℓ} (d : Dict V) (k : ℕ)
    → times (keys d) k ≤ 1
    → keys (dict_pop d k) ≡ without (keys d) k
unfolding dict_pop without
keys-pop [] k h = refl
keys-pop ((j, w) ∷ d) k h = ground (arith, keys-pop d k, pop-absent d k)

-- Where keys and values are distinct, taking a key out takes its value out.
pub values-pop :
    (d : Dict ℕ) (k v : ℕ)
    → times (keys d) k ≤ 1
    → times (values d) v ≤ 1
    → dict_get d k ≡ some v
    → values (dict_pop d k) ≡ without (values d) v
unfolding dict_get dict_pop without
values-pop [] k v h i e = ground arith
values-pop ((j, w) ∷ d) k v h i e =
    ground (arith, values-pop d k v, pop-absent d k, get-value d k v)

pub keys-put_there {ℓ} :
    {V : Type ℓ} (d : Dict V) (k : ℕ) (v w : V)
    → dict_get d k ≡ some w
    → keys (dict_put d k v) ≡ keys d
unfolding dict_get dict_put
keys-put_there [] k v w h = ground arith
keys-put_there ((j, x) ∷ d) k v w h = ground (arith, keys-put_there d k v w)
