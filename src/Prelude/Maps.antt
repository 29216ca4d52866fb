-- ===== src/Prelude/Maps.antt =====
-- Python's `dict` with numbers for keys, as an association list without duplicates of a key.
-- The modelled code that iterates over a dict does so in insertion order, which the list keeps.
use Prim.Native.Nat.{ℕ}
use mathlib.Core.Path.{◌≡◌, refl}
use mathlib.Core.Bool.{Bool, true, false}
use mathlib.Core.Option.{Option, none, some}
use mathlib.Core.List.{List, [], ◌∷◌}
use native.Mathlib.Omega.{arith}
use tiny_chat_microservices.Prelude.Tests.{◌==◌, if◌then◌else◌}

abbrev pub Dict {ℓ} : Type ℓ → Type ℓ
Dict V = List (ℕ × V)

module _ {ℓ} {V : Type ℓ} where
  -- d.get(k)
  unfoldable pub dict_get : Dict V → ℕ → Option V
  dict_get [] k = none
  dict_get ((j, v) ∷ d) k = if j == k then some v else dict_get d k

  -- d[k] = v, which keeps the place of a key that is there
  unfoldable pub dict_put : Dict V → ℕ → V → Dict V
  dict_put [] k v = (k, v) ∷ []
  dict_put ((j, w) ∷ d) k v =
      let rest = dict_put d k v in if j == k then (j, v) ∷ d else (j, w) ∷ rest

  -- d.pop(k, None), for its effect
  unfoldable pub dict_pop : Dict V → ℕ → Dict V
  dict_pop [] k = []
  dict_pop ((j, w) ∷ d) k = let rest = dict_pop d k in if j == k then rest else (j, w) ∷ rest

  -- k in d
  abbrev pub dict_has : Dict V → ℕ → Bool
  dict_has d k = elim (dict_get d k) [ none ↦ false | some v ↦ true ]

  pub get-empty : (k : ℕ) → dict_get [] k ≡ none
  unfolding dict_get
  get-empty k = refl

  pub get-put :
      (d : Dict V) (k j : ℕ) (v : V)
      → dict_get (dict_put d k v) j ≡ (if k == j then some v else dict_get d j)
  unfolding dict_get dict_put
  get-put [] k j v = refl
  get-put ((i, w) ∷ d) k j v = ground (arith, get-put d k j v)

  pub get-pop :
      (d : Dict V) (k j : ℕ) → dict_get (dict_pop d k) j ≡ (if k == j then none else dict_get d j)
  unfolding dict_get dict_pop
  get-pop [] k j = ground arith
  get-pop ((i, w) ∷ d) k j = ground (arith, get-pop d k j)
