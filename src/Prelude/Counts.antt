-- ===== src/Prelude/Counts.antt =====
-- How often a number stands in a list.
use Prim.Native.Nat.{ℕ, ◌+◌, ◌-◌}
use mathlib.Core.Path.{◌≡◌}
use mathlib.Core.List.{List, [], ◌∷◌, ◌++◌}
use native.Mathlib.Omega.{arith}
use tiny_chat_microservices.Prelude.Tests.{◌==◌, if◌then◌else◌}

abbrev pub times : List ℕ → ℕ → ℕ
times [] i = 0
times (j ∷ c) i = (if j == i then 1 else 0) + times c i

-- A list without the first place of a number.
unfoldable pub without : List ℕ → ℕ → List ℕ
without [] i = []
without (j ∷ c) i = let rest = without c i in if j == i then c else j ∷ rest

pub times-without :
    (c : List ℕ) (i k : ℕ) → times (without c i) k ≡ (if i == k then times c k - 1 else times c k)
unfolding without
times-without [] i k = ground arith
times-without (j ∷ c) i k = ground (arith, times-without c i k)

pub times-last :
    (c : List ℕ) (i j : ℕ) → times (c ++ (i ∷ [])) j ≡ times c j + (if i == j then 1 else 0)
times-last [] i j = ground arith
times-last (k ∷ c) i j = ground (arith, times-last c i j)
