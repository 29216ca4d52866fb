-- ===== src/Connections/Get.antt =====
-- grpc_service.py: `GrpcStubGroup.get` and `GrpcStubGroup.initialize`.
use native.Mathlib.Nat.{mod-lt, mod-add-mod, mod-eq_of_lt, add-mod_right}
use tiny_chat_microservices.Prelude.{
  ℕ, zero, suc, ◌+◌, ◌-◌, ◌%◌, ◌<◌, ◌≡◌, refl, ap, sym, subst, ◌∙◌, Bool, true, false, Option, none,
  some, List, [], ◌∷◌, map, Outcome, returns, raises, usage_error, not_implemented, if◌then◌else◌,
  leb, arith, Bool-cases, Option-cases, inl, inr,
}
use tiny_chat_microservices.Connections.{Stub, create_stub, StubGroup, is_health, any_healthy}

abbrev pub length : List Stub → ℕ
length [] = 0
length (s ∷ stubs) = suc (length stubs)

abbrev pub nth : List Stub → ℕ → Option Stub
nth [] i = none
nth (s ∷ stubs) zero = some s
nth (s ∷ stubs) (suc i) = nth stubs i

-- A group before `add` looks at its channels; `created` is what `insecure_channel` gives for each of
-- its stubs.
unfoldable pub initialize : List (Outcome ℕ) → StubGroup
unfolding create_stub
initialize created = record {
  state = record {
    idle = true;
    subject_rebuild = false;
    subject_down = false;
    etcd_report_up = false;
    etcd_report_down = false;
  };
  stubs = map create_stub created;
  closed = false;
  round_robin_index = 0;
}

module _ (channel_ready : ℕ → Bool) where
  -- The loop of `get` from `idx` on, with `left` rounds left, and `idx + 1` at its end.
  unfoldable pub search : List Stub → (idx left : ℕ) → Option Stub × ℕ
  unfolding is_health
  search stubs idx zero = (none, idx)
  search stubs idx (suc left) =
      let rest = search stubs (idx + 1) left in
      elim (nth stubs (idx % length stubs)) [
        | none ↦ rest
        | some s ↦ if is_health channel_ready s then (some s, idx + 1) else rest
      ]

  -- `get`, without a domain (`none`), or with one, which a group with one class of stubs refuses
  unfoldable pub get : StubGroup → Option ℕ → StubGroup × Outcome (Option Stub)
  unfolding search
  get g domain = if g.closed then (g, raises usage_error) else elim domain [
    | none ↦
        let r = search g.stubs g.round_robin_index (length g.stubs) in
        (record g { round_robin_index = r.1 }, returns (r.0))
    | some d ↦ (g, raises not_implemented)
  ]

  abbrev pub found : Option Stub → Bool
  found none = false
  found (some s) = is_health channel_ready s

  -- A search that finds nothing has met no READY stub on its way.
  search-none :
      (stubs : List Stub) (idx left i : ℕ)
      → (search stubs idx left).0 ≡ none
      → i < left
      → found (nth stubs ((idx + i) % length stubs)) ≡ false
  unfolding search
  search-none stubs idx zero i e h = ground arith
  search-none stubs idx (suc left) zero e h = ground arith
  search-none stubs idx (suc left) (suc i) e h = ground (arith, search-none stubs (idx + 1) left i)

  -- What a search finds is READY, and one of the stubs.
  unfoldable pub Finds : List Stub → Option Stub → Type 0
  Finds stubs none = any_healthy channel_ready stubs ≡ false
  Finds stubs (some s) = (is_health channel_ready s ≡ true) × ((j : ℕ) × (nth stubs j ≡ some s))

  search-some :
      (stubs : List Stub) (idx left : ℕ) (s : Stub)
      → (search stubs idx left).0 ≡ some s
      → (is_health channel_ready s ≡ true) × ((j : ℕ) × (nth stubs j ≡ some s))
  unfolding search
  search-some stubs idx zero s e = ground arith
  search-some stubs idx (suc left) s e = elim (Option-cases (nth stubs (idx % length stubs))) [
    | inl missing ↦ search-some stubs (idx + 1) left s (ground (arith, missing))
    | inr (t, there) ↦ elim (Bool-cases (is_health channel_ready t)) [
      | inl healthy ↦
          (ground (arith, there, healthy), (idx % length stubs, ground (arith, there, healthy)))
      | inr lost ↦ search-some stubs (idx + 1) left s (ground (arith, there, lost))
    ]
  ]

  any_healthy-nth :
      (stubs : List Stub)
      → ((j : ℕ) → j < length stubs → found (nth stubs j) ≡ false)
      → any_healthy channel_ready stubs ≡ false
  unfolding any_healthy
  any_healthy-nth [] h = refl
  any_healthy-nth (s ∷ stubs) h =
      ground (arith, h 0 (omega arith), any_healthy-nth stubs λ j l. h (suc j) (omega arith))

  -- Every place is met once in a round, wherever it begins.
  mod_reaches : (idx n j : ℕ) → j < n → (i : ℕ) × (i < n) × ((idx + i) % n ≡ j)
  mod_reaches idx n j h = elim (Bool-cases (leb (idx % n) j)) [
    | inl e ↦ (j - idx % n, ground arith, same (j - idx % n) j (ground arith) ∙ mod-eq_of_lt h)
    | inr e ↦ (
      j + n - idx % n,
      ground (arith, mod-lt idx {m = n} (ground arith)),
      same (j + n - idx % n) (j + n) (ground (arith, mod-lt idx {m = n} (ground arith)))
          ∙ add-mod_right j n
          ∙ mod-eq_of_lt h,
    )
  ]
    where
      same : (i k : ℕ) → idx % n + i ≡ k → (idx + i) % n ≡ k % n
      same i k e = sym (mod-add-mod idx n i) ∙ ap (λ m. m % n) e

  search-Finds :
      (stubs : List Stub) (idx : ℕ) (o : Option Stub)
      → (search stubs idx (length stubs)).0 ≡ o
      → Finds stubs o
  unfolding Finds
  search-Finds stubs idx (some s) e = search-some stubs idx (length stubs) s e
  search-Finds stubs idx none e = any_healthy-nth stubs λ j l.
      let (i, less, reached) = mod_reaches idx (length stubs) j l in
      subst (λ k. found (nth stubs k) ≡ false) reached
        (search-none stubs idx (length stubs) i e less)

  -- A group that is open gives one of its stubs that is READY, and gives none only if none is READY.
  pub get-Finds :
      (g : StubGroup)
      → g.closed ≡ false
      → (o : Option Stub) × ((get g none).1 ≡ returns o) × Finds g.stubs o
  unfolding get
  get-Finds g opened = (
    (search g.stubs g.round_robin_index (length g.stubs)).0,
    ground (arith, opened),
    search-Finds g.stubs g.round_robin_index _ refl,
  )
