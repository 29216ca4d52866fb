-- ===== src/Push/Handler.antt =====
-- When a push to the gateways of a user succeeds.
use tiny_chat_microservices.Prelude.{
  ℕ, ◌≡◌, ◌≢◌, refl, Bool, true, false, ◌&&◌, Option, none, some, List, [], ◌∷◌, returns, arith,
  ◌↔◌, inl, inr, Bool-cases, ◌==◌, if◌then◌else◌, ◌∙◌, ap, sym,
}
use tiny_chat_microservices.Redis.{Awaited, finished, timed_out}
use tiny_chat_microservices.Push.{
  PubStatus, push_success, has, distinct, is_success, send, all_registered, any_pending,
  all_success, send_multiple, push_to, push_event,
}

abbrev pub all : (ℕ → Bool) → List ℕ → Bool
all p [] = true
all p (x ∷ xs) = p x && all p xs

has-all : (p : ℕ → Bool) (a : ℕ) (xs : List ℕ) → has a xs ≡ true → all p xs ≡ true → p a ≡ true
unfolding has
has-all p a [] h k = absurd (ground arith)
has-all p a (x ∷ xs) h k = elim (Bool-cases (a == x)) [
  | inl e ↦ let q : a ≡ x = ground arith in rw q (ground arith)
  | inr e ↦ has-all p a xs (ground arith) (ground arith)
]

all-distinct : (p : ℕ → Bool) (xs : List ℕ) → all p (distinct xs) ≡ all p xs
unfolding distinct
all-distinct p [] = refl
all-distinct p (x ∷ xs) = ground (arith, has-all p x (distinct xs), all-distinct p xs)

distinct-empty : (xs : List ℕ) → distinct xs ≡ [] → xs ≡ []
unfolding distinct has
distinct-empty [] h = refl
distinct-empty (x ∷ xs) h = elim (Bool-cases (has x (distinct xs))) [
  | inl e ↦
      let rest : distinct xs ≡ [] = ground arith in
      let none_has : has x (distinct xs) ≡ false = ap (λ (ys : List ℕ). has x ys) rest in
      absurd (ground arith)
  | inr e ↦ absurd (ground arith)
]

module _ (registered : ℕ → Bool) (outcome : ℕ → Option PubStatus) where
  -- An address that has a channel whose gateway confirmed the event.
  abbrev pub confirmed : ℕ → Bool
  confirmed a = registered a && elim (outcome a) [ none ↦ false | some status ↦ is_success status ]

  all-confirmed :
      (addrs : List ℕ)
      → all confirmed addrs ≡ (
          all_registered registered outcome addrs
          && (if any_pending registered outcome addrs
              then false
              else all_success registered outcome addrs))
  all-confirmed [] = refl
  all-confirmed (a ∷ addrs) = ground (arith, all-confirmed addrs)

  send-success : (a : ℕ) → (send registered outcome a ≡ returns push_success) ↔ (confirmed a ≡ true)
  unfolding send
  send-success a = (λ h. ground arith, λ h. ground arith)

  push_to-success :
      (addrs : List ℕ)
      → (push_to registered outcome addrs ≡ returns push_success)
        ↔ ((addrs ≢ []) × (all confirmed addrs ≡ true))
  unfolding push_to send_multiple
  push_to-success [] = (λ h. absurd (ground arith), λ h. absurd (h.0 refl))
  push_to-success (a ∷ []) = (
    λ h. (λ e. absurd (ground arith), ground (arith, (send-success a).0 h)),
    λ h. (send-success a).1 (ground (arith, h.1)),
  )
  push_to-success (a ∷ (b ∷ addrs)) = (
    λ h. (λ e. absurd (ground arith), ground (arith, all-confirmed (a ∷ (b ∷ addrs)))),
    λ h. ground (arith, h.1, all-confirmed (a ∷ (b ∷ addrs))),
  )

  -- An event is pushed with success exactly if Redis gives at least one address of the user, and
  -- every address that it gives has a channel whose gateway confirmed the event in time.
  pub push_event-success :
      (answer : Awaited (List ℕ))
      → (push_event registered outcome answer ≡ returns push_success) ↔ (
          (results : List ℕ) × (answer ≡ finished (some results))
          × (results ≢ [])
          × (all confirmed results ≡ true))
  unfolding push_event
  push_event-success timed_out = (λ h. absurd (ground arith), λ h. absurd (ground arith))
  push_event-success (finished none) = (λ h. absurd (ground arith), λ h. absurd (ground arith))
  push_event-success (finished (some results)) = (
    λ h.
        let (n, k) = (push_to-success (distinct results)).0 h in
        (results, refl, λ e. n (ap distinct e), sym (all-distinct confirmed results) ∙ k),
    λ h.
        let (x, e, n, k) = h in
        let q : results ≡ x = cc in
        (push_to-success (distinct results)).1 (
          λ z. n (sym q ∙ distinct-empty results z),
          all-distinct confirmed results ∙ ap (all confirmed) q ∙ k,
        ),
  )
