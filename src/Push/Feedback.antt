-- ===== src/Push/Feedback.antt =====
-- What a feedback of a gateway does to the waiters of its channel.
use tiny_chat_microservices.Prelude.{
  ℕ, zero, suc, ◌+◌, ◌-◌, ◌%◌, ◌≤◌, ◌<◌, ◌≡◌, refl, ◌∙◌, ◌^◌, Bool, true, false, ◌||◌, Option, none,
  some, arith, dict_get, dict_put, get-put, Dict, ap, ◌==◌, Bool-cases, Option-cases, inl, inr,
}
use tiny_chat_microservices.Push.{
  PubStatus, Waiter, EventChannel, set_unless_done, confirm_found, confirm, confirm_all,
  on_delivery, publish, max_int32, set_result,
}

-- Whether the channel keeps waiter w under the id d, and under an id of the n from start on.
abbrev pub is_it : ℕ → Option ℕ → Bool
is_it w none = false
is_it w (some v) = v == w

abbrev pub is_named : Dict ℕ → ℕ → (start n : ℕ) → Bool
is_named confirmations w start zero = false
is_named confirmations w start (suc n) =
    is_it w (dict_get confirmations start) || is_named confirmations w (start + 1) n

-- A waiter that is not done takes the status if the feedback names it.
abbrev pub settled : Bool → PubStatus → Option PubStatus → Option PubStatus
settled named status (some done) = some done
settled true status none = some status
settled false status none = none

pub settled-false : (status : PubStatus) (r : Option PubStatus) → settled false status r ≡ r
settled-false status none = refl
settled-false status (some done) = refl

pub settled_twice :
    (a b : Bool) (status : PubStatus) (r : Option PubStatus)
    → settled b status (settled a status r) ≡ settled (a || b) status r
settled_twice a b status (some done) = refl
settled_twice true true status none = refl
settled_twice true false status none = refl
settled_twice false b status none = refl

module _ (status : PubStatus) where
  set_unless_done-other :
      (channel : EventChannel) (v w : ℕ) (o : Option Waiter)
      → v == w ≡ false
      → dict_get (set_unless_done status channel v o).waiters w ≡ dict_get channel.waiters w
  unfolding set_unless_done set_result
  set_unless_done-other channel v w none q = refl
  set_unless_done-other channel v w (some x) q = elim (Option-cases x.result) [
    | inl e ↦
        rw (e, set_result)
          (ground (arith, get-put channel.waiters v w (record x { result = some status })))
    | inr (done, e) ↦ rw e refl
  ]

  set_unless_done-same :
      (channel : EventChannel) (w i : ℕ) (r : Option PubStatus)
      → dict_get channel.waiters w ≡ some (record { delivery_id = i; result = r })
      → dict_get
          (set_unless_done status channel w (some (record { delivery_id = i; result = r }))).waiters
          w
        ≡ some (record { delivery_id = i; result = settled true status r })
  unfolding set_unless_done set_result
  set_unless_done-same channel w i none h =
      ground (arith, get-put channel.waiters w w (record { delivery_id = i; result = some status }))
  set_unless_done-same channel w i (some done) h = h

  module _ (channel : EventChannel) (w i : ℕ) (r : Option PubStatus)
      (h : dict_get channel.waiters w ≡ some (record { delivery_id = i; result = r })) where
    unnamed :
        dict_get channel.waiters w
        ≡ some (record { delivery_id = i; result = settled false status r })
    unnamed = rw (settled-false status r) h

    confirm_found-waiter :
        (o : Option ℕ)
        → dict_get (confirm_found status channel o).waiters w
          ≡ some (record { delivery_id = i; result = settled (is_it w o) status r })
    unfolding confirm_found
    confirm_found-waiter none = unnamed
    confirm_found-waiter (some v) = elim (Bool-cases (v == w)) [
      | inl q ↦ let p : v ≡ w = ground arith in rw (q, p, h) (set_unless_done-same channel w i r h)
      | inr q ↦ rw (q, set_unless_done-other channel v w (dict_get channel.waiters v) q) unnamed
    ]

    confirm-waiter :
        (d : ℕ)
        → dict_get (confirm status channel d).waiters w
          ≡ some (record {
            delivery_id = i;
            result = settled (is_it w (dict_get channel.confirmations d)) status r;
          })
    unfolding confirm
    confirm-waiter d = confirm_found-waiter (dict_get channel.confirmations d)

  set_unless_done-confirmations :
      (channel : EventChannel) (w : ℕ) (o : Option Waiter)
      → (set_unless_done status channel w o).confirmations ≡ channel.confirmations
  unfolding set_unless_done set_result
  set_unless_done-confirmations channel w none = refl
  set_unless_done-confirmations channel w (some x) = elim (Option-cases x.result) [
    | inl e ↦ rw (e, set_result) refl
    | inr (done, e) ↦ rw e refl
  ]

  confirm_found-confirmations :
      (channel : EventChannel) (o : Option ℕ)
      → (confirm_found status channel o).confirmations ≡ channel.confirmations
  unfolding confirm_found
  confirm_found-confirmations channel none = refl
  confirm_found-confirmations channel (some w) =
      set_unless_done-confirmations channel w (dict_get channel.waiters w)

  pub confirm-confirmations :
      (channel : EventChannel) (d : ℕ)
      → (confirm status channel d).confirmations ≡ channel.confirmations
  unfolding confirm
  confirm-confirmations channel d =
      confirm_found-confirmations channel (dict_get channel.confirmations d)

  confirm_all-waiter :
      (channel : EventChannel) (w i : ℕ) (r : Option PubStatus) (start n : ℕ)
      → dict_get channel.waiters w ≡ some (record { delivery_id = i; result = r })
      → dict_get (confirm_all status channel start n).waiters w
        ≡ some (record {
          delivery_id = i;
          result = settled (is_named channel.confirmations w start n) status r;
        })
  unfolding confirm_all
  confirm_all-waiter channel w i r start zero h = unnamed channel w i r h
  confirm_all-waiter channel w i r start (suc n) h =
      let named = is_it w (dict_get channel.confirmations start) in
      let rest =
        confirm_all-waiter (confirm status channel start) w i (settled named status r) (start + 1) n
          (confirm-waiter channel w i r h start) in
      let named_later = is_named channel.confirmations w (start + 1) n in
      rest
      ∙ ap
          (λ (c : Dict ℕ). some (record {
            delivery_id = i;
            result = settled (is_named c w (start + 1) n) status (settled named status r);
          }))
          (confirm-confirmations channel start)
      ∙ ap (λ (x : Option PubStatus). some (record { delivery_id = i; result = x }))
          (settled_twice named named_later status r)

is_named-put :
    (confirmations : Dict ℕ) (d w n : ℕ)
    → n ≡ 1
    → is_named (dict_put confirmations d w) w d n ≡ true
is_named-put confirmations d w n e = rw e (ground (arith, get-put confirmations d d w))

-- A feedback for the ids from start to before end gives its status to exactly those waiters that
-- the channel keeps under one of these ids and that are not done; every other waiter stays.
pub on_delivery-waiter :
    (channel : EventChannel) (status : PubStatus) (start end w i : ℕ) (r : Option PubStatus)
    → dict_get channel.waiters w ≡ some (record { delivery_id = i; result = r })
    → dict_get (on_delivery channel status start end).waiters w
      ≡ some (record {
        delivery_id = i;
        result = settled (is_named channel.confirmations w start (end - start)) status r;
      })
unfolding on_delivery
on_delivery-waiter channel status start end w i r h =
    confirm_all-waiter status channel w i r start (end - start) h

-- The waiters of a channel have numbers below the number of those that were made.
unfoldable pub Numbered : EventChannel → Type 0
Numbered channel = (w : ℕ) → channel.created ≤ w → dict_get channel.waiters w ≡ none

-- What `publish` returns is answered by its id, where the waiters are numbered as they are made: the id
-- is below 2 ^ 32, no waiter had the number of the new one, which is not done, the waiters stay
-- numbered, and a feedback for this id alone, before another event is published, gives it its status.
pub publish-on_delivery :
    (channel : EventChannel) (status : PubStatus)
    → Numbered channel
    → let (after, w) = publish channel in
      (dict_get channel.waiters w ≡ none)
      × Numbered after
      × (after.delivery_id < 2 ^ 32)
      × (dict_get after.waiters w
          ≡ some (record { delivery_id = after.delivery_id; result = none }))
      × (dict_get (on_delivery after status after.delivery_id (after.delivery_id + 1)).waiters w
          ≡ some (record { delivery_id = after.delivery_id; result = some status }))
unfolding publish Numbered
publish-on_delivery channel status numbered =
    let d = (channel.delivery_id + 1) % max_int32 in
    let w = channel.created in
    let waiter : Waiter = record { delivery_id = d; result = none } in
    let kept : dict_get (publish channel).0.waiters w ≡ some waiter =
      ground (arith, get-put channel.waiters w w waiter) in
    (
      numbered w (omega arith),
      (λ k h. ground (arith, get-put channel.waiters w k waiter, numbered k)),
      omega arith,
      kept,
      on_delivery-waiter (publish channel).0 status d (d + 1) w d none kept
          ∙ ap (λ (b : Bool). some (record { delivery_id = d; result = settled b status none }))
              (is_named-put channel.confirmations d w (d + 1 - d) (omega arith)),
    )
