-- ===== src/Worker/Outbox/Delivery.antt =====
-- Where a message is once the stream's consumer and the dead letter worker are done with it.
use tiny_chat_microservices.Prelude.{
  ℕ, ◌≡◌, ◌≢◌, not, ◌↔◌, ◌⊎◌, refl, Bool, true, false, Option, some, List, [], ◌∷◌, ◌||◌, arith,
}
use tiny_chat_microservices.Redis.{Awaited}
use tiny_chat_microservices.Worker.Pacer.{
  DeliveryInfo, FilterState, new_item, can_ignore, retry_required,
}
use tiny_chat_microservices.Worker.Outbox.{
  DlqAction, dlq_all, dlq_session_only, dlq_inbox_only, Answers, on_message, event_handler,
  user_online_check, ready_to_push,
}

-- Whether an action stands for a write to the session, and for a notice to the read model.
abbrev pub for_session : DlqAction → Bool
for_session dlq_inbox_only = false
for_session _ = true

abbrev pub for_inbox : DlqAction → Bool
for_inbox dlq_session_only = false
for_inbox _ = true

abbrev pub any : (DlqAction → Bool) → List DlqAction → Bool
any p [] = false
any p (x ∷ xs) = p x || any p xs

-- The entries of the dead letter queue have been taken by the worker until each was acknowledged:
-- what the last handling of every entry answered, and what it did.
pub data Drained : List DlqAction → Bool → Bool → Type 0 where
  nothing_left : Drained [] false false
  entry :
      {letters : List DlqAction} {session inbox : Bool} (action : DlqAction) (a : Answers)
      → (event_handler a action).acked ≡ true
      → Drained letters session inbox
      → Drained
          (action ∷ letters)
          ((event_handler a action).session || session)
          ((event_handler a action).inbox || inbox)

-- A message that is not ignored is acknowledged by the consumer at once. If the dead letter queue
-- takes every entry, then each of the two sinks that has not been reached is named by an entry, and
-- only such a sink is.
pub on_message_accounts :
    (a : Answers) (state : FilterState) (info : DeliveryInfo) (d : ℕ)
    → state ≢ can_ignore
    → ((action : DlqAction) → a.dead_letter_queue action ≡ true)
    → ((on_message false a state info d).0.acked ≡ true)
      × (any for_session (on_message false a state info d).0.dead_letters
          ≡ not (on_message false a state info d).0.session)
      × (any for_inbox (on_message false a state info d).0.dead_letters
          ≡ not (on_message false a state info d).0.inbox)
unfolding on_message
on_message_accounts a new_item info d n q = (
  refl,
  ground (arith, q dlq_inbox_only, q dlq_session_only),
  ground (arith, q dlq_inbox_only, q dlq_session_only),
)
on_message_accounts a can_ignore info d n q = absurd (n refl)
on_message_accounts a retry_required info d n q =
    (refl, ground (arith, q dlq_all), ground (arith, q dlq_all))

-- An entry of the dead letter queue is acknowledged exactly if every sink that it names is reached.
pub event_handler_acks :
    (a : Answers) (action : DlqAction)
    → ((event_handler a action).acked ≡ true) ↔ (
        (for_session action ≡ true → (event_handler a action).session ≡ true)
        × (for_inbox action ≡ true → (event_handler a action).inbox ≡ true))
unfolding event_handler
event_handler_acks a dlq_all =
    (λ h. (λ x. ground arith, λ x. ground arith), λ h. ground (arith, h.0 refl, h.1 refl))
event_handler_acks a dlq_session_only = (λ h. (λ x. h, λ x. absurd (ground arith)), λ h. h.0 refl)
event_handler_acks a dlq_inbox_only = (λ h. (λ x. absurd (ground arith), λ x. h), λ h. h.1 refl)

or-or :
    (x y p q : Bool) → (x ≡ true → p ≡ true) → (y ≡ true → q ≡ true) → x || y ≡ true → p || q ≡ true
or-or true y true q f g h = refl
or-or true y false q f g h = absurd (ground (arith, f refl))
or-or false y true q f g h = refl
or-or false y false q f g h = g h

not-or : (x y z : Bool) → z ≡ not x → (z ≡ true → y ≡ true) → x || y ≡ true
not-or true y z e f = refl
not-or false y z e f = f e

Drained-reaches :
    (letters : List DlqAction) (session inbox : Bool)
    → Drained letters session inbox
    → (any for_session letters ≡ true → session ≡ true)
      × (any for_inbox letters ≡ true → inbox ≡ true)
Drained-reaches letters session inbox nothing_left =
    (λ h. absurd (ground arith), λ h. absurd (ground arith))
Drained-reaches letters session inbox
      (entry {letters = rest} {session = s} {inbox = i} action a k r) =
    let (hs, hi) = Drained-reaches rest s i r in
    let (ks, ki) = (event_handler_acks a action).0 k in
    (
      or-or (for_session action) (any for_session rest) (event_handler a action).session s ks hs,
      or-or (for_inbox action) (any for_inbox rest) (event_handler a action).inbox i ki hi,
    )

-- End to end: a message that is not ignored, with a dead letter queue that takes every entry and is
-- drained, has been written to its session and announced to the read model, by the consumer or by
-- the dead letter worker.
pub delivered :
    (a : Answers) (state : FilterState) (info : DeliveryInfo) (d : ℕ) (session inbox : Bool)
    → state ≢ can_ignore
    → ((action : DlqAction) → a.dead_letter_queue action ≡ true)
    → Drained (on_message false a state info d).0.dead_letters session inbox
    → ((on_message false a state info d).0.session || session ≡ true)
      × ((on_message false a state info d).0.inbox || inbox ≡ true)
delivered a state info d session inbox n q r =
    let (k, s, i) = on_message_accounts a state info d n q in
    let (rs, ri) =
      Drained-reaches (on_message false a state info d).0.dead_letters session inbox r in
    (
      not-or (on_message false a state info d).0.session session
          (any for_session (on_message false a state info d).0.dead_letters) s rs,
      not-or (on_message false a state info d).0.inbox inbox
          (any for_inbox (on_message false a state info d).0.dead_letters) i ri,
    )

-- `ready_to_push` returns true exactly if the message was pushed, or was queued, or Redis
-- answered that the user has no gateway.
pub ready_to_push_result :
    (answer : Awaited ℕ) (push_service : Option Bool) (queue : Bool)
    → ((ready_to_push answer push_service queue).result ≡ true) ↔ (
        ((ready_to_push answer push_service queue).pushed ≡ true)
        ⊎ ((ready_to_push answer push_service queue).queued ≡ true)
        ⊎ (user_online_check answer ≡ some false))
unfolding ready_to_push
ready_to_push_result answer push_service queue = (λ h. ground arith, λ h. ground arith)
