-- ===== src/Upstream/Forgets.antt =====
-- What the tracer remembers of the messages that were published before (upstream_service.py).
use tiny_chat_microservices.Prelude.{
  ℕ, ◌≡◌, refl, ap, ◌∙◌, Bool, true, false, Option, none, some, List, [], ◌∷◌, Dict, dict_get,
  get-put, arith, ◌↔◌, ◌==◌, Bool-cases, inl, inr,
}
use tiny_chat_microservices.Rpc
use tiny_chat_microservices.Rpc.{CallResult, timeout}
use tiny_chat_microservices.Upstream.{
  Message, MessageMetadata, Cache, of_sender, touch, start_found, on_publish_start, failure_found,
  on_publish_failure, Check, conflict_check, check_found, id, publish_message, DeliverUpMsgReply,
  Left, delivery_success, deliver_message, checked, publish_with, published_reply,
  reply_unless_cancelled,
}

-- What happens to the cache while messages are delivered, in any order.
pub data Event : Type 0 where
  publish_start : ℕ → Message → Event
  publish_failure : Message → Event
  check : (now later : ℕ) → Option MessageMetadata → Message → Event

abbrev pub after : Event → Cache → Cache
after (publish_start now message) cache = on_publish_start cache now message
after (publish_failure message) cache = (on_publish_failure cache message).1
after (check now later waited message) cache = (conflict_check cache now later waited message).1

abbrev pub run : List Event → Cache
run [] = []
run (event ∷ events) = after event (run events)

-- The cache holds no metadata.
abbrev IsBlank : Cache → Type 0
IsBlank cache = (s d : ℕ) → dict_get (of_sender cache s) d ≡ none

of_sender-touch : (cache : Cache) (s j : ℕ) → of_sender (touch cache s) j ≡ of_sender cache j
unfolding of_sender
of_sender-touch cache s j = elim (Bool-cases (s == j)) [
  | inl e ↦ let p : s ≡ j = ground arith in ground (arith, p, get-put cache s j (of_sender cache s))
  | inr e ↦ ground (arith, get-put cache s j (of_sender cache s))
]

touch-IsBlank : (cache : Cache) (s : ℕ) → IsBlank cache → IsBlank (touch cache s)
touch-IsBlank cache s b j d =
    ap (λ (inner : Dict MessageMetadata). dict_get inner d) (of_sender-touch cache s j) ∙ b j d

failure_found-IsBlank :
    (cache : Cache) (m : Message) (o : Option MessageMetadata)
    → o ≡ none
    → IsBlank cache
    → IsBlank (failure_found cache m o).1
unfolding failure_found
failure_found-IsBlank cache m none e b = touch-IsBlank cache m.sender_id b
failure_found-IsBlank cache m (some x) e b = absurd (ground arith)

after-IsBlank : (event : Event) (cache : Cache) → IsBlank cache → IsBlank (after event cache)
unfolding on_publish_start on_publish_failure conflict_check start_found failure_found
after-IsBlank (publish_start now m) cache b =
    rw (b m.sender_id m.delivery_id) (touch-IsBlank cache m.sender_id b)
after-IsBlank (publish_failure m) cache b =
    failure_found-IsBlank cache m (dict_get (of_sender cache m.sender_id) m.delivery_id)
      (b m.sender_id m.delivery_id) b
after-IsBlank (check now later waited m) cache b = touch-IsBlank cache m.sender_id b

run-IsBlank : (events : List Event) → IsBlank (run events)
unfolding of_sender dict_get
run-IsBlank [] = λ s d. refl
run-IsBlank (event ∷ events) = after-IsBlank event (run events) (run-IsBlank events)

-- Whatever was published and checked before, `conflict_check` never finds a message: it returns 0.
pub conflict_check-run :
    (events : List Event) (now later : ℕ) (waited : Option MessageMetadata) (message : Message)
    → (conflict_check (run events) now later waited message).0 ≡ id 0
unfolding conflict_check check_found
conflict_check-run events now later waited message =
    rw (run-IsBlank events message.sender_id message.delivery_id) refl

-- The success of a call: the id of the answer, and the message that the stream has got.
abbrev pub Success : Option DeliverUpMsgReply × Left → Message → ℕ → Type 0
Success result message m =
    (result.0 ≡ some (record { code = delivery_success; message_id = m }))
    × (result.1.published ≡ some (record message { message_id = m }))

abbrev Granted : Bool → Bool → Option (CallResult ℕ) → ℕ → Type 0
Granted closing confirmed id_service m =
    (id_service ≡ some (Rpc.success m)) × (closing ≡ false) × (confirmed ≡ true)

publish_with-Success :
    (closing confirmed : Bool) (now : ℕ) (result : CallResult ℕ) (message : Message) (cache : Cache)
    (m : ℕ)
    → let answer = publish_with closing confirmed false now result message cache in
      Success (reply_unless_cancelled closing confirmed false now answer) message m
      ↔ Granted closing confirmed (some result) m
unfolding publish_with published_reply publish_message reply_unless_cancelled
publish_with-Success true confirmed now (Rpc.success k) message cache m =
    (λ h. absurd (ground arith), λ h. absurd (ground arith))
publish_with-Success false false now (Rpc.success k) message cache m =
    (λ h. absurd (ground arith), λ h. absurd (ground arith))
publish_with-Success false true now (Rpc.success k) message cache m =
    (λ h. ground arith, λ h. ground arith)
publish_with-Success closing confirmed now (Rpc.failure f i) message cache m =
    (λ h. absurd (ground arith), λ h. absurd (ground arith))

checked-Success :
    (closing confirmed : Bool) (now : ℕ) (id_service : Option (CallResult ℕ)) (message : Message)
    (cache : Cache) (m : ℕ)
    → Success (checked closing confirmed false now id_service message (id 0, cache)) message m
      ↔ Granted closing confirmed id_service m
unfolding checked reply_unless_cancelled
checked-Success closing confirmed now none message cache m =
    (λ h. absurd (ground arith), λ h. absurd (ground arith))
checked-Success closing confirmed now (some result) message cache m =
    publish_with-Success closing confirmed now result message cache m

-- Whatever was delivered before, also the same message, a call that is not cancelled answers success
-- with an id and hands the stream the message under this id exactly if the id service has just given
-- the id, the service is not closing and the stream confirms in time.
pub deliver_message-run :
    (events : List Event) (closing confirmed : Bool) (now later : ℕ)
    (waited : Option MessageMetadata) (id_service : Option (CallResult ℕ)) (message : Message)
    (m : ℕ)
    → Success
        (deliver_message closing confirmed false now later waited id_service message (run events))
        message
        m
      ↔ ((id_service ≡ some (Rpc.success m)) × (closing ≡ false) × (confirmed ≡ true))
unfolding deliver_message checked reply_unless_cancelled
deliver_message-run events closing confirmed now later waited id_service message m =
    let cache = (conflict_check (run events) now later waited message).1 in
    let same : deliver_message closing confirmed false now later waited id_service message
          (run events)
        ≡ checked closing confirmed false now id_service message (id 0, cache) =
      ap (λ (c : Check). checked closing confirmed false now id_service message (c, cache))
        (conflict_check-run events now later waited message) in
    rw same (checked-Success closing confirmed now id_service message cache m)
