-- ===== src/Downstream/Delivery.antt =====
-- downstream_service.py between its client and the message storage: what a successful call means.
use tiny_chat_microservices.Prelude.{
  ℕ, ◌≡◌, ◌≤◌, refl, sym, subst, ap, ◌∙◌, Bool, true, Option, none, some, List, [], ◌∷◌, arith,
  Outcome, returns, raises, some-value,
}
use tiny_chat_microservices.Rpc
use tiny_chat_microservices.Rpc.{CallResult, Channel, timeout}
use tiny_chat_microservices.Storage
use tiny_chat_microservices.Storage.{
  CassMsgCode, cass_msg_success, Written, wrote, cancelled, failed, Row, CassInboxReply,
  filter_rows,
}
use tiny_chat_microservices.Storage.Inbox.{copies, first_copy, filter_rows-first}
use tiny_chat_microservices.Downstream.{
  write_to_inbox, handle_inbox, PushAnswers, pushes, consume_event, deliver_read_event,
  read_model_success, read_inbox, PullInboxReply, pulled, pull_inbox_msg,
}
use tiny_chat_microservices.Gateway.Inbox.{answer, messages, pull_status, pull_result, pull_inbox}
use tiny_chat_microservices.Worker.FriendEvents.{acks}

returned : {A : Type 0} → Outcome (Option A) → Option A
returned (returns o) = o
returned (raises e) = none

returns-value : {A : Type 0} (x y : A) → returns (some x) ≡ returns (some y) → x ≡ y
unfolding returned
returns-value x y e = some-value x y (ap returned e)

-- An answer with messages comes from a call that succeeded.
pull_result-messages :
    (result : CallResult PullInboxReply) (rows : List Row)
    → pull_result result ≡ answer 200 (messages rows)
    → result ≡ Rpc.success (record { status = read_model_success; messages = rows })
unfolding pull_result pull_status
pull_result-messages result rows e = ground arith

pulled-success :
    (o : Option (List Row)) (rows : List Row)
    → pulled o ≡ record { status = read_model_success; messages = rows }
    → o ≡ some rows
unfolding pulled
pulled-success o rows e = ground arith

read_inbox-some :
    (result : CallResult CassInboxReply) (rows : List Row)
    → read_inbox result ≡ some rows
    → result ≡ Rpc.success (record { code = cass_msg_success; messages = rows })
unfolding read_inbox
read_inbox-some result rows e = ground arith

-- The storage answers with success only after a read.
served-rows :
    (read : Written (List Row)) (context_cancelled : Bool) (rows : List Row)
    → Storage.read_inbox read context_cancelled
      ≡ returns (some (record { code = cass_msg_success; messages = rows }))
    → (found : List Row) × (read ≡ wrote found) × (rows ≡ filter_rows [] found)
unfolding Storage.read_inbox filter_rows
served-rows (wrote []) context_cancelled rows e = ([], refl, ground arith)
served-rows (wrote (row ∷ found)) context_cancelled rows e = (row ∷ found, refl, ground arith)
served-rows cancelled context_cancelled rows e = ground arith
served-rows failed context_cancelled rows e = ground arith

module _ (to_storage : Channel CassInboxReply) (to_downstream : Channel PullInboxReply)
    (inbox : (uid last : ℕ) → Written (List Row)) where
  -- The message storage as the downstream service calls it, and this one as the gateway calls it
  unfoldable pub storage_service :
      (context_cancelled : Bool) → (uid last : ℕ) → CallResult CassInboxReply
  storage_service context_cancelled uid last =
      to_storage.deliver (Storage.read_inbox (inbox uid last) context_cancelled)

  unfoldable pub downstream_service :
      (context_cancelled : Bool) → (uid last : ℕ) → CallResult PullInboxReply
  unfolding storage_service
  downstream_service context_cancelled uid last =
      to_downstream.deliver
        (returns (some (pull_inbox_msg (some (storage_service context_cancelled)) uid last)))

  pull_inbox_msg-rows :
      (context_cancelled : Bool) (uid last : ℕ) (rows : List Row)
      → pull_inbox_msg (some (storage_service context_cancelled)) uid last
        ≡ record { status = read_model_success; messages = rows }
      → (found : List Row) × (inbox uid last ≡ wrote found) × (rows ≡ filter_rows [] found)
  unfolding pull_inbox_msg storage_service
  pull_inbox_msg-rows context_cancelled uid last rows e =
      served-rows (inbox uid last) context_cancelled rows
        (to_storage.faithful _ _ (read_inbox-some _ rows (pulled-success _ rows e)))

  -- Messages that the gateway hands to a user are what the storage read for this user behind the id of
  -- the form: for every row, no message of its sender is there twice, and the row that is handed over
  -- for its message is the first that was read.
  pub pull_inbox_sound :
      (context_cancelled : Bool) (uid : ℕ) (form : Option (Option ℕ)) (rows : List Row) (row : Row)
      → pull_inbox uid form (some (downstream_service context_cancelled))
        ≡ answer 200 (messages rows)
      → (last : ℕ) × (found : List Row) × (form ≡ some (some last))
        × (inbox uid last ≡ wrote found)
        × (copies rows row ≤ 1)
        × (first_copy rows row ≡ first_copy found row)
  unfolding pull_inbox downstream_service
  pull_inbox_sound context_cancelled uid none rows row e = ground arith
  pull_inbox_sound context_cancelled uid (some none) rows row e = ground arith
  pull_inbox_sound context_cancelled uid (some (some last)) rows row e =
      let (found, read, kept) =
        pull_inbox_msg-rows context_cancelled uid last rows
          (returns-value _ _ (to_downstream.faithful _ _ (pull_result-messages _ rows e))) in
      let (once, first) = filter_rows-first found row in
      (
        last,
        found,
        refl,
        read,
        subst (λ l. copies l row ≤ 1) (sym kept) once,
        ap (λ l. first_copy l row) kept ∙ first,
      )

write_to_inbox-true :
    (result : CallResult CassMsgCode)
    → write_to_inbox result ≡ true
    → result ≡ Rpc.success cass_msg_success
unfolding write_to_inbox
write_to_inbox-true result e = ground arith

written-success :
    (write : Written Bool) (context_cancelled : Bool)
    → Storage.write_to_inbox write context_cancelled ≡ returns (some cass_msg_success)
    → (b : Bool) × (write ≡ wrote b)
unfolding Storage.write_to_inbox
written-success (wrote b) context_cancelled e = (b, refl)
written-success cancelled context_cancelled e = ground arith
written-success failed context_cancelled e = ground arith

-- A message of the read model is acknowledged to the broker only if Cassandra wrote it to the inbox and
-- the push came to its end; and a worker that calls the service for it is told success in the same case.
pub consume_event-success :
    (to_storage : Channel CassMsgCode) (write : Written Bool) (context_cancelled : Bool)
    (a : PushAnswers)
    → consume_event (some (to_storage.deliver (Storage.write_to_inbox write context_cancelled))) a
      ≡ acks
    → (b : Bool) × (write ≡ wrote b)
      × (pushes a ≡ true)
      × (deliver_read_event true
            (some (to_storage.deliver (Storage.write_to_inbox write context_cancelled)))
            a
          ≡ read_model_success)
unfolding consume_event deliver_read_event handle_inbox
consume_event-success to_storage write context_cancelled a e =
    let result : CallResult CassMsgCode =
      to_storage.deliver (Storage.write_to_inbox write context_cancelled) in
    let done : write_to_inbox result ≡ true = ground (arith, e) in
    let (b, wrote_b) =
      written-success write context_cancelled
        (to_storage.faithful _ cass_msg_success (write_to_inbox-true result done)) in
    (b, wrote_b, ground (arith, e, done), ground (arith, e, done))
