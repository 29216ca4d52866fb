-- ===== src/Messages/Stream/Timers.antt =====
-- The timers of the messages that wait for their acknowledgement.
use tiny_chat_microservices.Prelude.{
  some-value, ℕ, ◌+◌, ◌%◌, ◌<◌, ◌≡◌, ◌≢◌, refl, ap, subst, ◌∙◌, Bool, true, false, Option, none,
  some, Bool-cases, inl, inr, List, Dict, dict_get, dict_put, dict_pop, dict_has, get-put, get-pop,
  if◌then◌else◌, arith, ℤ,
}
use tiny_chat_microservices.Messages.Stream.{
  OutboundMessageLog, MessageStream, new_stream, max_int64, borrow_virtual_local_id, sender_write,
  start_expire_timer, started, write_numbered, write, cancel_timer, on_acked, on_timeout, read,
  schedule_ack, on_processed,
}
use tiny_chat_microservices.Messages.AckQueue.{AckQueue}

-- A message waits exactly when it has a timer, and the event loop has that timer, for that message.
record Inv (s : MessageStream) : Type 0 where
  known : (h d : ℕ) → dict_get s.live h ≡ some d → dict_get s.timers d ≡ some h
  runs : (d h : ℕ) → dict_get s.timers d ≡ some h → dict_get s.live h ≡ some d
  waits : (d : ℕ) → dict_has s.waiters d ≡ dict_has s.timers d
  below : (h d : ℕ) → dict_get s.live h ≡ some d → h < s.handles

started-Inv :
    (s : MessageStream) (d c : ℕ) (message : OutboundMessageLog)
    → Inv s
    → dict_has s.waiters d ≡ false
    → Inv (
        start_expire_timer (record s { delivery_id = c; waiters = dict_put s.waiters d message }) d)
unfolding start_expire_timer
started-Inv s d c message v e = record {
  known = λ h x a. ground (
    arith,
    get-put s.live s.handles h d,
    get-put s.timers d x s.handles,
    v.known h x,
    v.waits d,
    v.waits x,
  );
  runs = λ x h a. ground (
    arith,
    get-put s.live s.handles h d,
    get-put s.timers d x s.handles,
    v.runs x h,
    v.below h x,
  );
  waits =
      λ x. ground (arith, get-put s.waiters d x message, get-put s.timers d x s.handles, v.waits x);
  below = λ h x a. ground (arith, get-put s.live s.handles h d, v.below h x);
}

over-Inv :
    (s : MessageStream) (h d : ℕ)
    → Inv s
    → dict_get s.timers d ≡ some h
    → Inv (record s {
      waiters = dict_pop s.waiters d;
      timers = dict_pop s.timers d;
      live = dict_pop s.live h;
    })
over-Inv s h d v e = record {
  known =
      λ k x a. ground (arith, get-pop s.live h k, get-pop s.timers d x, v.known k x, v.runs d h);
  runs = λ x k a. ground (
    arith,
    get-pop s.live h k,
    get-pop s.timers d x,
    v.runs x k,
    v.known h x,
    v.known h d,
    v.runs d h,
  );
  waits = λ x. ground (arith, get-pop s.waiters d x, get-pop s.timers d x, v.waits x);
  below = λ k x a. ground (arith, get-pop s.live h k, v.below k x);
}

absent-Inv :
    (s : MessageStream) (d : ℕ)
    → Inv s
    → dict_get s.timers d ≡ none
    → Inv (record s { waiters = dict_pop s.waiters d; timers = dict_pop s.timers d })
absent-Inv s d v e = record {
  known = λ k x a. ground (arith, get-pop s.timers d x, v.known k x);
  runs = λ x k a. ground (arith, get-pop s.timers d x, v.runs x k);
  waits = λ x. ground (arith, get-pop s.waiters d x, get-pop s.timers d x, v.waits x);
  below = v.below;
}

-- A call of a stream. `write` takes no number that waits; where it makes the number itself, fewer than
-- 2 ^ 64 messages wait.
pub data Step (s : MessageStream) : MessageStream → Type 0 where
  borrows : Step s (borrow_virtual_local_id s).1
  writes :
      (message : OutboundMessageLog) (r : ℕ × MessageStream)
      → write s message ≡ some r
      → dict_has s.waiters r.0 ≡ false
      → Step s r.1
  acked : (delivery_id : ℕ) → Step s (on_acked s delivery_id)
  expires :
      (handle delivery_id : ℕ)
      → dict_get s.live handle ≡ some delivery_id
      → Step s (on_timeout s handle delivery_id).2
  reads : (log : ℕ) → Step s (read s log)
  acknowledges : Step s (schedule_ack s).1
  processed :
      (channel_number : ℕ) (delivery_id : ℤ) → Step s (on_processed s channel_number delivery_id)

pub data Reach : MessageStream → Type 0 where
  start : Reach new_stream
  next : {s t : MessageStream} → Reach s → Step s t → Reach t

-- What the other fields are does not matter.
same-Inv :
    (s : MessageStream) (c : ℕ) (pending : List ℕ) (b : Bool) (log : Dict AckQueue)
    → Inv s
    → Inv (record s { delivery_id = c; pending = pending; ack_timer_set = b; operation_log = log })
same-Inv s c pending b log v = record {
  known = v.known;
  runs = v.runs;
  waits = v.waits;
  below = v.below;
}

write-Inv :
    (s : MessageStream) (message : OutboundMessageLog) (o : Option ℕ) (r : ℕ × MessageStream)
    → Inv s
    → write_numbered s message o ≡ some r
    → dict_has s.waiters r.0 ≡ false
    → Inv r.1
unfolding write_numbered sender_write
write-Inv s message none r v e f =
    let d = (s.delivery_id + 1) % max_int64 in
    let p = some-value (started (sender_write s message)) r e in
    subst (λ (x : ℕ × MessageStream). Inv x.1) p
      (started-Inv s d d (record message { delivery_id = some d }) v
        (ap (λ (x : ℕ × MessageStream). dict_has s.waiters x.0) p ∙ f))
write-Inv s message (some d) r v e f = elim (Bool-cases (dict_has s.waiters d)) [
  | inl t ↦ absurd (ground arith)
  | inr t ↦
      let one = started (d, record s { waiters = dict_put s.waiters d message }) in
      subst (λ (x : ℕ × MessageStream). Inv x.1)
        (some-value one r (subst (λ b. (if b then none else some one) ≡ some r) t e))
        (started-Inv s d s.delivery_id message v t)
]

on_acked-Inv :
    (s : MessageStream) (d : ℕ) (o : Option ℕ)
    → dict_get s.timers d ≡ o
    → Inv s
    → Inv
        (cancel_timer (record s { waiters = dict_pop s.waiters d; timers = dict_pop s.timers d }) o)
unfolding cancel_timer
on_acked-Inv s d none e v = absent-Inv s d v e
on_acked-Inv s d (some h) e v = over-Inv s h d v e

Step-Inv : {s t : MessageStream} → Step s t → Inv s → Inv t
unfolding borrow_virtual_local_id write on_acked on_timeout read schedule_ack on_processed
Step-Inv {s} borrows v = same-Inv s _ _ _ _ v
Step-Inv {s} (writes message r e f) v = write-Inv s message message.delivery_id r v e f
Step-Inv {s} (acked d) v = on_acked-Inv s d (dict_get s.timers d) refl v
Step-Inv {s} (expires h d e) v = over-Inv s h d v (v.known h d e)
Step-Inv {s} (reads log) v = same-Inv s _ _ _ _ v
Step-Inv {s} acknowledges v = same-Inv s _ _ _ _ v
Step-Inv {s} (processed c d) v = same-Inv s _ _ _ _ v

Reach-Inv : {s : MessageStream} → Reach s → Inv s
unfolding dict_get
Reach-Inv start = record {
  known = λ h d a. absurd (ground arith);
  runs = λ d h a. absurd (ground arith);
  waits = λ d. refl;
  below = λ h d a. absurd (ground arith);
}
Reach-Inv (next r st) = Step-Inv st (Reach-Inv r)

waiting :
    (s : MessageStream) (d h : ℕ)
    → Inv s
    → dict_get s.timers d ≡ some h
    → (o : Option OutboundMessageLog) → dict_get s.waiters d ≡ o
    → (message : OutboundMessageLog) × (dict_get s.waiters d ≡ some message)
waiting s d h v t none e = absurd (ground (arith, v.waits d))
waiting s d h v t (some m) e = (m, e)

acked-gone :
    (s : MessageStream) (d h : ℕ)
    → dict_get s.timers d ≡ some h
    → Inv s
    → (k : ℕ) → dict_get (on_acked s d).live k ≢ some d
unfolding on_acked cancel_timer
acked-gone s d h t v k e = ground (arith, t, get-pop s.live h k, v.known k d)

-- In every state that the calls of a stream can reach, where no two waiting messages have one number,
-- a timer that the event loop still has is of a message that waits: its `on_timeout` gives the
-- handler that message, and its last `pop` does not raise. When the message is acknowledged, the
-- event loop has no timer for it any more, so that no message times out after its acknowledgement.
pub on_timeout-on_acked :
    {s : MessageStream} (handle delivery_id : ℕ)
    → Reach s
    → dict_get s.live handle ≡ some delivery_id
    → ((message : OutboundMessageLog) × ((on_timeout s handle delivery_id).0 ≡ some message))
      × ((on_timeout s handle delivery_id).1 ≡ true)
      × ((h : ℕ) → dict_get (on_acked s delivery_id).live h ≢ some delivery_id)
unfolding on_timeout
on_timeout-on_acked {s} h d r e =
    let v = Reach-Inv r in
    let t = v.known h d e in
    (waiting s d h v t (dict_get s.waiters d) refl, ground arith, acked-gone s d h t v)
