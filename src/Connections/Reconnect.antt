-- ===== src/Connections/Reconnect.antt =====
-- grpc_service.py: `GrpcStub.reconnect`, hibernation and `wait_for_ready`.
use tiny_chat_microservices.Prelude.{
  ℕ, suc, ◌-◌, ◌≡◌, Bool, true, false, ◌&&◌, Option, none, some, List, [], ◌∷◌, Outcome, returns,
  raises, attribute_error, if◌then◌else◌, ltb, leb, ◌==◌, arith,
}
use tiny_chat_microservices.Connections.{Stub}

-- How `wait_for_ready` under `move_on_after` ends: the channel is READY, `channel_ready` raised, or the
-- time is over.
pub data Wait : Type 0 where
  channel_is_ready channel_failed timed_out : Wait

-- A call of `create_func` and what follows it; the attribute is missing unless `create_bound`
unfoldable pub rebuild : Stub → Outcome ℕ → Stub × Outcome Bool
rebuild s created =
    if s.create_bound
    then elim created [
      | returns channel ↦ (record s { channel = some channel; is_new_one = true }, returns true)
      | raises e ↦ (s, raises e)
    ]
    else (s, raises attribute_error)

-- `if self.retries < 3: self.retries = 3`
unfoldable pub restore : Stub → Stub
restore s = record s { retries = if ltb s.retries 3 then 3 else s.retries }

unfoldable pub wait_ready : Stub → Outcome ℕ → Wait → Bool → Stub × Outcome Bool
unfolding rebuild restore
wait_ready s created channel_is_ready is_new_one = (restore s, returns is_new_one)
wait_ready s created channel_failed is_new_one = rebuild s created
wait_ready s created timed_out is_new_one = (s, returns is_new_one)

-- The rest of `reconnect` after a channel was made for a stub that had none.
unfoldable pub after_rebuild : Stub × Outcome Bool → Outcome ℕ → Wait → Stub × Outcome Bool
unfolding wait_ready
after_rebuild (s, returns is_new_one) created wait = wait_ready s created wait is_new_one
after_rebuild (s, raises e) created wait = (s, raises e)

unfoldable pub connect : Stub → Option ℕ → (first second : Outcome ℕ) → Wait → Stub × Outcome Bool
unfolding after_rebuild wait_ready rebuild
connect s none first second wait = after_rebuild (rebuild s first) second wait
connect s (some c) first second wait = wait_ready s second wait false

-- `reconnect`. `first` and `second` are what the two calls of `create_func` give. `retries` is 0 only
-- in hibernation, where it is not decreased: `step-counted` below.
unfoldable pub reconnect : Stub → (first second : Outcome ℕ) → Wait → Stub × Outcome Bool
unfolding connect
reconnect s first second wait =
    if s.hibernating
    then (s, returns false)
    else if s.retries == 1
    then (record s { retries = 0; hibernating = true }, returns false)
    else connect (record s { retries = s.retries - 1 }) s.channel first second wait

-- `exit_hibernate`, which the timer calls. `due` is the assertion `hibernate_timer.when() < monotonic()`;
-- if it fails the stub stays in hibernation.
unfoldable pub exit_hibernate : (due : Bool) → Stub → Stub
exit_hibernate due s = if due then record s { hibernating = false; retries = 3 } else s

-- Whether a wait does not find the channel READY.
unfoldable pub fails : Wait → Bool
fails channel_is_ready = false
fails channel_failed = true
fails timed_out = true

-- Connecting does not begin a hibernation, and gives attempts back only when the channel is READY.
Kept : Wait → Stub → Stub → Type 0
unfolding fails
Kept wait s t =
    (t.hibernating ≡ s.hibernating)
    × (leb s.retries t.retries ≡ true)
    × (leb t.retries 3 ≡ true)
    × (fails wait ≡ true → t.retries ≡ s.retries)

rebuild-Kept :
    (s : Stub) (created : Outcome ℕ) (wait : Wait)
    → leb s.retries 3 ≡ true
    → Kept wait s (rebuild s created).0
unfolding Kept rebuild
rebuild-Kept s (returns c) wait h = ground arith
rebuild-Kept s (raises e) wait h = ground arith

wait_ready-Kept :
    (s : Stub) (created : Outcome ℕ) (wait : Wait) (b : Bool)
    → leb s.retries 3 ≡ true
    → Kept wait s (wait_ready s created wait b).0
unfolding Kept wait_ready restore
wait_ready-Kept s created channel_is_ready b h = ground arith
wait_ready-Kept s created channel_failed b h = rebuild-Kept s created channel_failed h
wait_ready-Kept s created timed_out b h = ground arith

Kept-trans : (wait : Wait) (s t u : Stub) → Kept channel_failed s t → Kept wait t u → Kept wait s u
unfolding Kept
Kept-trans wait s t u h k = ground arith

after_rebuild-Kept :
    (wait : Wait) (s : Stub) (r : Stub × Outcome Bool) (second : Outcome ℕ)
    → leb s.retries 3 ≡ true
    → Kept channel_failed s r.0
    → Kept wait s (after_rebuild r second wait).0
unfolding after_rebuild Kept
after_rebuild-Kept wait s (t, returns b) second h k =
    Kept-trans wait s t (wait_ready t second wait b).0 k (wait_ready-Kept t second wait b k.2)
after_rebuild-Kept wait s (t, raises e) second h k = ground arith

connect-Kept :
    (s : Stub) (channel : Option ℕ) (first second : Outcome ℕ) (wait : Wait)
    → leb s.retries 3 ≡ true
    → Kept wait s (connect s channel first second wait).0
unfolding connect
connect-Kept s none first second wait h =
    after_rebuild-Kept wait s (rebuild s first) second h (rebuild-Kept s first channel_failed h)
connect-Kept s (some c) first second wait h = wait_ready-Kept s second wait false h

-- What can happen to a stub of the monitor: an attempt to connect, or the timer of its hibernation, with
-- whether its assertion holds.
pub data Event : Type 0 where
  attempt : (first second : Outcome ℕ) → Wait → Event
  awake : (due : Bool) → Event

unfoldable pub step : Stub → Event → Stub
unfolding reconnect exit_hibernate
step s (attempt first second wait) = (reconnect s first second wait).0
step s (awake due) = if s.hibernating then exit_hibernate due s else s

unfoldable pub run : Stub → List Event → Stub
unfolding step
run s [] = s
run s (e ∷ events) = run (step s e) events

-- The stub hibernates exactly when it has no attempt left, and never has more than three.
abbrev pub counted : Stub → Bool
counted s = leb s.retries 3 && (if s.hibernating then s.retries == 0 else ltb 0 s.retries)

step-counted : (s : Stub) (e : Event) → counted s ≡ true → counted (step s e) ≡ true
unfolding step reconnect exit_hibernate Kept
step-counted s (attempt first second wait) h =
    ground (arith, connect-Kept (record s { retries = s.retries - 1 }) s.channel first second wait)
step-counted s (awake due) h = ground arith

-- Whatever happens to it, a stub hibernates exactly when it has no attempt left.
pub run-counted :
    (s : Stub) (events : List Event) → counted s ≡ true → counted (run s events) ≡ true
unfolding run
run-counted s [] h = h
run-counted s (e ∷ events) h = run-counted (step s e) events (step-counted s e h)

-- A failing attempt.
pub record Failure : Type 0 where
  pub first : Outcome ℕ
  pub second : Outcome ℕ
  pub wait : Wait
  pub fails_wait : fails wait ≡ true

unfoldable pub attempts : List Failure → List Event
attempts [] = []
attempts (f ∷ failures) = attempt f.first f.second f.wait ∷ attempts failures

abbrev pub length : List Failure → ℕ
length [] = 0
length (f ∷ failures) = suc (length failures)

step-retries :
    (s : Stub) (f : Failure)
    → counted s ≡ true
    → (step s (attempt f.first f.second f.wait)).retries ≡ s.retries - 1
unfolding step reconnect Kept
step-retries s f h = ground (
  arith,
  connect-Kept (record s { retries = s.retries - 1 }) s.channel f.first f.second f.wait,
  f.fails_wait,
)

run-retries :
    (s : Stub) (failures : List Failure)
    → counted s ≡ true
    → (run s (attempts failures)).retries ≡ s.retries - length failures
unfolding run attempts
run-retries s [] h = omega arith
run-retries s (f ∷ failures) h =
    let t : Stub = step s (attempt f.first f.second f.wait) in
    let rest : (run t (attempts failures)).retries ≡ t.retries - length failures =
      run-retries t failures (step-counted s (attempt f.first f.second f.wait) h) in
    ground (arith, step-retries s f h, rest)

-- After as many failing attempts as the stub has left it hibernates, and before that it does not.
pub run-hibernating :
    (s : Stub) (failures : List Failure)
    → counted s ≡ true
    → (run s (attempts failures)).hibernating ≡ leb s.retries (length failures)
run-hibernating s failures h =
    ground (arith, run-retries s failures h, run-counted s (attempts failures) h)
