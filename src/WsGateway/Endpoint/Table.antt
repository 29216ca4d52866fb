-- ===== src/WsGateway/Endpoint/Table.antt =====
-- What `websocket_endpoint` leaves in the manager and in Redis before it starts the tasks.
use tiny_chat_microservices.Prelude.{
  ℕ, ◌≡◌, refl, sym, ap, ◌∙◌, ◌⊎◌, ◌||◌, ◌==◌, dict_has, arith, inl, inr, Bool, true, false, Option,
  none, some, List, Bool-cases, Outcome, returns, raises,
}
use tiny_chat_microservices.WsGateway.Manager.{
  Manager, get, create_session, reuse_found, reuse_session, start_waiting, stop_waiting,
}
use tiny_chat_microservices.WsGateway.Manager.Lookup.{
  get-recycle_session, get-create_session, get-retrieve_session, get-reuse_found, get-start_waiting,
}
use tiny_chat_microservices.WsGateway.Session.{
  Upgrade, check_multi_devices, activate, negotiate_kick_off,
}
use tiny_chat_microservices.WsGateway.Endpoint.{
  Answers, World, others_run, close, leave, send_frame, activated, push_answered, checked,
  new_session, reused, kick_off, negotiated, take_over, with_session, upgraded, under_lock,
}

-- The awaits at which a session that had the key before still runs: it may end there. At the others
-- the lock keeps the other endpoints away from the key.
abbrev pub may_end : ℕ → Bool
may_end n = n == 5 || n == 7 || n == 8

pub record Others (a : Answers) (key : ℕ) : Type 0 where
  pub keeps : (n : ℕ) → may_end n ≡ false → (m : Manager) → get (a.others n m) key ≡ get m key
  pub ends :
      (n : ℕ) (m : Manager) → (get (a.others n m) key ≡ get m key) ⊎ (get (a.others n m) key ≡ none)

-- How an endpoint's setup ends, with what the table had for the key and whether Redis had the address
-- before. It has started the tasks of the session that the table has for the key, and either Redis has
-- what the others made of the address that was written or, for a session that was taken over, what they
-- made of the content before; or it has started none, and the table has for the key what it had or
-- nothing.
pub data Settled (others_online : ℕ → Bool → Bool) (before : Option ℕ) (online : Bool) (key : ℕ)
    (w : World) : Type 0 where
  running :
      (s : ℕ)
      → w.started ≡ some s
      → get w.manager key ≡ some s
      → w.online ≡ others_online 3 (others_online 2 true)
      → Settled others_online before online key w
  taken :
      (s t : ℕ)
      → before ≡ some t
      → w.started ≡ some s
      → get w.manager key ≡ some s
      → w.online ≡ others_online 6 (others_online 5 (others_online 8 (others_online 7 online)))
      → Settled others_online before online key w
  idle :
      w.started ≡ none
      → (get w.manager key ≡ before) ⊎ (get w.manager key ≡ none)
      → Settled others_online before online key w

module _ (a : Answers) (key : ℕ) (others : Others a key) (before : Option ℕ) (online : Bool) where
  abbrev left :
      (w : World)
      → w.started ≡ none
      → get w.manager key ≡ none
      → Settled a.others_online before online key w
  left w e h = idle e (inr h)

  keeps : (n : ℕ) → may_end n ≡ false → (m : Manager) → get (a.others n m) key ≡ get m key
  keeps = others.keeps

  leave-Settled :
      (w : World) → w.started ≡ none → Settled a.others_online before online key (leave a key w)
  leave-Settled w e = idle e (inr (get-recycle_session w.manager key))

  send_frame-Settled :
      (s : ℕ) (w : World)
      → w.started ≡ none
      → w.online ≡ a.others_online 2 true
      → get w.manager key ≡ some s
      → Settled a.others_online before online key (others_run a key 3 (send_frame a key s w))
  unfolding send_frame
  send_frame-Settled s w e on h = elim (Bool-cases a.sent) [
    | inl t ↦
        rw (t, send_frame) (running s refl (keeps 3 refl w.manager ∙ h) (ap (a.others_online 3) on))
    | inr f ↦
        rw (f, send_frame)
          (idle e (inr (keeps 3 refl _ ∙ keeps 4 refl _ ∙ get-recycle_session w.manager key)))
  ]

  activated-Settled :
      (s : ℕ) (w : World) (r : Bool × List ℕ)
      → w.started ≡ none
      → get w.manager key ≡ some s
      → Settled a.others_online before online key (activated a key s w r)
  unfolding activated
  activated-Settled s w (false, codes) e h =
      leave-Settled (others_run a key 2 (close a key codes w)) e
  activated-Settled s w (true, codes) e h = elim (Bool-cases (a.shutdown 2)) [
    | inl t ↦ rw t (leave-Settled (others_run a key 2 (record w { online = true })) e)
    | inr f ↦ rw f (
        send_frame-Settled s (others_run a key 2 (record w { online = true })) e refl
          (keeps 2 refl w.manager ∙ h))
  ]

  push_answered-Settled :
      (s : ℕ) (w : World) (o : Option Bool)
      → w.started ≡ none
      → get w.manager key ≡ some s
      → Settled a.others_online before online key (push_answered a key s w o)
  unfolding push_answered
  push_answered-Settled s w none e h = idle e (inr (get-recycle_session w.manager key))
  push_answered-Settled s w (some false) e h = idle e (inr (get-recycle_session _ key))
  push_answered-Settled s w (some true) e h = elim (Bool-cases (a.shutdown 3)) [
    | inl t ↦ rw t (idle e (inr (get-recycle_session _ key)))
    | inr f ↦ rw f (
        activated-Settled s (others_run a key 1 w) (activate a.hset) e (keeps 1 refl w.manager ∙ h))
  ]

  checked-Settled :
      (s : ℕ) (w : World) (r : Option Bool × List ℕ)
      → w.started ≡ none
      → get w.manager key ≡ some s
      → Settled a.others_online before online key (checked a key s w r)
  unfolding checked
  checked-Settled s w (none, codes) e h =
      activated-Settled s (close a key codes w) (activate a.hset) e h
  checked-Settled s w (some true, codes) e h =
      push_answered-Settled s (close a key codes w) a.push e h
  checked-Settled s w (some false, codes) e h = leave-Settled (close a key codes w) e

  new_session-Settled :
      (w : World)
      → w.started ≡ none
      → Settled a.others_online before online key (new_session a key w)
  unfolding new_session
  new_session-Settled w e =
      checked-Settled (create_session w.manager key).0 _ (check_multi_devices a.hget a.answer) e
        (keeps 0 refl _ ∙ get-create_session w.manager key)

  -- The session was recycled in time; whatever idle session stands under the key is taken.
  reused-Settled :
      (w : World) (m : Manager) (t : ℕ) (o : Option ℕ)
      → w.started ≡ none
      → w.online ≡ a.others_online 5 (a.others_online 8 (a.others_online 7 online))
      → before ≡ some t
      → get m key ≡ none
      → Settled a.others_online before online key (reused a key w (reuse_found m key o))
  unfolding reused reuse_found
  reused-Settled w m t none e on b h = idle e (inr h)
  reused-Settled w m t (some s) e on b h = elim (Bool-cases a.sent) [
    | inl y ↦
        rw y
          (taken s t b refl (keeps 6 refl _ ∙ get-reuse_found m key s) (ap (a.others_online 6) on))
    | inr n ↦ rw n (idle e (inr (get-retrieve_session _ key)))
  ]

  abbrev Had : Manager → Type 0
  Had m = (get m key ≡ before) ⊎ (get m key ≡ none)

  after : (n : ℕ) (m : Manager) → Had m → Had (a.others n m)
  after n m (inr h) = inr (elim (others.ends n m) [ inl e ↦ e ∙ h | inr e ↦ e ])
  after n m (inl h) = elim (others.ends n m) [ inl e ↦ inl (e ∙ h) | inr e ↦ inr e ]

  started_waiting : (m : Manager) → Had m → Had (start_waiting m key)
  started_waiting m (inl h) = inl (get-start_waiting m key key ∙ h)
  started_waiting m (inr h) = inr (get-start_waiting m key key ∙ h)

  kick_off-Settled :
      (w : World) (t : ℕ)
      → w.started ≡ none
      → w.online ≡ a.others_online 8 (a.others_online 7 online)
      → before ≡ some t
      → (get w.manager key ≡ before) ⊎ (get w.manager key ≡ none)
      → Settled a.others_online before online key (kick_off a key w)
  unfolding kick_off reuse_session stop_waiting
  kick_off-Settled w t e on b h = elim (Bool-cases (dict_has w.manager.sessions key)) [
    | inr n ↦ rw n (idle e h)
    | inl y ↦ elim (Bool-cases a.recycled) [
      | inl r ↦
          rw (y, r)
            (reused-Settled (record w { online = a.others_online 5 w.online }) _ t _ e
              (ap (a.others_online 5) on) b (get-recycle_session _ key))
      | inr r ↦ rw (y, r) (idle e (after 5 _ (started_waiting w.manager h)))
    ]
  ]

  negotiated-Settled :
      (w : World) (t : ℕ) (r : Bool × List ℕ)
      → w.started ≡ none
      → w.online ≡ a.others_online 7 online
      → before ≡ some t
      → Had w.manager
      → Settled a.others_online before online key (negotiated a key w r)
  unfolding negotiated
  negotiated-Settled w t (true, codes) e on b h =
      kick_off-Settled (others_run a key 8 (close a key codes w)) t e (ap (a.others_online 8) on) b
        (after 8 w.manager h)
  negotiated-Settled w t (false, codes) e on b h = idle e (after 8 w.manager h)

  with_session-Settled :
      (w : World) (o : Option ℕ)
      → w.started ≡ none
      → w.online ≡ a.others_online 7 online
      → get w.manager key ≡ o
      → Had w.manager
      → Settled a.others_online before online key (with_session a key w o)
  unfolding with_session take_over
  with_session-Settled w none e on g h = new_session-Settled w e
  with_session-Settled w (some t) e on g (inr h) = absurd (ground (arith, g, h))
  with_session-Settled w (some t) e on g (inl h) =
      negotiated-Settled w t (negotiate_kick_off a.answer) e on (sym h ∙ g) (inl h)

  upgraded-Settled :
      (w : World) (upgrade : Option (Outcome Upgrade))
      → w.started ≡ none
      → w.online ≡ online
      → Had w.manager
      → Settled a.others_online before online key (upgraded a key w upgrade)
  unfolding upgraded
  upgraded-Settled w none e on h = idle e (after 7 w.manager h)
  upgraded-Settled w (some (raises exc)) e on h = idle e (after 7 w.manager h)
  upgraded-Settled w (some (returns upgrade)) e on h = elim (Bool-cases upgrade.success) [
    | inr f ↦ rw f (idle e (after 7 w.manager h))
    | inl t ↦
        rw t (with_session-Settled _ _ e (ap (a.others_online 7) on) refl (after 7 w.manager h))
  ]

-- Where a session of the key may end meanwhile but no other endpoint takes the key, where the endpoint is
-- not cancelled and no connection is lost while a frame of closing is sent, the setup of an endpoint
-- ends in one of three ways. It starts the tasks of a session that the table has for the key, after it
-- has written the address of this gateway to Redis, which nobody but the other endpoints has changed
-- since; or it does so for a session that it takes over, and leaves Redis to the others; or it starts
-- none and leaves the table as it was or without a session for the key. So no failure of Redis, of the
-- push service or of the client's answer leaves a session behind that nobody runs.
pub under_lock-Settled :
    (a : Answers) (key : ℕ) (locked : Option Bool) (upgrade : Option (Outcome Upgrade)) (w : World)
    → Others a key
    → w.started ≡ none
    → Settled a.others_online (get w.manager key) w.online key (under_lock a key locked upgrade w)
unfolding under_lock
under_lock-Settled a key none upgrade w others e = idle e (inl refl)
under_lock-Settled a key (some false) upgrade w others e = idle e (inl refl)
under_lock-Settled a key (some true) upgrade w others e = elim (Bool-cases (a.shutdown 1)) [
  | inl t ↦ rw t (idle e (inl refl))
  | inr f ↦
      rw f (upgraded-Settled a key others (get w.manager key) w.online w upgrade e refl (inl refl))
]
