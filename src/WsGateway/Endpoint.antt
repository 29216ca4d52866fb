-- ===== src/WsGateway/Endpoint.antt =====
-- chat/ws_gateway/routes/ws.py: `websocket_endpoint` up to the start of the session's tasks, and what
-- it does when the session has ended. Other endpoints run at each await; what they do to the manager
-- and to the address in Redis is an argument, numbered by the await. A connection that is lost while a
-- frame of closing is sent, which `lock_session` swallows, and the cancellation of an endpoint are not
-- modelled.
pub mod Table
use tiny_chat_microservices.Prelude.{
  ℕ, String, Bool, true, false, ◌&&◌, ◌||◌, not, Option, none, some, List, [], ◌∷◌, ◌++◌, Outcome,
  returns, raises, if◌then◌else◌, dict_has,
}
use tiny_chat_microservices.Redis.{Awaited, finished, timed_out}
use tiny_chat_microservices.WsGateway.Manager.{
  Manager, get, create_session, recycle_session, reuse_session, retrieve_session, start_waiting,
  stop_waiting,
}
use tiny_chat_microservices.WsGateway.Session.{
  Upgrade, Answer, negotiate_kick_off, check_multi_devices, activate, deactivate,
}

-- What the endpoint meets: the flag `shutdown` at its readings, the answers of Redis, of the push
-- service (`none` if it is not found) and of the client, whether a frame can be sent, whether the
-- session that is kicked off is recycled in time, and what the other endpoints do.
pub record Answers : Type 0 where
  pub shutdown : ℕ → Bool
  pub hget : Awaited Bool
  pub hset : Awaited ℕ
  pub hdel : Awaited ℕ
  pub push : Option Bool
  pub answer : Answer
  pub sent : Bool
  pub recycled : Bool
  pub others : ℕ → Manager → Manager
  pub others_online : ℕ → Bool → Bool

-- The manager, whether Redis has this gateway's address for the user's device, the codes of closing,
-- and the session whose tasks are started, if it comes to that.
pub record World : Type 0 where
  pub manager : Manager
  pub online : Bool
  pub closes : List ℕ
  pub started : Option ℕ

module _ (a : Answers) (key : ℕ) where
  abbrev others_run : ℕ → World → World
  others_run n w = record w { manager = a.others n w.manager; online = a.others_online n w.online }

  abbrev close : List ℕ → World → World
  close codes w = record w { closes = w.closes ++ codes }

  -- `ws_manager.recycle_session(session_key)` and `return`
  abbrev leave : World → World
  leave w = record w { manager = recycle_session w.manager key }

  -- The frame to the client, and what follows if it cannot be sent.
  send_frame : ℕ → World → World
  send_frame session w =
      if a.sent
      then record w { started = some session }
      else (let left = leave w in
          others_run 4 (record left { online = if deactivate a.hdel then false else left.online }))

  activated : ℕ → World → Bool × List ℕ → World
  unfolding send_frame
  activated session w (true, codes) =
      (let w1 = others_run 2 (record w { online = true }) in
        if a.shutdown 2 then leave w1 else others_run 3 (send_frame session w1))
  activated session w (false, codes) = leave (others_run 2 (close codes w))

  push_answered : ℕ → World → Option Bool → World
  unfolding activated
  push_answered session w none = close (1013 ∷ []) (leave w)
  push_answered session w (some false) = close (1013 ∷ []) (leave (others_run 1 w))
  push_answered session w (some true) =
      (let w1 = others_run 1 w in
        if a.shutdown 3
        then close (1013 ∷ []) (leave w1)
        else activated session w1 (activate a.hset))

  -- The branches on `is_kicked`.
  checked : ℕ → World → Option Bool × List ℕ → World
  unfolding push_answered
  checked session w (none, codes) = activated session (close codes w) (activate a.hset)
  checked session w (some true, codes) = push_answered session (close codes w) a.push
  checked session w (some false, codes) = leave (close codes w)

  -- No session has the key.
  unfoldable pub new_session : World → World
  unfolding checked
  new_session w =
      (let made = create_session w.manager key in
        checked made.0 (others_run 0 (record w { manager = made.1 }))
          (check_multi_devices a.hget a.answer))

  unfoldable pub reused : World → Option ℕ × Manager → World
  reused w (none, m) = close (1011 ∷ []) (record w { manager = m })
  reused w (some session, m) =
      if a.sent then others_run 6 (record w { manager = m; started = some session }) else record w {
        manager = retrieve_session (a.others 6 m) key;
        online = a.others_online 6 w.online;
      }

  -- `task_manager.cancel` and `wait_for_recycle`: in time, the endpoint of the other connection has
  -- recycled the session; its state is not SESSION_CLOSED, so that it leaves Redis as it is.
  unfoldable pub kick_off : World → World
  unfolding reused
  kick_off w =
      if dict_has w.manager.sessions key
      then (if a.recycled
          then reused (record w { online = a.others_online 5 w.online })
              (reuse_session (stop_waiting (recycle_session (start_waiting w.manager key) key) key)
                key)
          else close (1013 ∷ []) (record w {
            manager = stop_waiting (a.others 5 (start_waiting w.manager key)) key;
            online = a.others_online 5 w.online;
          }))
      else close (1013 ∷ []) w

  unfoldable pub negotiated : World → Bool × List ℕ → World
  unfolding kick_off
  negotiated w (true, codes) = kick_off (others_run 8 (close codes w))
  negotiated w (false, codes) = others_run 8 (close codes w)

  -- A session has the key.
  unfoldable pub take_over : World → World
  unfolding negotiated
  take_over w = negotiated w (negotiate_kick_off a.answer)

  with_session : World → Option ℕ → World
  unfolding new_session take_over
  with_session w none = new_session w
  with_session w (some session) = take_over w

  -- `websocket_upgrade`, where `none` is a connection that is lost meanwhile
  upgraded : World → Option (Outcome Upgrade) → World
  unfolding with_session
  upgraded w none = others_run 7 w
  upgraded w (some (raises exc)) = close (1011 ∷ []) (others_run 7 w)
  upgraded w (some (returns upgrade)) =
      (let w1 = others_run 7 (close upgrade.closes w) in
        if upgrade.success then with_session w1 (get w1.manager key) else w1)

  -- Under the lock that `redis_setnx` answered: taken, held by another device, or not answered.
  unfoldable pub under_lock : Option Bool → Option (Outcome Upgrade) → World → World
  unfolding upgraded
  under_lock (some true) upgrade w = if a.shutdown 1 then w else upgraded w upgrade
  under_lock (some false) upgrade w = close (4008 ∷ []) w
  under_lock none upgrade w = close (1013 ∷ []) w

-- How the read task of a session ends.
pub data Ending : Type 0 where
  is_cancelled disconnected too_fast failed completed : Ending

-- Whether the state is SESSION_CLOSED in the last `finally`, and the code of closing.
unfoldable pub ended : (shutdown : Bool) → Ending → Bool × List ℕ
ended true is_cancelled = (true, [])
ended false is_cancelled = (false, 4007 ∷ [])
ended shutdown disconnected = (true, [])
ended shutdown too_fast = (true, 4005 ∷ [])
ended shutdown failed = (true, 1011 ∷ [])
ended shutdown completed = (true, 1000 ∷ [])

finish : Awaited ℕ → World → Bool × List ℕ → World
finish hdel w (closed, codes) = record w {
  closes = w.closes ++ codes;
  online = if closed && deactivate hdel then false else w.online;
}

-- The end of `websocket_endpoint`; the session was recycled when the read task was done.
unfoldable pub end_session :
    (shutdown : Bool) → (key : ℕ) → Ending → (hdel : Awaited ℕ) → World → World
unfolding ended finish
end_session shutdown key ending hdel w =
    finish hdel (record w { manager = recycle_session w.manager key }) (ended shutdown ending)
