-- ===== src/Examples/WsGateway.antt =====
-- Sessions of a WebSocket gateway.
use tiny_chat_microservices.Prelude.{
  ℕ, String, ◌≡◌, refl, inl, true, false, none, some, [], ◌∷◌, dict_get, dict_put, dict_pop,
  returns, pos, arith,
}
use tiny_chat_microservices.Redis.{finished, timed_out}
use tiny_chat_microservices.WsGateway.Manager.{
  Manager, fresh_manager, get, create_session, recycle_session,
}
use tiny_chat_microservices.WsGateway.Manager.Owned.{
  Reach, start, next, create, recycle, Holds, in_use, Holds-unique,
}
use tiny_chat_microservices.WsGateway.Session.{Upgrade, device_mapping, is_gone}
use tiny_chat_microservices.WsGateway.Keys.{session_key-device_mapping}
use tiny_chat_microservices.WsGateway.Endpoint.{Answers, World, under_lock}
use tiny_chat_microservices.WsGateway.Endpoint.Table.{Others, Settled, under_lock-Settled}
use tiny_chat_microservices.Messages.AckQueue.Set.{run, run-IsValid, adds}
use tiny_chat_microservices.Messages.AckQueue.{contains}
use tiny_chat_microservices.Push.{EventChannel, push_success}
use tiny_chat_microservices.Push.Feedback.{settled}
use tiny_chat_microservices.WsGateway.PushChannel.{PushChannel, consumer_feedback}
use tiny_chat_microservices.WsGateway.PushChannel.Feedback.{
  receive_all, Under, receive_all-consumer_feedback,
}

-- A session was made for the key 7, recycled, and given to the key 9.
abbrev moved : Manager
moved = (create_session (recycle_session (create_session fresh_manager 7).1 7) 9).1

moved-Reach : Reach moved
unfolding create_session recycle_session dict_get dict_put dict_pop
moved-Reach = next (next (next start (create 7 refl)) (recycle 7)) (create 9 refl)

moved-Holds : Holds moved 9 0
unfolding create_session recycle_session dict_get dict_put dict_pop
moved-Holds = in_use refl

Holds-unique_example :
    (◌≡◌ {A = ℕ} 9 9) × ((t : ℕ) → get moved 9 ≡ some t → dict_get moved.idle_sessions 9 ≡ none)
Holds-unique_example = Holds-unique {m = moved} 9 9 0 moved-Reach moved-Holds moved-Holds

pc_is_2 : device_mapping "PC" ≡ some 2
unfolding device_mapping
pc_is_2 = refl

session_key-device_mapping_example : (◌≡◌ {A = ℕ} 3 3) × (◌≡◌ {A = String} "PC" "PC")
session_key-device_mapping_example =
    session_key-device_mapping 3 3 "PC" "PC" 2 2 pc_is_2 pc_is_2 refl

-- The address is written, but the client does not take the frame.
abbrev lost_client : Answers
lost_client = record {
  shutdown = λ n. false;
  hget = finished (some false);
  hset = finished (some 1);
  hdel = timed_out;
  push = none;
  answer = is_gone;
  sent = false;
  recycled = false;
  others = λ n m. m;
  others_online = λ n online. false;
}

abbrev first_world : World
first_world = record { manager = fresh_manager; online = false; closes = []; started = none }

abbrev accepted : Upgrade
accepted = record { success = true; accepted = true; closes = [] }

lost_client-Others : Others lost_client 7
lost_client-Others = record { keeps = λ n e m. refl; ends = λ n m. inl refl }

under_lock-Settled_example :
    Settled lost_client.others_online
      (get first_world.manager 7)
      false
      7
      (under_lock lost_client 7 (some true) (some (returns accepted)) first_world)
under_lock-Settled_example =
    under_lock-Settled lost_client 7 (some true) (some (returns accepted)) first_world
      lost_client-Others refl

-- A gateway whose users acknowledged the events 4 and 6, and a push service that waits for 4.
abbrev gateway : PushChannel
gateway = record {
  ack_queue = run (adds (pos 6) ∷ adds (pos 4) ∷ []);
  ack_done = true;
  ack_trigger = true;
  consumers = [];
}

abbrev waiting : EventChannel
waiting = record {
  queue = [];
  confirmations = (4, 0) ∷ [];
  delivery_id = 4;
  waiters = (0, record { delivery_id = 4; result = none }) ∷ [];
  created = 1;
  scheduled = [];
}

waiting-Under : Under waiting.confirmations 0 4
unfolding dict_get
waiting-Under d = ground arith

waiting-get : dict_get waiting.waiters 0 ≡ some (record { delivery_id = 4; result = none })
unfolding dict_get
waiting-get = refl

receive_all-consumer_feedback_example :
    dict_get (receive_all (consumer_feedback false gateway).0 waiting).waiters 0
    ≡ some (record {
      delivery_id = 4;
      result = settled (contains gateway.ack_queue (pos 4)) push_success none;
    })
receive_all-consumer_feedback_example =
    receive_all-consumer_feedback gateway waiting false 0 4 none
      (run-IsValid (adds (pos 6) ∷ adds (pos 4) ∷ [])) waiting-Under waiting-get
