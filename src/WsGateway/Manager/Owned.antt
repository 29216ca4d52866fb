-- ===== src/WsGateway/Manager/Owned.antt =====
-- Which keys the session objects stand under, along the calls of `SessionManager`.
use tiny_chat_microservices.Prelude.{ℕ, ◌≡◌, refl, none, some, dict_get, dict_pop, arith}
use tiny_chat_microservices.WsGateway.Manager.{
  Manager, fresh_manager, recycle_session, get, reuse_session, retrieve_session, create_session,
  start_waiting, stop_waiting,
}
use tiny_chat_microservices.WsGateway.Manager.Moves.{Inv, waiters-Inv}
use tiny_chat_microservices.WsGateway.Manager.Calls.{
  create_with-Inv, recycle_found-Inv, reuse_found-Inv, retrieve_found-Inv, start_waiting-Inv,
}

-- A call of the manager. `create_session` is called only for a key that `get` does not find.
pub data Step (m : Manager) : Manager → Type 0 where
  recycle : (key : ℕ) → Step m (recycle_session m key)
  create : (key : ℕ) → get m key ≡ none → Step m (create_session m key).1
  reuse : (key : ℕ) → Step m (reuse_session m key).1
  retrieve : (key : ℕ) → Step m (retrieve_session m key)
  wait : (key : ℕ) → Step m (start_waiting m key)
  waited : (key : ℕ) → Step m (stop_waiting m key)

pub data Reach : Manager → Type 0 where
  start : Reach fresh_manager
  next : {m n : Manager} → Reach m → Step m n → Reach n

Step-Inv : {m n : Manager} → Step m n → Inv m → Inv n
unfolding recycle_session create_session reuse_session retrieve_session stop_waiting
Step-Inv {m} (recycle key) v = recycle_found-Inv m key (get m key) refl v
Step-Inv {m} (create key e) v = create_with-Inv m key m.idle_sessions e refl v
Step-Inv {m} (reuse key) v = reuse_found-Inv m key (dict_get m.idle_sessions key) refl v
Step-Inv {m} (retrieve key) v = retrieve_found-Inv m key (get m key) refl v
Step-Inv {m} (wait key) v = start_waiting-Inv m key v
Step-Inv {m} (waited key) v = waiters-Inv m (dict_pop m.waiters key) v

Reach-Inv : {m : Manager} → Reach m → Inv m
unfolding dict_get
Reach-Inv start = record {
  apart = λ k s a. refl;
  live = λ j k s a b. absurd (ground arith);
  idle = λ j k s a b. absurd (ground arith);
  mixed = λ j k s a. λ b. ground arith;
  live_below = λ k s a. absurd (ground arith);
  idle_below = λ k s a. absurd (ground arith);
  unique = tt;
}
Reach-Inv (next r st) = Step-Inv st (Reach-Inv r)

-- A session object stands under a key, in use or idle.
pub data Holds (m : Manager) (key session : ℕ) : Type 0 where
  in_use : get m key ≡ some session → Holds m key session
  is_idle : dict_get m.idle_sessions key ≡ some session → Holds m key session

-- In every state that the calls of a manager can reach, in any order, no session object stands under
-- two keys, and no key has a session in use and an idle one.
pub Holds-unique :
    {m : Manager} (j k s : ℕ)
    → Reach m
    → Holds m j s
    → Holds m k s
    → (j ≡ k) × ((t : ℕ) → get m k ≡ some t → dict_get m.idle_sessions k ≡ none)
Holds-unique {m = m} j k s r a b = let v = Reach-Inv r in (same v a b, v.apart k)
  where
    same : Inv m → Holds m j s → Holds m k s → j ≡ k
    same v (in_use a) (in_use b) = v.live j k s a b
    same v (in_use a) (is_idle b) = absurd (v.mixed j k s a b)
    same v (is_idle a) (in_use b) = absurd (v.mixed k j s b a)
    same v (is_idle a) (is_idle b) = v.idle j k s a b
