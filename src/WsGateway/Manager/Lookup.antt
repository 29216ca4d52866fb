-- ===== src/WsGateway/Manager/Lookup.antt =====
-- What `get` of `SessionManager` finds after the other calls.
use tiny_chat_microservices.Prelude.{
  ℕ, ◌≡◌, refl, Bool-cases, inl, inr, dict_has, Option, none, some, [], ◌∷◌, Dict, dict_get,
  get-put, get-pop, arith,
}
use tiny_chat_microservices.WsGateway.Manager.{
  Manager, get, recycle_found, recycle_session, retrieve_found, retrieve_session, reuse_found,
  start_waiting, create_from, create_with, create_session,
}

get-recycle_found :
    (m : Manager) (key : ℕ) (o : Option ℕ) → get m key ≡ o → get (recycle_found m key o) key ≡ none
unfolding recycle_found
get-recycle_found m key none e = e
get-recycle_found m key (some s) e = ground (arith, get-pop m.sessions key key)

pub get-recycle_session : (m : Manager) (key : ℕ) → get (recycle_session m key) key ≡ none
unfolding recycle_session
get-recycle_session m key = get-recycle_found m key (get m key) refl

get-create_from :
    (m : Manager) (key s : ℕ) (rest : Dict ℕ) (o : Option ℕ)
    → get (create_from m key s rest o).1 key ≡ some (create_from m key s rest o).0
unfolding create_from
get-create_from m key s rest none = ground (arith, get-put m.sessions key key s)
get-create_from m key s rest (some t) = ground (arith, get-put m.sessions key key t)

get-create_with :
    (m : Manager) (key : ℕ) (d : Dict ℕ)
    → get (create_with m key d).1 key ≡ some (create_with m key d).0
unfolding create_with
get-create_with m key [] = ground (arith, get-put m.sessions key key m.created)
get-create_with m key ((j, s) ∷ rest) = get-create_from m key s rest (dict_get m.idle_sessions key)

pub get-create_session :
    (m : Manager) (key : ℕ) → get (create_session m key).1 key ≡ some (create_session m key).0
unfolding create_session
get-create_session m key = get-create_with m key m.idle_sessions

get-retrieve_found :
    (m : Manager) (key : ℕ) (o : Option ℕ) → get m key ≡ o → get (retrieve_found m key o) key ≡ none
unfolding retrieve_found
get-retrieve_found m key none e = e
get-retrieve_found m key (some s) e = ground (arith, get-pop m.sessions key key)

pub get-retrieve_session : (m : Manager) (key : ℕ) → get (retrieve_session m key) key ≡ none
unfolding retrieve_session
get-retrieve_session m key = get-retrieve_found m key (get m key) refl

pub get-reuse_found : (m : Manager) (key s : ℕ) → get (reuse_found m key (some s)).1 key ≡ some s
unfolding reuse_found
get-reuse_found m key s = ground (arith, get-put m.sessions key key s)

pub get-start_waiting : (m : Manager) (key k : ℕ) → get (start_waiting m key) k ≡ get m k
unfolding start_waiting
get-start_waiting m key k = elim (Bool-cases (dict_has m.sessions key)) [
  | inl t ↦ rw t refl
  | inr f ↦ rw f refl
]
