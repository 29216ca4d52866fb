-- ===== src/WsGateway/Manager/Calls.antt =====
-- The calls of `SessionManager` keep the invariant of its two tables.
use tiny_chat_microservices.Prelude.{
  ℕ, ◌+◌, ◌≡◌, ap, ◌∙◌, false, Option, none, some, [], ◌∷◌, Dict, dict_get, dict_put, dict_has,
  get-empty, ltb, arith, Bool-cases, Option-cases, inl, inr,
}
use tiny_chat_microservices.WsGateway.Manager.{
  Manager, idle_capacity, size, keep_idle, notify, recycle_found, get, reuse_found, retrieve_found,
  create_from, create_with, start_waiting,
}
use tiny_chat_microservices.WsGateway.Manager.Moves.{
  Inv, waiters-Inv, to_idle-Inv, dropped-Inv, to_live-Inv, add-Inv, popitem-Inv, grown-Inv,
}

pub create_with-Inv :
    (m : Manager) (key : ℕ) (d : Dict ℕ)
    → get m key ≡ none
    → m.idle_sessions ≡ d
    → Inv m
    → Inv (create_with m key d).1
unfolding create_with create_from
create_with-Inv m key [] h e v =
    add-Inv (record m { created = m.created + 1 }) key m.created (grown-Inv m v)
      (ap (λ (d : Dict ℕ). dict_get d key) e ∙ get-empty key) (omega arith)
      (λ k a. absurd (omega (arith, v.live_below k m.created a)))
      (λ k a. absurd (omega (arith, v.idle_below k m.created a)))
create_with-Inv m key ((j, s) ∷ rest) h e v = elim (Option-cases (dict_get m.idle_sessions key)) [
  | inr (t, i) ↦ rw i (to_live-Inv m key t v i)
  | inl i ↦
      let (w, not_live, not_idle, below, absent) = popitem-Inv m j s rest e v in
      rw i
        (add-Inv (record m { idle_sessions = rest }) key s w (absent key i) below not_live not_idle)
]

pub recycle_found-Inv :
    (m : Manager) (key : ℕ) (o : Option ℕ)
    → dict_get m.sessions key ≡ o
    → Inv m
    → Inv (recycle_found m key o)
unfolding recycle_found keep_idle
recycle_found-Inv m key none e v = v
recycle_found-Inv m key (some s) e v =
    elim (Bool-cases (ltb (size m.idle_sessions) idle_capacity)) [
      | inl room ↦ rw room (waiters-Inv _ (notify m.waiters key) (to_idle-Inv m key s v e))
      | inr full ↦ rw full (waiters-Inv _ (notify m.waiters key) (dropped-Inv m key v))
    ]

pub reuse_found-Inv :
    (m : Manager) (key : ℕ) (o : Option ℕ)
    → dict_get m.idle_sessions key ≡ o
    → Inv m
    → Inv (reuse_found m key o).1
unfolding reuse_found
reuse_found-Inv m key none e v = v
reuse_found-Inv m key (some s) e v = to_live-Inv m key s v e

pub retrieve_found-Inv :
    (m : Manager) (key : ℕ) (o : Option ℕ)
    → dict_get m.sessions key ≡ o
    → Inv m
    → Inv (retrieve_found m key o)
unfolding retrieve_found
retrieve_found-Inv m key none e v = v
retrieve_found-Inv m key (some s) e v = to_idle-Inv m key s v e

pub start_waiting-Inv : (m : Manager) (key : ℕ) → Inv m → Inv (start_waiting m key)
unfolding start_waiting
start_waiting-Inv m key v = elim (Bool-cases (dict_has m.sessions key)) [
  | inl e ↦ rw e (waiters-Inv m (dict_put m.waiters key false) v)
  | inr e ↦ rw e v
]
