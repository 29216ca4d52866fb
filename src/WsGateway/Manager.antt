-- ===== src/WsGateway/Manager.antt =====
-- chat/ws_gateway/manager/session.py: `SessionManager`, which keeps the sessions that are in use and
-- those that are idle. A session object is a number; the key of a session is made of the user and the
-- kind of device. What a session holds beside its place is not modelled here.
pub mod Lookup
pub mod Moves
pub mod Calls
pub mod Owned
use tiny_chat_microservices.Prelude.{
  ℕ, suc, ◌+◌, ◌*◌, Bool, true, false, Option, none, some, [], ◌∷◌, Dict, dict_get, dict_put,
  dict_pop, dict_has, if◌then◌else◌, ltb,
}

-- `__idle_capacity__`
abbrev pub idle_capacity : ℕ
idle_capacity = 1024

-- `_waiters` holds whether each Future is done; `created` counts the session objects.
pub record Manager : Type 0 where
  pub sessions : Dict ℕ
  pub idle_sessions : Dict ℕ
  pub waiters : Dict Bool
  pub created : ℕ

abbrev pub fresh_manager : Manager
fresh_manager = record { sessions = []; idle_sessions = []; waiters = []; created = 0 }

-- `uid * DEVICE_KINDS_NUM + device_tp`
unfoldable pub session_key : (uid device_tp : ℕ) → ℕ
session_key uid device_tp = uid * 5 + device_tp

abbrev pub size : Dict ℕ → ℕ
size [] = 0
size (e ∷ d) = suc (size d)

keep_idle : Dict ℕ → ℕ → ℕ → Dict ℕ
keep_idle idle_sessions key session =
    if ltb (size idle_sessions) idle_capacity
    then dict_put idle_sessions key session
    else idle_sessions

-- `waiter.set_result(None)`, if there is a waiter; one that is done stays so
notify : Dict Bool → ℕ → Dict Bool
notify waiters key = if dict_has waiters key then dict_put waiters key true else waiters

unfoldable pub recycle_found : Manager → ℕ → Option ℕ → Manager
unfolding keep_idle notify
recycle_found m key none = m
recycle_found m key (some session) = record m {
  sessions = dict_pop m.sessions key;
  idle_sessions = keep_idle m.idle_sessions key session;
  waiters = notify m.waiters key;
}

-- `recycle_session`
unfoldable pub recycle_session : Manager → ℕ → Manager
unfolding recycle_found
recycle_session m key = recycle_found m key (dict_get m.sessions key)

-- `get`
abbrev pub get : Manager → ℕ → Option ℕ
get m key = dict_get m.sessions key

unfoldable pub reuse_found : Manager → ℕ → Option ℕ → Option ℕ × Manager
reuse_found m key none = (none, m)
reuse_found m key (some session) = (
  some session,
  record m {
    sessions = dict_put m.sessions key session;
    idle_sessions = dict_pop m.idle_sessions key;
  },
)

-- `reuse_session`
unfoldable pub reuse_session : Manager → ℕ → Option ℕ × Manager
unfolding reuse_found
reuse_session m key = reuse_found m key (dict_get m.idle_sessions key)

unfoldable pub retrieve_found : Manager → ℕ → Option ℕ → Manager
retrieve_found m key none = m
retrieve_found m key (some session) = record m {
  sessions = dict_pop m.sessions key;
  idle_sessions = dict_put m.idle_sessions key session;
}

-- `retrieve_session`
unfoldable pub retrieve_session : Manager → ℕ → Manager
unfolding retrieve_found
retrieve_session m key = retrieve_found m key (dict_get m.sessions key)

-- The idle session of the key itself, or else the oldest one.
create_from : Manager → ℕ → (oldest : ℕ) (rest : Dict ℕ) → Option ℕ → ℕ × Manager
create_from m key oldest rest (some session) = (
  session,
  record m {
    sessions = dict_put m.sessions key session;
    idle_sessions = dict_pop m.idle_sessions key;
  },
)
create_from m key oldest rest none =
    (oldest, record m { sessions = dict_put m.sessions key oldest; idle_sessions = rest })

unfoldable pub create_with : Manager → ℕ → Dict ℕ → ℕ × Manager
unfolding create_from
create_with m key [] =
    (m.created, record m { sessions = dict_put m.sessions key m.created; created = m.created + 1 })
create_with m key ((j, oldest) ∷ rest) =
    create_from m key oldest rest (dict_get m.idle_sessions key)

-- `create_session`
unfoldable pub create_session : Manager → ℕ → ℕ × Manager
unfolding create_with
create_session m key = create_with m key m.idle_sessions

-- `wait_for_recycle`: the waiter is made and, when the wait is over, removed
unfoldable pub start_waiting : Manager → ℕ → Manager
start_waiting m key =
    if dict_has m.sessions key then record m { waiters = dict_put m.waiters key false } else m

unfoldable pub stop_waiting : Manager → ℕ → Manager
stop_waiting m key = record m { waiters = dict_pop m.waiters key }
