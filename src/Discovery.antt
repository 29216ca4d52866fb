-- ===== src/Discovery.antt =====
-- chat/common/src/chatp/manager/service.py: the services that `ServiceManager` knows from etcd, and the
-- events by which the main process tells its workers. The names of services, the platform ids and the
-- addresses are numbers. The key `srv_name/platform_id` of the cache is the pair, which it determines
-- since no name and no id has a slash in it.
pub mod Watch
pub mod Usage
use tiny_chat_microservices.Prelude.{
  ℕ, Bool, true, false, ◌&&◌, not, Option, none, some, List, [], ◌∷◌, ◌++◌, ◌==◌, if◌then◌else◌,
}

-- `f"{srv_name}/{srv_platform_id}"`
pub record Key : Type 0 where
  pub srv_name : ℕ
  pub platform_id : ℕ

abbrev pub same_key : Key → Key → Bool
same_key k j = (k.srv_name == j.srv_name) && (k.platform_id == j.platform_id)

pub record Entry : Type 0 where
  pub key : Key
  pub addr : ℕ

-- `cache.get`
unfoldable pub lookup : List Entry → Key → Option ℕ
lookup [] k = none
lookup (e ∷ cache) k = if same_key e.key k then some e.addr else lookup cache k

-- `cache[cache_key] = ServiceInfoItem(srv_addr, srv_platform_id)`
unfoldable pub store : List Entry → Key → ℕ → List Entry
store [] k addr = record { key = k; addr = addr } ∷ []
store (e ∷ cache) k addr =
    let rest = store cache k addr in
    if same_key e.key k then record { key = e.key; addr = addr } ∷ cache else e ∷ rest

-- `cache.pop(cache_key, None)`, for its effect
unfoldable pub discard : List Entry → Key → List Entry
discard [] k = []
discard (e ∷ cache) k = let rest = discard cache k in if same_key e.key k then rest else e ∷ rest

-- A `ServiceEvent` of kind SERVICE_ONLINE or SERVICE_OFFLINE
pub data ServiceEvent : Type 0 where
  service_online : (key : Key) → (addr : ℕ) → ServiceEvent
  service_offline : (key : Key) → (addr : ℕ) → ServiceEvent

-- An event of a watch stream of etcd
pub data WatchEvent : Type 0 where
  put_event : (key : Key) → (addr : ℕ) → WatchEvent
  delete_event : (key : Key) → WatchEvent

-- `_cache`, and the events dispatched so far, the newest first
pub record Manager : Type 0 where
  pub cache : List Entry
  pub dispatched : List ServiceEvent

unfoldable pub announce : Manager → Key → ℕ → Manager
unfolding store
announce m k addr = record {
  cache = store m.cache k addr;
  dispatched = service_online k addr ∷ m.dispatched;
}

-- A service that is not this platform's own and not in the cache is announced.
unfoldable pub found_service : (platform_id : ℕ) → Manager → Key → ℕ → Option ℕ → Manager
unfolding announce
found_service platform_id m k addr none =
    if k.platform_id == platform_id then m else announce m k addr
found_service platform_id m k addr (some known) = m

-- The loops of `start_service_discovery` over the answers of `get_prefix`, one after the other.
unfoldable pub start_service_discovery : (platform_id : ℕ) → List Entry → Manager → Manager
unfolding found_service lookup
start_service_discovery platform_id [] m = m
start_service_discovery platform_id (kv ∷ services_info) m =
    start_service_discovery platform_id services_info
      (found_service platform_id m kv.key kv.addr (lookup m.cache kv.key))

unfoldable pub lost_service : Manager → Key → Option ℕ → Manager
unfolding discard
lost_service m k none = m
lost_service m k (some addr) = record {
  cache = discard m.cache k;
  dispatched = service_offline k addr ∷ m.dispatched;
}

-- One turn of `on_consume`
unfoldable pub on_consume : (platform_id : ℕ) → Manager → WatchEvent → Manager
unfolding found_service lost_service lookup
on_consume platform_id m (put_event k addr) = found_service platform_id m k addr (lookup m.cache k)
on_consume platform_id m (delete_event k) =
    if k.platform_id == platform_id then m else lost_service m k (lookup m.cache k)

-- The events of all streams, in the order in which they are consumed.
unfoldable pub consume : (platform_id : ℕ) → Manager → List WatchEvent → Manager
unfolding on_consume
consume platform_id m [] = m
consume platform_id m (e ∷ events) = consume platform_id (on_consume platform_id m e) events

-- `monitor` clears the cache before it watches the services again.
unfoldable pub forget : Manager → Manager
forget m = record m { cache = [] }
