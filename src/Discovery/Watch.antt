-- ===== src/Discovery/Watch.antt =====
-- manager/service.py: the cache of `ServiceManager` against the content of etcd, and the events for the
-- workers against the cache.
use tiny_chat_microservices.Prelude.{
  ℕ, ◌+◌, ◌≡◌, refl, sym, ap, ◌∙◌, subst, Bool, true, false, ◌&&◌, not, Option, none, some, List,
  [], ◌∷◌, ◌==◌, if◌then◌else◌, arith, if-both,
}
use tiny_chat_microservices.Discovery.{
  Key, same_key, Entry, lookup, store, discard, ServiceEvent, service_online, service_offline,
  WatchEvent, put_event, delete_event, Manager, announce, found_service, start_service_discovery,
  lost_service, on_consume, consume,
}

-- What etcd holds: a put stores, a delete discards.
abbrev pub applied : List Entry → WatchEvent → List Entry
applied registry (put_event k addr) = store registry k addr
applied registry (delete_event k) = discard registry k

abbrev pub registry_after : List Entry → List WatchEvent → List Entry
registry_after registry [] = registry
registry_after registry (e ∷ events) = registry_after (applied registry e) events

abbrev pub is_there : Option ℕ → Bool
is_there none = false
is_there (some addr) = true

abbrev pub is_at : Option ℕ → ℕ → Bool
is_at none addr = false
is_at (some known) addr = known == addr

-- How often an address was announced under a key, and how often it was reported lost.
unfoldable pub onlines : List ServiceEvent → Key → ℕ → ℕ
onlines [] k addr = 0
onlines (service_online j known ∷ events) k addr =
    (if same_key j k && (known == addr) then 1 else 0) + onlines events k addr
onlines (service_offline j known ∷ events) k addr = onlines events k addr

unfoldable pub offlines : List ServiceEvent → Key → ℕ → ℕ
offlines [] k addr = 0
offlines (service_online j known ∷ events) k addr = offlines events k addr
offlines (service_offline j known ∷ events) k addr =
    (if same_key j k && (known == addr) then 1 else 0) + offlines events k addr

lookup-store :
    (cache : List Entry) (k j : Key) (addr : ℕ)
    → lookup (store cache k addr) j ≡ (if same_key k j then some addr else lookup cache j)
unfolding lookup store
lookup-store [] k j addr = refl
lookup-store (e ∷ cache) k j addr = ground (arith, lookup-store cache k j addr)

lookup-discard :
    (cache : List Entry) (k j : Key)
    → lookup (discard cache k) j ≡ (if same_key k j then none else lookup cache j)
unfolding lookup discard
lookup-discard [] k j = ground arith
lookup-discard (e ∷ cache) k j = ground (arith, lookup-discard cache k j)

-- A key stands for its two parts.
lookup-same :
    (cache : List Entry) (k j : Key) → same_key k j ≡ true → lookup cache k ≡ lookup cache j
unfolding lookup
lookup-same [] k j h = refl
lookup-same (e ∷ cache) k j h = ground (arith, lookup-same cache k j)

-- Every announcement of an address was followed by its loss, unless the address is in the cache now.
unfoldable pub Balanced : Manager → Type 0
Balanced m =
    (k : Key) (addr : ℕ)
    → onlines m.dispatched k addr
      ≡ offlines m.dispatched k addr + (if is_at (lookup m.cache k) addr then 1 else 0)

-- The cache has the services of etcd but the own one.
unfoldable pub Mirrors : (platform_id : ℕ) → Manager → List Entry → Type 0
Mirrors platform_id m registry =
    (k : Key)
    → is_there (lookup m.cache k)
      ≡ is_there (lookup registry k) && not (k.platform_id == platform_id)

announce-Balanced :
    (m : Manager) (k : Key) (addr : ℕ)
    → lookup m.cache k ≡ none
    → Balanced m
    → Balanced (announce m k addr)
unfolding Balanced announce onlines offlines
announce-Balanced m k addr e h =
    λ j a. ground (arith, h j a, lookup-store m.cache k j addr, lookup-same m.cache k j, e)

found_service-Balanced :
    (platform_id : ℕ) (m : Manager) (k : Key) (addr : ℕ) (o : Option ℕ)
    → lookup m.cache k ≡ o
    → Balanced m
    → Balanced (found_service platform_id m k addr o)
unfolding found_service
found_service-Balanced platform_id m k addr none e h =
    if-both Balanced (k.platform_id == platform_id) h (announce-Balanced m k addr e h)
found_service-Balanced platform_id m k addr (some known) e h = h

lost_service-Balanced :
    (m : Manager) (k : Key) (o : Option ℕ)
    → lookup m.cache k ≡ o
    → Balanced m
    → Balanced (lost_service m k o)
unfolding Balanced lost_service onlines offlines
lost_service-Balanced m k none e h = h
lost_service-Balanced m k (some addr) e h =
    λ j a. ground (arith, h j a, lookup-discard m.cache k j, lookup-same m.cache k j, e)

on_consume-Balanced :
    (platform_id : ℕ) (m : Manager) (e : WatchEvent)
    → Balanced m
    → Balanced (on_consume platform_id m e)
unfolding on_consume
on_consume-Balanced platform_id m (put_event k addr) h =
    found_service-Balanced platform_id m k addr (lookup m.cache k) refl h
on_consume-Balanced platform_id m (delete_event k) h =
    if-both Balanced (k.platform_id == platform_id) h
      (lost_service-Balanced m k (lookup m.cache k) refl h)

-- A put of a service; the address of one that is there already is not looked at.
found_service-Mirrors :
    (platform_id : ℕ) (m : Manager) (registry : List Entry) (k : Key) (addr : ℕ) (o : Option ℕ)
    → lookup m.cache k ≡ o
    → Mirrors platform_id m registry
    → Mirrors platform_id (found_service platform_id m k addr o) (store registry k addr)
unfolding Mirrors found_service announce
found_service-Mirrors platform_id m registry k addr none e h =
    λ j. ground (arith, h j, h k, lookup-store m.cache k j addr, lookup-store registry k j addr, e)
found_service-Mirrors platform_id m registry k addr (some known) e h =
    λ j. ground (arith, h j, h k, lookup-store registry k j addr, lookup-same m.cache k j, e)

lost_service-Mirrors :
    (platform_id : ℕ) (m : Manager) (registry : List Entry) (k : Key) (o : Option ℕ)
    → lookup m.cache k ≡ o
    → Mirrors platform_id m registry
    → Mirrors platform_id
        (if k.platform_id == platform_id then m else lost_service m k o)
        (discard registry k)
unfolding Mirrors lost_service
lost_service-Mirrors platform_id m registry k none e h =
    λ j. ground (arith, h j, h k, lookup-discard registry k j, lookup-same m.cache k j, e)
lost_service-Mirrors platform_id m registry k (some addr) e h =
    λ j. ground (arith, h j, h k, lookup-discard registry k j, lookup-discard m.cache k j, e)

on_consume-Mirrors :
    (platform_id : ℕ) (m : Manager) (registry : List Entry) (e : WatchEvent)
    → Mirrors platform_id m registry
    → Mirrors platform_id (on_consume platform_id m e) (applied registry e)
unfolding on_consume
on_consume-Mirrors platform_id m registry (put_event k addr) h =
    found_service-Mirrors platform_id m registry k addr (lookup m.cache k) refl h
on_consume-Mirrors platform_id m registry (delete_event k) h =
    lost_service-Mirrors platform_id m registry k (lookup m.cache k) refl h

consume-Mirrors :
    (platform_id : ℕ) (m : Manager) (registry : List Entry) (events : List WatchEvent)
    → Mirrors platform_id m registry × Balanced m
    → Mirrors platform_id (consume platform_id m events) (registry_after registry events)
      × Balanced (consume platform_id m events)
unfolding consume
consume-Mirrors platform_id m registry [] h = h
consume-Mirrors platform_id m registry (e ∷ events) (h, k) =
    consume-Mirrors platform_id (on_consume platform_id m e) (applied registry e) events
      (on_consume-Mirrors platform_id m registry e h, on_consume-Balanced platform_id m e k)

-- What etcd answers to `get_prefix`, as the puts that made it.
abbrev pub puts : List Entry → List WatchEvent
puts [] = []
puts (kv ∷ services_info) = put_event kv.key kv.addr ∷ puts services_info

start-consume :
    (platform_id : ℕ) (services_info : List Entry) (m : Manager)
    → start_service_discovery platform_id services_info m
      ≡ consume platform_id m (puts services_info)
unfolding start_service_discovery consume on_consume
start-consume platform_id [] m = refl
start-consume platform_id (kv ∷ services_info) m = start-consume platform_id services_info _

abbrev pub fresh_manager : Manager
fresh_manager = record { cache = []; dispatched = [] }

abbrev pub watched : (platform_id : ℕ) → List Entry → List WatchEvent → Manager
watched platform_id services_info events =
    consume platform_id (start_service_discovery platform_id services_info fresh_manager) events

-- What etcd holds: the services of the first answers, then the changes before the watches begin, which
-- no stream delivers, then those that are delivered.
abbrev pub etcd_content : List Entry → (missed delivered : List WatchEvent) → List Entry
etcd_content services_info missed delivered =
    registry_after (registry_after (registry_after [] (puts services_info)) missed) delivered

abbrev pub concerns : WatchEvent → Key → Bool
concerns (put_event j addr) k = same_key j k
concerns (delete_event j) k = same_key j k

-- No event is about the key.
abbrev pub untouched : List WatchEvent → Key → Bool
untouched [] k = true
untouched (e ∷ events) k = not (concerns e k) && untouched events k

applied-untouched :
    (registry : List Entry) (e : WatchEvent) (k : Key)
    → concerns e k ≡ false
    → lookup (applied registry e) k ≡ lookup registry k
applied-untouched registry (put_event j addr) k h = ground (arith, lookup-store registry j k addr)
applied-untouched registry (delete_event j) k h = ground (arith, lookup-discard registry j k)

registry_after-untouched :
    (registry : List Entry) (events : List WatchEvent) (k : Key)
    → untouched events k ≡ true
    → lookup (registry_after registry events) k ≡ lookup registry k
registry_after-untouched registry [] k h = refl
registry_after-untouched registry (e ∷ events) k h =
    registry_after-untouched (applied registry e) events k (ground arith)
    ∙ applied-untouched registry e k (ground arith)

applied-same :
    (one other : List Entry) (e : WatchEvent) (k : Key)
    → lookup one k ≡ lookup other k
    → lookup (applied one e) k ≡ lookup (applied other e) k
applied-same one other (put_event j addr) k h =
    ground (arith, h, lookup-store one j k addr, lookup-store other j k addr)
applied-same one other (delete_event j) k h =
    ground (arith, h, lookup-discard one j k, lookup-discard other j k)

registry_after-same :
    (one other : List Entry) (events : List WatchEvent) (k : Key)
    → lookup one k ≡ lookup other k
    → lookup (registry_after one events) k ≡ lookup (registry_after other events) k
registry_after-same one other [] k h = h
registry_after-same one other (e ∷ events) k h =
    registry_after-same (applied one e) (applied other e) events k (applied-same one other e k h)

fresh_manager-Mirrors :
    (platform_id : ℕ) → Mirrors platform_id fresh_manager [] × Balanced fresh_manager
unfolding Mirrors Balanced lookup onlines offlines
fresh_manager-Mirrors platform_id = (λ k. refl, λ k addr. refl)

watched-all :
    (platform_id : ℕ) (services_info : List Entry) (events : List WatchEvent)
    → Mirrors platform_id
        (watched platform_id services_info events)
        (registry_after (registry_after [] (puts services_info)) events)
      × Balanced (watched platform_id services_info events)
watched-all platform_id services_info events =
    consume-Mirrors platform_id _ (registry_after [] (puts services_info)) events (
      subst (λ m. Mirrors platform_id m (registry_after [] (puts services_info)) × Balanced m)
        (sym (start-consume platform_id services_info fresh_manager))
        (consume-Mirrors platform_id fresh_manager [] (puts services_info)
          (fresh_manager-Mirrors platform_id)))

-- After the start and any events of the watch streams, the cache has a service that did not change
-- between the first answers and the beginning of the watches exactly when etcd has it and it is not the
-- own one; and the workers were told that an address under a key is online as often as that it is
-- offline, once more if the cache has it at that address.
pub watched-Mirrors :
    (platform_id : ℕ) (services_info : List Entry) (missed delivered : List WatchEvent) (k : Key)
    → untouched missed k ≡ true
    → let m = watched platform_id services_info delivered in
      (is_there (lookup m.cache k)
        ≡ is_there (lookup (etcd_content services_info missed delivered) k)
          && not (k.platform_id == platform_id))
      × Balanced m
unfolding Mirrors
watched-Mirrors platform_id services_info missed delivered k h =
    let first = registry_after [] (puts services_info) in
    let (mirrors, balanced) = watched-all platform_id services_info delivered in
    let same =
      registry_after-same (registry_after first missed) first delivered k
        (registry_after-untouched first missed k h) in
    (
      mirrors k
          ∙ ap (λ (o : Option ℕ). is_there o && not (k.platform_id == platform_id)) (sym same),
      balanced,
    )
