-- ===== src/Connections/Route.antt =====
-- chat/common/src/chatp/manager/loadbalance.py: `LoadBalancer.route`, with `RoundRobin.flick` of
-- grpc_service.py.
pub mod Choice
use tiny_chat_microservices.Prelude.{
  ℕ, zero, suc, ◌+◌, ◌-◌, ◌%◌, ◌≤◌, ◌≡◌, refl, ap, subst, ◌∙◌, Bool, true, false, ◌&&◌, ◌||◌, not,
  Option, none, some, List, [], ◌∷◌, ◌++◌, Dict, dict_get, if◌then◌else◌, ◌==◌, times, arith,
  Option-cases, Bool-cases, inl, inr, Outcome, returns, raises, type_error,
}
use tiny_chat_microservices.Connections.{
  ChannelState, StubGroup, Stub, Repo, is_health, any_healthy,
}
use tiny_chat_microservices.Connections.Get.{get, Finds, get-Finds, nth}
use tiny_chat_microservices.Connections.Repository.{
  set_group, set_state, force_check, notify_connection_alive, notify_connection_lost,
}
use tiny_chat_microservices.Connections.Invariant.{Consistent, Alike, Alike-refl, Alike-Consistent}

abbrev count : List ℕ → ℕ
count [] = 0
count (i ∷ items) = suc (count items)

unfoldable pub take : ℕ → List ℕ → List ℕ
take zero items = []
take (suc n) [] = []
take (suc n) (i ∷ items) = i ∷ take n items

unfoldable pub drop : ℕ → List ℕ → List ℕ
drop zero items = items
drop (suc n) [] = []
drop (suc n) (i ∷ items) = drop n items

-- `flick`: the items that `islice(cycle(items), pos, pos + num_items)` yields
unfoldable pub flick : List ℕ → (index : ℕ) → List ℕ
unfolding take drop
flick items index = let pos = index % count items in drop pos items ++ take pos items

module _ (channel_ready : ℕ → Bool) where
  -- One group of the loop, with what `get` gave; `rest` is the loop over the groups after it.
  unfoldable pub route_next :
      Repo → ℕ → Outcome (Option Stub) → Repo × Outcome (Option Stub) → Repo × Outcome (Option Stub)
  unfolding notify_connection_alive
  route_next r gid (raises e) rest = (r, raises e)
  route_next r gid (returns none) rest = rest
  route_next r gid (returns (some stub)) rest = (notify_connection_alive r gid, returns (some stub))

  -- The group after `get`, and the index of the round robin, which `flick` counts up.
  unfoldable pub asked : Repo → Option ℕ → ℕ → Repo
  unfolding get
  asked r domain gid =
      set_group (record r { index = r.index + 1 }) gid ((get channel_ready (r.group gid) domain).0)

  unfoldable pub route_loop : Option ℕ → List ℕ → Repo → Repo × Outcome (Option Stub)
  unfolding route_next asked get notify_connection_lost
  route_loop domain [] r = (r, returns none)
  route_loop domain (gid ∷ gids) r =
      route_next (asked r domain gid) gid ((get channel_ready (r.group gid) domain).1)
        (route_loop domain gids (notify_connection_lost (asked r domain gid) gid))

  -- `route` without a hash key
  unfoldable pub route_random : Option ℕ → Repo → Repo × Outcome (Option Stub)
  unfolding flick route_loop
  route_random domain r = route_loop domain (flick r.items r.index) r

  unfoldable pub route_node : Option ℕ → Option ℕ → Repo → Repo × Outcome (Option Stub)
  unfolding get
  route_node domain none r = (r, returns none)
  route_node domain (some gid) r =
      let t = get channel_ready (r.group gid) domain in (set_group r gid t.0, t.1)

  -- `route` with a hash key; `node` is what `ring.get_node` of the library gives.
  unfoldable pub route_hash : Option ℕ → (node : Option ℕ) → Repo → Repo × Outcome (Option Stub)
  unfolding route_node
  route_hash domain none r = (r, returns none)
  route_hash domain (some addr) r = route_node domain (dict_get r.services addr) r
