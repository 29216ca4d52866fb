-- ===== src/Connections/Services.antt =====
-- grpc_service.py: `GrpcService.bind` and `GrpcService.unbind`, with the events of the main process that
-- manager/grpc_client.py hands to them, the rounds of the monitors, and `LoadBalancer.route`
-- (manager/loadbalance.py) on the repositories that this leaves. A service is a number.
pub mod Routable
pub mod Requests
use tiny_chat_microservices.Prelude.{
  ℕ, Bool, true, false, Option, none, some, List, [], ◌∷◌, Dict, dict_get, dict_put, ◌==◌,
  if◌then◌else◌, Outcome, raises, type_error,
}
use tiny_chat_microservices.Connections.{Stub, Repo}
use tiny_chat_microservices.Connections.Repository.{set_group, add, remove, force_check}
use tiny_chat_microservices.Connections.Monitor.{
  visit_all, scan, decay, pop_all, end_round, after_tasks,
}
use tiny_chat_microservices.Connections.Route.{route_random, route_hash}

-- `GrpcStubRepositorty.__init__`; the memory holds no group yet.
unfoldable pub new_repository : Repo
new_repository = record {
  ready = true;
  services = [];
  items = [];
  index = 0;
  ring = [];
  monitored = false;
  checked = false;
  group = λ _. record {
    state = record {
      idle = true;
      subject_rebuild = false;
      subject_down = false;
      etcd_report_up = false;
      etcd_report_down = false;
    };
    stubs = [];
    closed = true;
    round_robin_index = 0;
  };
  created = 0;
}

-- `GrpcService.services`: `__init_subclass__` puts a repository for each class of services.
unfoldable pub register : List ℕ → Dict Repo
unfolding new_repository
register [] = []
register (srv_name ∷ names) = dict_put (register names) srv_name new_repository

-- `route` on the repository of its service. `key` is `none` without a hash key, and with one it is what
-- `ring.get_node` of the library gives for it.
unfoldable pub route_in :
    (channel_ready : ℕ → Bool) (domain : Option ℕ) (key : Option (Option ℕ))
    → Repo
    → Repo × Outcome (Option Stub)
unfolding route_random route_hash
route_in channel_ready domain none r = route_random channel_ready domain r
route_in channel_ready domain (some node) r = route_hash channel_ready domain node r

-- `route`: a name without a repository makes the defaultdict call `GrpcStubRepositorty` without its
-- arguments.
unfoldable pub route :
    (channel_ready : ℕ → Bool) (domain : Option ℕ) (key : Option (Option ℕ))
    → Option Repo
    → Outcome (Option Stub)
unfolding route_in
route channel_ready domain key none = raises type_error
route channel_ready domain key (some r) = (route_in channel_ready domain key r).1

-- What a worker does with its repositories: the two events of `service_event_cb`, with the answers of
-- grpc, `route` for a request, and the steps of the monitors: the timer, a round up to its tasks, the
-- stubs that the tasks leave in a group, and the rest of the round, whose `needs_pop` is that of the
-- first part.
pub data Event : Type 0 where
  service_online : (srv_name addr : ℕ) → (channel_ready : ℕ → Bool) → List (Outcome ℕ) → Event
  service_offline : (srv_name addr : ℕ) → (channel_ready : ℕ → Bool) → Event
  request :
      (srv_name : ℕ)
      → (channel_ready : ℕ → Bool) → (domain : Option ℕ) → (key : Option (Option ℕ)) → Event
  timer : (srv_name : ℕ) → Event
  round_begins : (srv_name : ℕ) → (channel_ready : ℕ → Bool) → Event
  rebuilt : (srv_name gid : ℕ) → List Stub → Event
  round_ends : (srv_name : ℕ) → (channel_ready : ℕ → Bool) → (needs_pop : List ℕ) → Event

abbrev pub srv_name_of : Event → ℕ
srv_name_of (service_online srv_name addr channel_ready created) = srv_name
srv_name_of (service_offline srv_name addr channel_ready) = srv_name
srv_name_of (request srv_name channel_ready domain key) = srv_name
srv_name_of (timer srv_name) = srv_name
srv_name_of (round_begins srv_name channel_ready) = srv_name
srv_name_of (rebuilt srv_name gid stubs) = srv_name
srv_name_of (round_ends srv_name channel_ready needs_pop) = srv_name

-- `_awake_monitor`
unfoldable pub awake : Repo → Repo
unfolding decay force_check
awake r = if r.checked then r else force_check (decay r)

-- A round up to its tasks, or the whole round if it starts none.
unfoldable pub begin_round : (channel_ready : ℕ → Bool) → Repo → Repo
unfolding visit_all scan pop_all end_round
begin_round channel_ready r =
    let begun = visit_all (scan channel_ready) r.services r in
    if begun.tasks == 0 then (end_round (pop_all begun.needs_pop begun.repo)).0 else begun.repo

unfoldable pub act : Event → Repo → Repo
unfolding add remove route_in awake begin_round after_tasks
act (service_online srv_name addr channel_ready created) r = add channel_ready r addr created
act (service_offline srv_name addr channel_ready) r = remove channel_ready r addr
act (request srv_name channel_ready domain key) r = (route_in channel_ready domain key r).0
act (timer srv_name) r = awake r
act (round_begins srv_name channel_ready) r = begin_round channel_ready r
act (rebuilt srv_name gid stubs) r = set_group r gid (record (r.group gid) { stubs = stubs })
act (round_ends srv_name channel_ready needs_pop) r = (after_tasks channel_ready needs_pop r).0

-- An event on the repository with the name of the event, if there is one.
unfoldable pub act_found : Dict Repo → Event → Option Repo → Dict Repo
unfolding act
act_found services e none = services
act_found services e (some r) = dict_put services (srv_name_of e) (act e r)

unfoldable pub handle : Dict Repo → Event → Dict Repo
unfolding act_found
handle services e = act_found services e (dict_get services (srv_name_of e))

unfoldable pub run : Dict Repo → List Event → Dict Repo
unfolding handle
run services [] = services
run services (e ∷ events) = run (handle services e) events
