-- ===== src/Connections/Services/Requests.antt =====
-- manager/loadbalance.py: which stub a request gets, after whatever has happened to the repositories.
use tiny_chat_microservices.Prelude.{
  ℕ, ◌≡◌, refl, subst, Bool, true, Option, none, some, List, [], ◌∷◌, Dict, dict_get, dict_put,
  get-put, ◌==◌, leb, times, arith, Bool-cases, some-value, inl, inr, Outcome, returns, raises,
  if-both,
}
use tiny_chat_microservices.Connections.{StubGroup, Stub, Repo}
use tiny_chat_microservices.Connections.Get.{get, Finds, get-Finds}
use tiny_chat_microservices.Connections.Repository.{force_check, notify_connection_lost}
use tiny_chat_microservices.Connections.Invariant.{
  Alike, Alike-trans, Alike-refl, notify_alive-Alike, notify_lost-Alike,
}
use tiny_chat_microservices.Connections.Monitor.{visit_all, scan, recheck, decay, after_tasks}
use tiny_chat_microservices.Connections.Monitor.Rounds.{scan-Sound, recheck-Sound}
use tiny_chat_microservices.Connections.Route.{
  flick, asked, route_next, route_loop, route_random, route_node, route_hash,
}
use tiny_chat_microservices.Connections.Route.Choice.{
  loop-Routed, times-flick, Routes-flick, Answers, any_ready,
}
use tiny_chat_microservices.Connections.Services.{
  new_repository, register, route_in, route, Event, srv_name_of, service_online, service_offline,
  request, timer, round_begins, rebuilt, round_ends, awake, begin_round, act, act_found, handle,
  run,
}
use tiny_chat_microservices.Connections.Services.Routable.{
  Routable, Alike-Routable, add-Routable, remove-Routable, popped_all-Routable, visited-Routable,
}

-- What `get` leaves of a group, for any domain.
module _ (channel_ready : ℕ → Bool) (domain : Option ℕ) where
  got-closed : (g : StubGroup) → (get channel_ready g domain).0.closed ≡ g.closed
  unfolding get
  got-closed g = ground arith

  asked-Alike : (r : Repo) (gid : ℕ) → Alike r (asked channel_ready r domain gid)
  unfolding asked
  asked-Alike r gid = record {
    services = refl;
    items = refl;
    ring = refl;
    created = refl;
    closed = λ k. ground (arith, got-closed (r.group gid));
  }

  route_next-Alike :
      (r s : Repo) (gid : ℕ) (answer : Outcome (Option Stub)) (rest : Repo × Outcome (Option Stub))
      → Alike r s
      → Alike r rest.0
      → Alike r (route_next channel_ready s gid answer rest).0
  unfolding route_next
  route_next-Alike r s gid (raises e) rest a b = a
  route_next-Alike r s gid (returns none) rest a b = b
  route_next-Alike r s gid (returns (some stub)) rest a b =
      Alike-trans r s _ a (notify_alive-Alike s gid)

  route_loop-Alike : (gids : List ℕ) (r : Repo) → Alike r (route_loop channel_ready domain gids r).0
  unfolding route_loop
  route_loop-Alike [] r = Alike-refl r
  route_loop-Alike (gid ∷ gids) r =
      let s = asked channel_ready r domain gid in
      let t = notify_connection_lost s gid in
      route_next-Alike r s gid _ (route_loop channel_ready domain gids t) (asked-Alike r gid) (
        Alike-trans r t _ (Alike-trans r s t (asked-Alike r gid) (notify_lost-Alike s gid))
          (route_loop-Alike gids t))

  route_node-Alike : (r : Repo) (o : Option ℕ) → Alike r (route_node channel_ready domain o r).0
  unfolding route_node
  route_node-Alike r none = Alike-refl r
  route_node-Alike r (some gid) = record {
    services = refl;
    items = refl;
    ring = refl;
    created = refl;
    closed = λ k. ground (arith, got-closed (r.group gid));
  }

  route_in-Alike :
      (key : Option (Option ℕ)) (r : Repo) → Alike r (route_in channel_ready domain key r).0
  unfolding route_in route_random route_hash
  route_in-Alike none r = route_loop-Alike (flick r.items r.index) r
  route_in-Alike (some none) r = Alike-refl r
  route_in-Alike (some (some addr)) r = route_node-Alike r (dict_get r.services addr)

awake-Alike : (r : Repo) → Alike r (awake r)
unfolding awake decay force_check
awake-Alike r = record {
  services = ground arith;
  items = ground arith;
  ring = ground arith;
  created = ground arith;
  closed = λ k. ground arith;
}

begin_round-Routable :
    (channel_ready : ℕ → Bool) (r : Repo) → Routable r → Routable (begin_round channel_ready r)
unfolding begin_round
begin_round-Routable channel_ready r h =
    let begun = visit_all (scan channel_ready) r.services r in
    let visited = visited-Routable (scan channel_ready) r (scan-Sound channel_ready) h in
    if-both Routable (begun.tasks == 0) (popped_all-Routable begun.needs_pop begun.repo visited)
      visited

after_tasks-Routable :
    (channel_ready : ℕ → Bool) (needs_pop : List ℕ) (r : Repo)
    → Routable r
    → Routable (after_tasks channel_ready needs_pop r).0
unfolding after_tasks
after_tasks-Routable channel_ready needs_pop r h =
    popped_all-Routable _ _
      (visited-Routable (recheck channel_ready) r (recheck-Sound channel_ready) h)

act-Routable : (e : Event) (r : Repo) → Routable r → Routable (act e r)
unfolding act
act-Routable (service_online srv_name addr channel_ready created) r h =
    add-Routable channel_ready r addr created h
act-Routable (service_offline srv_name addr channel_ready) r h =
    remove-Routable channel_ready r addr h
act-Routable (request srv_name channel_ready domain key) r h =
    Alike-Routable r _ (route_in-Alike channel_ready domain key r) h
act-Routable (timer srv_name) r h = Alike-Routable r _ (awake-Alike r) h
act-Routable (round_begins srv_name channel_ready) r h = begin_round-Routable channel_ready r h
act-Routable (rebuilt srv_name gid stubs) r h =
    Alike-Routable r _
      (record {
        services = refl;
        items = refl;
        ring = refl;
        created = refl;
        closed = λ k. ground arith;
      })
      h
act-Routable (round_ends srv_name channel_ready needs_pop) r h =
    after_tasks-Routable channel_ready needs_pop r h

AllRoutable : Dict Repo → Type 0
AllRoutable services = (srv_name : ℕ) (r : Repo) → dict_get services srv_name ≡ some r → Routable r

new_repository-Routable : Routable new_repository
unfolding new_repository dict_get
new_repository-Routable = record {
  one_group = λ k. omega arith;
  made = λ k p. refl;
  opened = λ k p. ground arith;
  routed = λ k g e. ground arith;
  distinct = λ k j g e f. ground arith;
}

put-AllRoutable :
    (services : Dict Repo) (srv_name : ℕ) (r : Repo)
    → AllRoutable services
    → Routable r
    → AllRoutable (dict_put services srv_name r)
unfolding AllRoutable
put-AllRoutable services srv_name r h k j s e = elim (Bool-cases (srv_name == j)) [
  | inl same ↦ subst Routable (some-value r s (ground (arith, get-put services srv_name j r))) k
  | inr other ↦ h j s (ground (arith, get-put services srv_name j r))
]

register-AllRoutable : (names : List ℕ) → AllRoutable (register names)
unfolding register AllRoutable dict_get
register-AllRoutable [] = λ k r e. ground (arith, e)
register-AllRoutable (srv_name ∷ names) =
    put-AllRoutable (register names) srv_name new_repository (register-AllRoutable names)
      new_repository-Routable

act_found-AllRoutable :
    (services : Dict Repo) (e : Event) (o : Option Repo)
    → dict_get services (srv_name_of e) ≡ o
    → AllRoutable services
    → AllRoutable (act_found services e o)
unfolding act_found AllRoutable
act_found-AllRoutable services e none there h = h
act_found-AllRoutable services e (some r) there h =
    put-AllRoutable services (srv_name_of e) (act e r) h (act-Routable e r (h _ r there))

run-AllRoutable :
    (services : Dict Repo) (events : List Event)
    → AllRoutable services
    → AllRoutable (run services events)
unfolding run handle
run-AllRoutable services [] h = h
run-AllRoutable services (e ∷ events) h =
    run-AllRoutable (handle services e) events (act_found-AllRoutable services e _ refl h)

-- The groups that a request may be served by: all of the round robin, or the one in the dict under the
-- node of its hash key.
abbrev pub group_at : Option ℕ → List ℕ
group_at none = []
group_at (some gid) = gid ∷ []

abbrev pub candidates : Repo → Option (Option ℕ) → List ℕ
candidates r none = r.items
candidates r (some none) = []
candidates r (some (some addr)) = group_at (dict_get r.services addr)

abbrev pub is_among : List ℕ → Option ℕ → Bool
is_among items none = true
is_among items (some gid) = leb 1 (times items gid)

module _ (channel_ready : ℕ → Bool) where
  group-Answers :
      (r : Repo) (gid : ℕ) (o : Option Stub)
      → Finds channel_ready (r.group gid).stubs o
      → Answers channel_ready (gid ∷ []) r.group o
  unfolding Finds Answers any_ready
  group-Answers r gid none h = ground arith
  group-Answers r gid (some s) (ready, place) = (ready, (gid, ground arith, place))

  route_node-Answers :
      (r : Repo) (addr : ℕ) (node : Option ℕ)
      → dict_get r.services addr ≡ node
      → Routable r
      → (o : Option Stub) × ((route_node channel_ready none node r).1 ≡ returns o)
        × Answers channel_ready (group_at node) r.group o
  unfolding route_node Answers any_ready
  route_node-Answers r addr none e h = (none, refl, refl)
  route_node-Answers r addr (some gid) e h =
      let (o, answer, found) =
        get-Finds channel_ready (r.group gid) (h.opened gid (h.routed addr gid e)) in
      (o, answer, group-Answers r gid o found)

  route_in-Answers :
      (key : Option (Option ℕ)) (r : Repo)
      → Routable r
      → (o : Option Stub) × ((route_in channel_ready none key r).1 ≡ returns o)
        × Answers channel_ready (candidates r key) r.group o
  unfolding route_in route_random route_hash Answers any_ready
  route_in-Answers none r h =
      let routed =
        loop-Routed channel_ready (flick r.items r.index) r
          λ k p. h.opened k (omega (arith, p, times-flick r.items r.index k)) in
      (
        routed.stub,
        routed.answer,
        Routes-flick channel_ready r.items r.index r.group routed.stub routed.routes,
      )
  route_in-Answers (some none) r h = (none, refl, refl)
  route_in-Answers (some (some addr)) r h =
      route_node-Answers r addr (dict_get r.services addr) refl h

routed-is_among :
    (r : Repo) (addr : ℕ) (o : Option ℕ)
    → dict_get r.services addr ≡ o
    → Routable r
    → is_among r.items o ≡ true
routed-is_among r addr none e h = refl
routed-is_among r addr (some gid) e h = ground (arith, h.routed addr gid e)

-- After any events of the main process, requests and steps of the monitors, a request without a domain
-- for a service that has a repository gets a READY stub of one of its candidates, and none only if none
-- of them has a READY channel. Its candidates are the groups of the round robin, among which are those
-- of all servers in the dict, or with a hash key the group in the dict under its node, if there is one.
pub run-Answers :
    (names : List ℕ) (events : List Event) (channel_ready : ℕ → Bool) (key : Option (Option ℕ))
    (srv_name : ℕ) (r : Repo)
    → dict_get (run (register names) events) srv_name ≡ some r
    → ((o : Option Stub) × (route channel_ready none key (some r) ≡ returns o)
        × Answers channel_ready (candidates r key) r.group o)
      × ((addr : ℕ) → is_among r.items (dict_get r.services addr) ≡ true)
unfolding route AllRoutable
run-Answers names events channel_ready key srv_name r e =
    let h : Routable r =
      run-AllRoutable (register names) events (register-AllRoutable names) srv_name r e in
    (
      route_in-Answers channel_ready key r h,
      λ addr. routed-is_among r addr (dict_get r.services addr) refl h,
    )
