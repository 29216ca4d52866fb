-- ===== src/Connections/Monitor.antt =====
-- grpc_service.py: one round of `GrpcStubRepositorty.monitor`, which waits for the tasks that reconnect
-- the stubs of the groups in doubt.
pub mod Rounds
use tiny_chat_microservices.Prelude.{
  ℕ, suc, ◌+◌, ◌-◌, ◌≤◌, ◌≡◌, refl, ap, subst, ◌∙◌, Bool, true, false, ◌&&◌, ◌||◌, not, Option,
  none, some, List, [], ◌∷◌, ◌++◌, Dict, dict_get, dict_pop, get-pop, Outcome, if◌then◌else◌, ◌==◌,
  ltb, times, times-last, keys, values, get-value, get-absent, arith, Option-cases, Bool-cases, inl,
  inr, ◌⊎◌, PyError, key_error,
}
use tiny_chat_microservices.Connections.{
  ChannelState, StubGroup, Stub, Repo, is_down, any_healthy, lost_count,
}
use tiny_chat_microservices.Connections.Get.{length}
use tiny_chat_microservices.Connections.Repository.{set_group, drop_service}

-- What a visit of one group does: the group after it, whether its address goes to `needs_pop`, and the
-- number of the tasks that it starts.
pub record Visit : Type 0 where
  pub group : StubGroup
  pub drops : Bool
  pub tasks : ℕ

-- What a loop over the groups does.
pub record Round : Type 0 where
  pub repo : Repo
  pub needs_pop : List ℕ
  pub tasks : ℕ

-- `for addr, stub_group in services.items()`
unfoldable pub visit_all : (StubGroup → Visit) → Dict ℕ → Repo → Round
visit_all visit [] r = record { repo = r; needs_pop = []; tasks = 0 }
visit_all visit ((addr, gid) ∷ services) r =
    let v = visit (r.group gid) in
    let rest = visit_all visit services (set_group r gid v.group) in
    record {
      repo = rest.repo;
      needs_pop = if v.drops then addr ∷ rest.needs_pop else rest.needs_pop;
      tasks = v.tasks + rest.tasks;
    }

-- `MAX_INT32`, which is `2 << (32 - 1)`
abbrev pub max_int32 : ℕ
max_int32 = 4294967296

-- `decay_rb`
unfoldable pub decay_rb : StubGroup → StubGroup
decay_rb g =
    if ltb max_int32 g.round_robin_index
    then record g { round_robin_index = g.round_robin_index - max_int32 }
    else g

-- `RoundRobin.decay`
unfoldable pub decay : Repo → Repo
decay r = if ltb max_int32 r.index then record r { index = r.index - max_int32 } else r

abbrev pub with_state : StubGroup → ChannelState → StubGroup
with_state g state = record g { state = state }

module _ (channel_ready : ℕ → Bool) where
  -- The case of a group that is to be rebuilt; `rebuild_if_needs` starts a task for each lost stub.
  unfoldable pub scan_rebuild : StubGroup → Visit
  unfolding lost_count
  scan_rebuild g =
      let tasks = lost_count channel_ready g.stubs in
      record {
        group =
            if tasks == 0
            then with_state g (record (g.state) { subject_rebuild = false; subject_down = false })
            else if ltb tasks (length g.stubs)
            then with_state g (record (g.state) { subject_down = false })
            else g;
        drops = false;
        tasks = tasks;
      }

  -- The case of any other group. `state &= SUBJECT_REBUILD` clears every other flag.
  unfoldable pub scan_rest : StubGroup → Visit
  unfolding any_healthy is_down
  scan_rest g =
      if any_healthy channel_ready g.stubs
      then record {
        group = with_state g (record (g.state) { subject_down = false });
        drops = false;
        tasks = 0;
      }
      else if is_down g
      then record { group = g; drops = true; tasks = 0 }
      else record {
        group = with_state g (record {
          idle = false;
          subject_rebuild = g.state.subject_rebuild;
          subject_down = false;
          etcd_report_up = false;
          etcd_report_down = false;
        });
        drops = false;
        tasks = 0;
      }

  unfoldable pub scan : StubGroup → Visit
  unfolding scan_rebuild scan_rest decay_rb
  scan g = let d = decay_rb g in if d.state.subject_rebuild then scan_rebuild d else scan_rest d

  -- The second loop, after the tasks.
  unfoldable pub recheck : StubGroup → Visit
  unfolding any_healthy
  recheck g =
      let down = not (any_healthy channel_ready g.stubs) in
      record {
        group = with_state g (record (g.state) { subject_rebuild = false; subject_down = down });
        drops = down && g.state.etcd_report_down;
        tasks = 0;
      }

-- `needs_pop` is worked off: an address that is missing raises KeyError; the group is closed and taken
-- out of the round robin and the ring if it is still down.
unfoldable pub pop_found : Repo → (addr : ℕ) → Option ℕ → Repo × Option PyError
unfolding drop_service is_down
pop_found r addr none = (r, some key_error)
pop_found r addr (some gid) =
    if is_down (r.group gid)
    then (drop_service r addr gid, none)
    else (record r { services = dict_pop r.services addr }, none)

abbrev pub and_then : Repo × Option PyError → (Repo → Repo × Option PyError) → Repo × Option PyError
and_then (r, none) next = next r
and_then (r, some e) next = (r, some e)

unfoldable pub pop_all : List ℕ → Repo → Repo × Option PyError
unfolding pop_found
pop_all [] r = (r, none)
pop_all (addr ∷ needs_pop) r =
    and_then (pop_found r addr (dict_get r.services addr)) (λ s. pop_all needs_pop s)

-- A new `force_check_waiter`, unless the round raised.
unfoldable pub end_round : Repo × Option PyError → Repo × Option PyError
end_round (r, none) = (record r { checked = false }, none)
end_round (r, some e) = (r, some e)

unfoldable pub after_tasks : (channel_ready : ℕ → Bool) → List ℕ → Repo → Repo × Option PyError
unfolding visit_all recheck pop_all end_round
after_tasks channel_ready needs_pop r =
    let second = visit_all (recheck channel_ready) r.services r in
    end_round (pop_all (needs_pop ++ second.needs_pop) second.repo)

-- One round. `first` and `second` are the answers of grpc before and after the tasks, and `meanwhile` is
-- what happens to the repository while the round waits for them.
unfoldable pub monitor_round :
    (first second : ℕ → Bool) (meanwhile : Repo → Repo) → Repo → Repo × Option PyError
unfolding visit_all scan after_tasks pop_all end_round
monitor_round first second meanwhile r =
    let begun = visit_all (scan first) r.services r in
    if begun.tasks == 0
    then end_round (pop_all begun.needs_pop begun.repo)
    else after_tasks second begun.needs_pop (meanwhile begun.repo)
