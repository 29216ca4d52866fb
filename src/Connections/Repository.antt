-- ===== src/Connections/Repository.antt =====
-- grpc_service.py: `add`, `remove`, `notify_connection_alive`, `notify_connection_lost` and `close` of
-- `GrpcStubRepositorty`.
use tiny_chat_microservices.Prelude.{
  ℕ, ◌+◌, Bool, true, false, ◌||◌, not, Option, none, some, List, [], ◌∷◌, ◌++◌, dict_get, dict_put,
  dict_pop, Outcome, if◌then◌else◌, ◌==◌, without,
}
use tiny_chat_microservices.Connections.{ChannelState, StubGroup, Repo, any_healthy}
use tiny_chat_microservices.Connections.Get.{initialize}

-- An assignment to a field of the group with this number.
abbrev pub set_group : Repo → ℕ → StubGroup → Repo
set_group r gid g = record r { group = λ i. if i == gid then g else r.group i }

abbrev pub set_state : Repo → ℕ → ChannelState → Repo
set_state r gid state = set_group r gid (record (r.group gid) { state = state })

-- `if not (waiter := self.force_check_waiter).done(): waiter.set_result(None)`
unfoldable pub force_check : Repo → Repo
force_check r = record r { checked = true }

-- `notify_connection_alive`
unfoldable pub notify_connection_alive : Repo → ℕ → Repo
notify_connection_alive r gid =
    set_state r gid (record ((r.group gid).state) { subject_down = false })

-- `notify_connection_lost`
unfoldable pub notify_connection_lost : Repo → ℕ → Repo
unfolding force_check
notify_connection_lost r gid =
    let state = (r.group gid).state in
    if state.subject_rebuild
    then r
    else force_check (set_state r gid (record state { subject_rebuild = true }))

-- The monitor is started with the first group.
unfoldable pub start_monitor : Repo → Repo
start_monitor r = if r.monitored then r else record r { monitored = true; checked = false }

-- `GrpcStubGroup.close` closes the channels of all stubs.
unfoldable pub close_group : Repo → ℕ → Repo
close_group r gid = set_group r gid (record (r.group gid) { stubs = []; closed = true })

-- `services.pop(addr)`, `round_robin.remove`, `ring.remove_node` and `close`
unfoldable pub drop_service : Repo → (addr gid : ℕ) → Repo
unfolding close_group
drop_service r addr gid =
    close_group
      (record r {
        services = dict_pop r.services addr;
        items = without r.items gid;
        ring = without r.ring addr;
      })
      gid

module _ (channel_ready : ℕ → Bool) where
  -- The new group, after the check of its channels, with the waiter that this check may wake.
  unfoldable pub place : Repo → (addr : ℕ) → StubGroup → Repo
  unfolding force_check any_healthy
  place r addr g =
      let up = record (g.state) { etcd_report_up = true } in
      let healthy = any_healthy channel_ready g.stubs in
      let placed =
        set_group (if healthy then r else force_check r) r.created
          (record g { state = record up { subject_rebuild = not healthy } }) in
      record placed {
        services = dict_put r.services addr r.created;
        items = r.items ++ (r.created ∷ []);
        ring = r.ring ++ (addr ∷ []);
        created = r.created + 1;
      }

  unfoldable pub add_found : Repo → (addr : ℕ) → List (Outcome ℕ) → Option ℕ → Repo
  unfolding place start_monitor initialize
  add_found r addr created none = place (start_monitor r) addr (initialize created)
  add_found r addr created (some gid) =
      set_state r gid
        (record ((r.group gid).state) { etcd_report_up = true; etcd_report_down = false })

  -- `add`
  unfoldable pub add : Repo → (addr : ℕ) → List (Outcome ℕ) → Repo
  unfolding add_found
  add r addr created = if r.ready then add_found r addr created (dict_get r.services addr) else r

  unfoldable pub remove_found : Repo → (addr : ℕ) → Option ℕ → Repo
  unfolding drop_service any_healthy force_check
  remove_found r addr none = r
  remove_found r addr (some gid) =
      let g = r.group gid in
      if g.state.subject_down || not (any_healthy channel_ready g.stubs)
      then drop_service r addr gid
      else force_check (
          set_state r gid (record (g.state) {
            etcd_report_up = false;
            etcd_report_down = true;
            subject_rebuild = true;
          }))

  -- `remove`
  unfoldable pub remove : Repo → (addr : ℕ) → Repo
  unfolding remove_found
  remove r addr = if r.ready then remove_found r addr (dict_get r.services addr) else r
