-- ===== src/Connections.antt =====
-- chat/common/src/chatp/rpc/grpc_service.py: the channels to one server (`GrpcStub`, `GrpcStubGroup`)
-- and the servers of one service (`GrpcStubRepositorty`). A channel is a number, and so is a group,
-- which the dict of a repository and its round robin share. Whether a channel is READY is the answer of
-- grpc, a function that does not change while the code runs without waiting.
pub mod Reconnect
pub mod Get
pub mod Repository
pub mod Invariant
pub mod Monitor
pub mod Route
pub mod Services
use tiny_chat_microservices.Prelude.{
  ℕ, suc, ◌+◌, Bool, true, false, ◌&&◌, ◌||◌, not, Option, none, some, List, [], ◌∷◌, Dict, Outcome,
  returns, raises,
}

-- `GrpcStub`: `_channel`, `retries`, whether it hibernates, `is_new_one`, and `create_bound`: whether
-- `create_func`, its arguments and `initialize_args` are bound, which `GrpcStub.create` does.
pub record Stub : Type 0 where
  pub channel : Option ℕ
  pub retries : ℕ
  pub hibernating : Bool
  pub is_new_one : Bool
  pub create_bound : Bool

-- `create_stub` under `shield_connection_error`: what `insecure_channel` raises is caught
unfoldable pub create_stub : Outcome ℕ → Stub
create_stub (returns channel) = record {
  channel = some channel;
  retries = 3;
  hibernating = false;
  is_new_one = false;
  create_bound = false;
}
create_stub (raises e) = record {
  channel = none;
  retries = 3;
  hibernating = false;
  is_new_one = false;
  create_bound = true;
}

-- `ChannelState`, a set of flags; `ALIVE` is never set
pub record ChannelState : Type 0 where
  pub idle : Bool
  pub subject_rebuild : Bool
  pub subject_down : Bool
  pub etcd_report_up : Bool
  pub etcd_report_down : Bool

-- `GrpcStubGroup` with one class of stubs. `closed` is `stubs is None`; the code makes `max_channels`
-- stubs, so the length of `stubs` stands for it.
pub record StubGroup : Type 0 where
  pub state : ChannelState
  pub stubs : List Stub
  pub closed : Bool
  pub round_robin_index : ℕ

-- `GrpcStubRepositorty`. `ring` is the list of the nodes of the `HashRing`; `items` and `index` are the
-- fields of `RoundRobin`; `checked` is whether `force_check_waiter` is done. `group` is the memory that
-- holds the groups, and `created` counts them.
pub record Repo : Type 0 where
  pub ready : Bool
  pub services : Dict ℕ
  pub items : List ℕ
  pub index : ℕ
  pub ring : List ℕ
  pub monitored : Bool
  pub checked : Bool
  pub group : ℕ → StubGroup
  pub created : ℕ

-- `is_down`
unfoldable pub is_down : StubGroup → Bool
is_down g = g.state.subject_down || g.state.etcd_report_down

module _ (channel_ready : ℕ → Bool) where
  -- `is_health`
  unfoldable pub is_health : Stub → Bool
  is_health s = elim s.channel [ none ↦ false | some c ↦ channel_ready c ]

  -- `is_lost`
  unfoldable pub is_lost : Stub → Bool
  is_lost s = elim s.channel [ none ↦ true | some c ↦ not s.hibernating && not (channel_ready c) ]

  -- `check_if_any_healthy`
  unfoldable pub any_healthy : List Stub → Bool
  any_healthy [] = false
  any_healthy (s ∷ stubs) = is_health s || any_healthy stubs

  -- the number of tasks that `rebuild_if_needs` starts
  unfoldable pub lost_count : List Stub → ℕ
  lost_count [] = 0
  lost_count (s ∷ stubs) = (elim (is_lost s) [ true ↦ 1 | false ↦ 0 ]) + lost_count stubs
