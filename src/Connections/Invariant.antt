-- ===== src/Connections/Invariant.antt =====
-- grpc_service.py: an invariant of the dict, the round robin and the hash ring of a repository.
use tiny_chat_microservices.Prelude.{
  ℕ, ◌≤◌, ◌≡◌, refl, subst, ◌∙◌, Bool, false, ◌||◌, not, Option, none, some, List, dict_get,
  Outcome, times, times-without, times-last, keys, values, keys-put, values-put, get-absent,
  keys-pop, values-pop, arith, if-both,
}
use tiny_chat_microservices.Connections.{ChannelState, StubGroup, Repo, any_healthy}
use tiny_chat_microservices.Connections.Get.{initialize}
use tiny_chat_microservices.Connections.Repository.{
  set_state, force_check, notify_connection_alive, notify_connection_lost, start_monitor,
  close_group, place, add_found, add, drop_service, remove_found, remove,
}

pub record Consistent (r : Repo) : Type 0 where
  -- the round robin and the ring have the entries of the dict, in its order
  pub same_items : r.items ≡ values r.services
  pub same_nodes : r.ring ≡ keys r.services
  pub one_address : (addr : ℕ) → times r.ring addr ≤ 1
  pub one_group : (gid : ℕ) → times r.items gid ≤ 1
  pub made : (gid : ℕ) → r.created ≤ gid → times r.items gid ≡ 0
  -- no group that can be routed to is closed
  pub opened : (gid : ℕ) → 1 ≤ times r.items gid → (r.group gid).closed ≡ false

-- What two repositories share when only flags of groups, the index and the waiter differ.
pub record Alike (r s : Repo) : Type 0 where
  pub services : s.services ≡ r.services
  pub items : s.items ≡ r.items
  pub ring : s.ring ≡ r.ring
  pub created : s.created ≡ r.created
  pub closed : (gid : ℕ) → (s.group gid).closed ≡ (r.group gid).closed

pub Alike-Consistent : (r s : Repo) → Alike r s → Consistent r → Consistent s
Alike-Consistent r s a h = record {
  same_items = ground (arith, a.items, a.services, h.same_items);
  same_nodes = ground (arith, a.ring, a.services, h.same_nodes);
  one_address = λ k. rw (a.ring) (h.one_address k);
  one_group = λ k. rw (a.items) (h.one_group k);
  made = λ k p. rw (a.items) (h.made k (ground (arith, a.created)));
  opened = λ k p. ground (arith, a.closed k, h.opened k (subst (λ l. 1 ≤ times l k) (a.items) p));
}

pub Alike-trans : (r s t : Repo) → Alike r s → Alike s t → Alike r t
Alike-trans r s t a b = record {
  services = b.services ∙ a.services;
  items = b.items ∙ a.items;
  ring = b.ring ∙ a.ring;
  created = b.created ∙ a.created;
  closed = λ k. b.closed k ∙ a.closed k;
}

pub Alike-refl : (r : Repo) → Alike r r
Alike-refl r = record {
  services = refl;
  items = refl;
  ring = refl;
  created = refl;
  closed = λ k. refl;
}

pub set_state-Alike : (r : Repo) (gid : ℕ) (state : ChannelState) → Alike r (set_state r gid state)
set_state-Alike r gid state = record {
  services = refl;
  items = refl;
  ring = refl;
  created = refl;
  closed = λ k. ground arith;
}

pub notify_alive-Alike : (r : Repo) (gid : ℕ) → Alike r (notify_connection_alive r gid)
unfolding notify_connection_alive
notify_alive-Alike r gid = set_state-Alike r gid _

pub notify_lost-Alike : (r : Repo) (gid : ℕ) → Alike r (notify_connection_lost r gid)
unfolding notify_connection_lost force_check
notify_lost-Alike r gid = record {
  services = ground arith;
  items = ground arith;
  ring = ground arith;
  created = ground arith;
  closed = λ k. ground arith;
}

pub start_monitor-Alike : (r : Repo) → Alike r (start_monitor r)
unfolding start_monitor
start_monitor-Alike r = record {
  services = ground arith;
  items = ground arith;
  ring = ground arith;
  created = ground arith;
  closed = λ k. ground arith;
}

-- A group that is taken out of the dict, the round robin and the ring.
pub drop_service-Consistent :
    (r : Repo) (addr gid : ℕ)
    → Consistent r
    → dict_get r.services addr ≡ some gid
    → Consistent (drop_service r addr gid)
unfolding drop_service close_group
drop_service-Consistent r addr gid h e = record {
  same_items = ground (
    arith,
    h.same_items,
    values-pop r.services addr gid,
    h.one_address addr,
    h.same_nodes,
    h.one_group gid,
  );
  same_nodes = ground (arith, h.same_nodes, keys-pop r.services addr, h.one_address addr);
  one_address = λ k. ground (arith, times-without r.ring addr k, h.one_address k);
  one_group = λ k. ground (arith, times-without r.items gid k, h.one_group k);
  made = λ k p. ground (arith, times-without r.items gid k, h.made k p);
  opened = λ k p. ground (arith, times-without r.items gid k, h.one_group k, h.opened k);
}

module _ (channel_ready : ℕ → Bool) where
  place-Consistent :
      (r : Repo) (addr : ℕ) (g : StubGroup)
      → g.closed ≡ false
      → dict_get r.services addr ≡ none
      → Consistent r
      → Consistent (place channel_ready r addr g)
  unfolding place force_check
  place-Consistent r addr g o e h = record {
    same_items = ground (arith, h.same_items, values-put r.services addr r.created);
    same_nodes = ground (arith, h.same_nodes, keys-put r.services addr r.created);
    one_address = λ k. ground (
      arith,
      times-last r.ring addr k,
      h.one_address k,
      get-absent r.services addr e,
      h.same_nodes,
    );
    one_group =
        λ k. ground (arith, times-last r.items r.created k, h.one_group k, h.made r.created);
    made = λ k p. ground (arith, times-last r.items r.created k, h.made k);
    opened = λ k p. ground (arith, times-last r.items r.created k, h.opened k);
  }

  add_found-Consistent :
      (r : Repo) (addr : ℕ) (created : List (Outcome ℕ)) (o : Option ℕ)
      → dict_get r.services addr ≡ o
      → Consistent r
      → Consistent (add_found channel_ready r addr created o)
  unfolding add_found initialize
  add_found-Consistent r addr created none e h =
      place-Consistent (start_monitor r) addr (initialize created) refl
        (ground (arith, e, (start_monitor-Alike r).services))
        (Alike-Consistent r (start_monitor r) (start_monitor-Alike r) h)
  add_found-Consistent r addr created (some gid) e h =
      Alike-Consistent r _ (set_state-Alike r gid _) h

  pub add-Consistent :
      (r : Repo) (addr : ℕ) (created : List (Outcome ℕ))
      → Consistent r
      → Consistent (add channel_ready r addr created)
  unfolding add
  add-Consistent r addr created h =
      if-both Consistent r.ready
        (add_found-Consistent r addr created (dict_get r.services addr) refl h) h

  remove_found-Consistent :
      (r : Repo) (addr : ℕ) (o : Option ℕ)
      → dict_get r.services addr ≡ o
      → Consistent r
      → Consistent (remove_found channel_ready r addr o)
  unfolding remove_found force_check
  remove_found-Consistent r addr none e h = h
  remove_found-Consistent r addr (some gid) e h =
      if-both Consistent
        ((r.group gid).state.subject_down || not (any_healthy channel_ready (r.group gid).stubs))
        (drop_service-Consistent r addr gid h e)
        (Alike-Consistent r _
          (record {
            services = refl;
            items = refl;
            ring = refl;
            created = refl;
            closed = λ k. ground arith;
          })
          h)

  pub remove-Consistent :
      (r : Repo) (addr : ℕ) → Consistent r → Consistent (remove channel_ready r addr)
  unfolding remove
  remove-Consistent r addr h =
      if-both Consistent r.ready (remove_found-Consistent r addr (dict_get r.services addr) refl h)
        h
