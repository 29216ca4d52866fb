-- ===== src/Connections/Services/Routable.antt =====
-- grpc_service.py: what holds of a repository whatever its monitor leaves, between the dict and the round
-- robin: a round may take a service out of the dict only.
use tiny_chat_microservices.Prelude.{
  ℕ, ◌≤◌, ◌≡◌, refl, subst, Bool, false, ◌||◌, not, Option, none, some, List, [], ◌∷◌, dict_get,
  dict_pop, get-put, get-pop, Outcome, PyError, times, times-without, times-last, arith, if-both,
  Bool-cases, inl, inr,
}
use tiny_chat_microservices.Connections.{StubGroup, Repo, is_down, any_healthy}
use tiny_chat_microservices.Connections.Get.{initialize}
use tiny_chat_microservices.Connections.Repository.{
  drop_service, close_group, force_check, place, add_found, add, start_monitor, remove_found,
  remove,
}
use tiny_chat_microservices.Connections.Invariant.{Alike, set_state-Alike, start_monitor-Alike}
use tiny_chat_microservices.Connections.Monitor.{
  Visit, visit_all, pop_found, pop_all, and_then, end_round,
}
use tiny_chat_microservices.Connections.Monitor.Rounds.{Sound, visit_all-Alike}

pub record Routable (r : Repo) : Type 0 where
  pub one_group : (gid : ℕ) → times r.items gid ≤ 1
  pub made : (gid : ℕ) → r.created ≤ gid → times r.items gid ≡ 0
  -- no group of the round robin is closed
  pub opened : (gid : ℕ) → 1 ≤ times r.items gid → (r.group gid).closed ≡ false
  -- the groups of the dict are in the round robin, each under one address
  pub routed : (addr gid : ℕ) → dict_get r.services addr ≡ some gid → 1 ≤ times r.items gid
  pub distinct :
      (addr other gid : ℕ)
      → dict_get r.services addr ≡ some gid
      → dict_get r.services other ≡ some gid
      → addr ≡ other

pub Alike-Routable : (r s : Repo) → Alike r s → Routable r → Routable s
Alike-Routable r s a h = record {
  one_group = λ k. rw (a.items) (h.one_group k);
  made = λ k p. rw (a.items) (h.made k (ground (arith, a.created)));
  opened = λ k p. ground (arith, a.closed k, h.opened k (subst (λ l. 1 ≤ times l k) (a.items) p));
  routed = λ k g e. rw (a.items) (h.routed k g (subst (λ d. dict_get d k ≡ some g) (a.services) e));
  distinct = λ k j g e f.
      h.distinct k j g (subst (λ d. dict_get d k ≡ some g) (a.services) e)
        (subst (λ d. dict_get d j ≡ some g) (a.services) f);
}

pub drop_service-Routable :
    (r : Repo) (addr gid : ℕ)
    → dict_get r.services addr ≡ some gid
    → Routable r
    → Routable (drop_service r addr gid)
unfolding drop_service close_group
drop_service-Routable r addr gid e h = record {
  one_group = λ k. ground (arith, times-without r.items gid k, h.one_group k);
  made = λ k p. ground (arith, times-without r.items gid k, h.made k p);
  opened = λ k p. ground (arith, times-without r.items gid k, h.one_group k, h.opened k);
  routed = λ k g f. ground (
    arith,
    get-pop r.services addr k,
    times-without r.items gid g,
    h.routed k g,
    h.distinct addr k gid e,
  );
  distinct = λ k j g f i.
      ground (arith, get-pop r.services addr k, get-pop r.services addr j, h.distinct k j g);
}

-- The dict loses an address, and the round robin keeps the group.
pub popped-Routable :
    (r : Repo) (addr : ℕ) → Routable r → Routable (record r { services = dict_pop r.services addr })
popped-Routable r addr h = record {
  one_group = h.one_group;
  made = h.made;
  opened = h.opened;
  routed = λ k g f. ground (arith, get-pop r.services addr k, h.routed k g);
  distinct = λ k j g f i.
      ground (arith, get-pop r.services addr k, get-pop r.services addr j, h.distinct k j g);
}

module _ (channel_ready : ℕ → Bool) where
  place-Routable :
      (r : Repo) (addr : ℕ) (g : StubGroup)
      → g.closed ≡ false
      → Routable r
      → Routable (place channel_ready r addr g)
  unfolding place force_check
  place-Routable r addr g o h = record {
    one_group =
        λ k. ground (arith, times-last r.items r.created k, h.one_group k, h.made r.created);
    made = λ k p. ground (arith, times-last r.items r.created k, h.made k);
    opened = λ k p. ground (arith, times-last r.items r.created k, h.opened k);
    routed = λ k g f.
        ground (
          arith,
          get-put r.services addr k r.created,
          times-last r.items r.created g,
          h.routed k g,
        );
    distinct = λ k j g f i. ground (
      arith,
      get-put r.services addr k r.created,
      get-put r.services addr j r.created,
      h.distinct k j g,
      h.routed k g,
      h.routed j g,
      h.made r.created,
    );
  }

  add_found-Routable :
      (r : Repo) (addr : ℕ) (created : List (Outcome ℕ)) (o : Option ℕ)
      → Routable r
      → Routable (add_found channel_ready r addr created o)
  unfolding add_found initialize
  add_found-Routable r addr created none h =
      place-Routable (start_monitor r) addr (initialize created) refl
        (Alike-Routable r (start_monitor r) (start_monitor-Alike r) h)
  add_found-Routable r addr created (some gid) h = Alike-Routable r _ (set_state-Alike r gid _) h

  pub add-Routable :
      (r : Repo) (addr : ℕ) (created : List (Outcome ℕ))
      → Routable r
      → Routable (add channel_ready r addr created)
  unfolding add
  add-Routable r addr created h =
      if-both Routable r.ready (add_found-Routable r addr created (dict_get r.services addr) h) h

  remove_found-Routable :
      (r : Repo) (addr : ℕ) (o : Option ℕ)
      → dict_get r.services addr ≡ o
      → Routable r
      → Routable (remove_found channel_ready r addr o)
  unfolding remove_found force_check
  remove_found-Routable r addr none e h = h
  remove_found-Routable r addr (some gid) e h =
      if-both Routable
        ((r.group gid).state.subject_down || not (any_healthy channel_ready (r.group gid).stubs))
        (drop_service-Routable r addr gid e h)
        (Alike-Routable r _
          (record {
            services = refl;
            items = refl;
            ring = refl;
            created = refl;
            closed = λ k. ground arith;
          })
          h)

  pub remove-Routable : (r : Repo) (addr : ℕ) → Routable r → Routable (remove channel_ready r addr)
  unfolding remove
  remove-Routable r addr h =
      if-both Routable r.ready (remove_found-Routable r addr (dict_get r.services addr) refl h) h

-- The work of a round on the addresses that it drops, and its end.
pop_found-Routable :
    (r : Repo) (addr : ℕ) (o : Option ℕ)
    → dict_get r.services addr ≡ o
    → Routable r
    → Routable (pop_found r addr o).0
unfolding pop_found
pop_found-Routable r addr none e h = h
pop_found-Routable r addr (some gid) e h = elim (Bool-cases (is_down (r.group gid))) [
  | inl down ↦ rw down (drop_service-Routable r addr gid e h)
  | inr up ↦ rw up (popped-Routable r addr h)
]

and_then-Routable :
    (p : Repo × Option PyError) (next : Repo → Repo × Option PyError)
    → Routable p.0
    → ((s : Repo) → Routable s → Routable (next s).0)
    → Routable (and_then p next).0
and_then-Routable (r, none) next h keep = keep r h
and_then-Routable (r, some e) next h keep = h

pop_all-Routable : (needs_pop : List ℕ) (r : Repo) → Routable r → Routable (pop_all needs_pop r).0
unfolding pop_all
pop_all-Routable [] r h = h
pop_all-Routable (addr ∷ needs_pop) r h =
    and_then-Routable (pop_found r addr (dict_get r.services addr)) (λ s. pop_all needs_pop s)
      (pop_found-Routable r addr (dict_get r.services addr) refl h) (pop_all-Routable needs_pop)

pub end_round-Routable : (p : Repo × Option PyError) → Routable p.0 → Routable (end_round p).0
unfolding end_round
end_round-Routable (r, none) h =
    Alike-Routable r _
      (record { services = refl; items = refl; ring = refl; created = refl; closed = λ k. refl }) h
end_round-Routable (r, some e) h = h

pub popped_all-Routable :
    (needs_pop : List ℕ) (r : Repo) → Routable r → Routable (end_round (pop_all needs_pop r)).0
popped_all-Routable needs_pop r h = end_round-Routable _ (pop_all-Routable needs_pop r h)

pub visited-Routable :
    (visit : StubGroup → Visit) (r : Repo)
    → Sound visit
    → Routable r
    → Routable (visit_all visit r.services r).repo
visited-Routable visit r sound h = Alike-Routable r _ (visit_all-Alike visit sound r.services r) h
