-- ===== src/Connections/Monitor/Rounds.antt =====
-- grpc_service.py: what a round of the monitor does to the dict, the round robin and the ring.
use tiny_chat_microservices.Prelude.{
  ℕ, ◌≤◌, ◌≡◌, refl, sym, subst, Bool, true, false, Option, none, some, List, [], ◌∷◌, Dict,
  dict_get, get-pop, if-both, ◌==◌, times, keys, values, arith, inl, inr, ◌⊎◌, PyError,
}
use tiny_chat_microservices.Connections.{StubGroup, Repo, is_down}
use tiny_chat_microservices.Connections.Repository.{set_group, drop_service, close_group}
use tiny_chat_microservices.Connections.Invariant.{
  Consistent, Alike, Alike-trans, Alike-refl, Alike-Consistent, drop_service-Consistent,
}
use tiny_chat_microservices.Connections.Monitor.{
  Visit, Round, visit_all, decay_rb, scan_rebuild, scan_rest, scan, recheck, pop_found, pop_all,
  end_round, after_tasks, monitor_round,
}

-- A visit that drops only groups that are down, and closes none.
pub record Sound (visit : StubGroup → Visit) : Type 0 where
  pub closed : (g : StubGroup) → (visit g).group.closed ≡ g.closed
  pub down : (g : StubGroup) → (visit g).drops ≡ true → is_down ((visit g).group) ≡ true

pub scan-Sound : (channel_ready : ℕ → Bool) → Sound (scan channel_ready)
unfolding scan scan_rebuild scan_rest decay_rb is_down
scan-Sound channel_ready = record { closed = λ g. ground arith; down = λ g h. ground arith }

pub recheck-Sound : (channel_ready : ℕ → Bool) → Sound (recheck channel_ready)
unfolding recheck is_down
recheck-Sound channel_ready = record { closed = λ g. refl; down = λ g h. ground arith }

abbrev down_found : (ℕ → StubGroup) → Option ℕ → Bool
down_found group none = false
down_found group (some gid) = is_down (group gid)

module _ (visit : StubGroup → Visit) (sound : Sound visit) where
  pub visit_all-Alike : (d : Dict ℕ) (r : Repo) → Alike r (visit_all visit d r).repo
  unfolding visit_all
  visit_all-Alike [] r = Alike-refl r
  visit_all-Alike ((addr, gid) ∷ d) r =
      Alike-trans r (set_group r gid ((visit (r.group gid)).group)) _
        (record {
          services = refl;
          items = refl;
          ring = refl;
          created = refl;
          closed = λ k. ground (arith, sound.closed (r.group gid));
        })
        (visit_all-Alike d _)

  visit_all-others :
      (d : Dict ℕ) (r : Repo) (gid : ℕ)
      → times (values d) gid ≡ 0
      → (visit_all visit d r).repo.group gid ≡ r.group gid
  unfolding visit_all
  visit_all-others [] r gid h = refl
  visit_all-others ((addr, k) ∷ d) r gid h =
      ground (arith, visit_all-others d (set_group r k ((visit (r.group k)).group)) gid)

  visit_all-times :
      (d : Dict ℕ) (r : Repo) (addr : ℕ)
      → times (visit_all visit d r).needs_pop addr ≤ times (keys d) addr
  unfolding visit_all
  visit_all-times [] r addr = ground arith
  visit_all-times ((k, gid) ∷ d) r addr =
      ground (arith, visit_all-times d (set_group r gid ((visit (r.group gid)).group)) addr)

  visit_all-down :
      (d : Dict ℕ) (r : Repo) (addr : ℕ)
      → ((k : ℕ) → times (keys d) k ≤ 1)
      → ((k : ℕ) → times (values d) k ≤ 1)
      → 1 ≤ times (visit_all visit d r).needs_pop addr
      → down_found (visit_all visit d r).repo.group (dict_get d addr) ≡ true
  unfolding visit_all dict_get
  visit_all-down [] r addr one_key one_value h = ground arith
  visit_all-down ((k, gid) ∷ d) r addr one_key one_value h =
      let s : Repo = set_group r gid ((visit (r.group gid)).group) in
      ground (
        arith,
        visit_all-times d s addr,
        visit_all-down d s addr (λ i. ground (arith, one_key i)) (λ i. ground (arith, one_value i)),
        visit_all-others d s gid,
        one_key k,
        one_value gid,
        sound.down (r.group gid),
      )

-- Every address is there once, and its group is in the dict and down.
record Droppable (needs_pop : List ℕ) (r : Repo) : Type 0 where
  once : (addr : ℕ) → times needs_pop addr ≤ 1
  down :
      (addr : ℕ) → 1 ≤ times needs_pop addr → down_found r.group (dict_get r.services addr) ≡ true

visit_all-Droppable :
    (visit : StubGroup → Visit) (r : Repo)
    → Sound visit
    → Consistent r
    → Droppable (visit_all visit r.services r).needs_pop (visit_all visit r.services r).repo
visit_all-Droppable visit r sound h = record {
  once = λ k.
      ground (arith, visit_all-times visit sound r.services r k, h.one_address k, h.same_nodes);
  down = λ k p. rw ((visit_all-Alike visit sound r.services r).services) (
      visit_all-down visit sound r.services r k
        (subst (λ l. (i : ℕ) → times l i ≤ 1) (h.same_nodes) (h.one_address))
        (subst (λ l. (i : ℕ) → times l i ≤ 1) (h.same_items) (h.one_group)) p);
}

-- The addresses that are left, after the first was worked off.
drop_service-Droppable :
    (r : Repo) (addr gid : ℕ) (needs_pop : List ℕ)
    → Droppable (addr ∷ needs_pop) r
    → Droppable needs_pop (drop_service r addr gid)
unfolding drop_service close_group is_down
drop_service-Droppable r addr gid needs_pop d = record {
  once = λ k. ground (arith, d.once k);
  down = λ k p. ground (arith, d.once k, d.down k, get-pop r.services addr k);
}

abbrev pub Served : Repo × Option PyError → Type 0
Served (r, o) = (o ≡ none) × Consistent r

pop_found-Served :
    (r : Repo) (addr : ℕ) (needs_pop : List ℕ) (o : Option ℕ)
    → dict_get r.services addr ≡ o
    → Droppable (addr ∷ needs_pop) r
    → Consistent r
    → (s : Repo) × (pop_found r addr o ≡ (s, none)) × Consistent s × Droppable needs_pop s
unfolding pop_found
pop_found-Served r addr needs_pop none e d h = ground (arith, d.down addr)
pop_found-Served r addr needs_pop (some gid) e d h = (
  drop_service r addr gid,
  ground (arith, d.down addr),
  drop_service-Consistent r addr gid h e,
  drop_service-Droppable r addr gid needs_pop d,
)

pop_all-Served :
    (needs_pop : List ℕ) (r : Repo)
    → Droppable needs_pop r
    → Consistent r
    → Served (pop_all needs_pop r)
unfolding pop_all
pop_all-Served [] r d h = (refl, h)
pop_all-Served (addr ∷ needs_pop) r d h =
    let (s, e, k, l) = pop_found-Served r addr needs_pop (dict_get r.services addr) refl d h in
    rw e (pop_all-Served needs_pop s l k)

end_round-Served : (p : Repo × Option PyError) → Served p → Served (end_round p)
unfolding end_round
end_round-Served (r, none) h = (
  refl,
  Alike-Consistent r _
      (record { services = refl; items = refl; ring = refl; created = refl; closed = λ k. refl })
      (h.1),
)
end_round-Served (r, some e) h = h

round-Served :
    (visit : StubGroup → Visit) (r : Repo)
    → Sound visit
    → Consistent r
    → Served (
        end_round
          (pop_all (visit_all visit r.services r).needs_pop (visit_all visit r.services r).repo))
round-Served visit r sound h = end_round-Served _ (
    pop_all-Served _ _ (visit_all-Droppable visit r sound h)
      (Alike-Consistent r _ (visit_all-Alike visit sound r.services r) h))

after_tasks-Served :
    (channel_ready : ℕ → Bool) (needs_pop : List ℕ) (r : Repo)
    → needs_pop ≡ []
    → Consistent r
    → Served (after_tasks channel_ready needs_pop r)
unfolding after_tasks
after_tasks-Served channel_ready needs_pop r e h =
    subst (λ l. Served (after_tasks channel_ready l r)) (sym e)
      (round-Served (recheck channel_ready) r (recheck-Sound channel_ready) h)

-- A round of the monitor raises nothing, and keeps the dict, the round robin and the ring the same, if
-- it waits for no task, or if its first loop found nothing to drop.
pub monitor_round-Served :
    (first second : ℕ → Bool) (meanwhile : Repo → Repo) (r : Repo)
    → Consistent r
    → ((s : Repo) → Consistent s → Consistent (meanwhile s))
    → ((visit_all (scan first) r.services r).tasks ≡ 0)
      ⊎ ((visit_all (scan first) r.services r).needs_pop ≡ [])
    → Served (monitor_round first second meanwhile r)
unfolding monitor_round after_tasks
monitor_round-Served first second meanwhile r h keep (inl idle) =
    rw idle (round-Served (scan first) r (scan-Sound first) h)
monitor_round-Served first second meanwhile r h keep (inr nothing) =
    let begun : Round = visit_all (scan first) r.services r in
    if-both Served (begun.tasks == 0) (round-Served (scan first) r (scan-Sound first) h) (
      after_tasks-Served second begun.needs_pop (meanwhile begun.repo) nothing (
        keep begun.repo (
          Alike-Consistent r begun.repo
            (visit_all-Alike (scan first) (scan-Sound first) r.services r) h)))
