-- ===== src/Connections/Route/Choice.antt =====
-- manager/loadbalance.py: which stub `LoadBalancer.route` chooses without a hash key.
use tiny_chat_microservices.Prelude.{
  ℕ, zero, suc, ◌+◌, ◌%◌, ◌≤◌, ◌≡◌, refl, ap, sym, subst, ◌∙◌, Bool, true, false, ◌||◌, Option,
  none, some, List, [], ◌∷◌, ◌++◌, times, arith, Outcome, returns, raises,
}
use tiny_chat_microservices.Connections.{StubGroup, Stub, Repo, is_health, any_healthy}
use tiny_chat_microservices.Connections.Get.{get, Finds, get-Finds, nth}
use tiny_chat_microservices.Connections.Repository.{
  force_check, notify_connection_alive, notify_connection_lost,
}
use tiny_chat_microservices.Connections.Invariant.{Consistent, Alike}
use tiny_chat_microservices.Connections.Route.{
  take, drop, flick, route_next, asked, route_loop, route_random, count,
}

-- What the choice of a stub leaves as it was; a group that is to be rebuilt stays so.
record Untouched (r s : Repo) : Type 0 where
  services : s.services ≡ r.services
  items : s.items ≡ r.items
  ring : s.ring ≡ r.ring
  created : s.created ≡ r.created
  closed : (gid : ℕ) → (s.group gid).closed ≡ (r.group gid).closed
  stubs : (gid : ℕ) → (s.group gid).stubs ≡ (r.group gid).stubs
  rebuild :
      (gid : ℕ)
      → (r.group gid).state.subject_rebuild ≡ true
      → (s.group gid).state.subject_rebuild ≡ true

Untouched-Alike : (r s : Repo) → Untouched r s → Alike r s
Untouched-Alike r s u = record {
  services = u.services;
  items = u.items;
  ring = u.ring;
  created = u.created;
  closed = u.closed;
}

Untouched-trans : (r s t : Repo) → Untouched r s → Untouched s t → Untouched r t
Untouched-trans r s t u v = record {
  services = v.services ∙ u.services;
  items = v.items ∙ u.items;
  ring = v.ring ∙ u.ring;
  created = v.created ∙ u.created;
  closed = λ k. v.closed k ∙ u.closed k;
  stubs = λ k. v.stubs k ∙ u.stubs k;
  rebuild = λ k h. v.rebuild k (u.rebuild k h);
}

Untouched-refl : (r : Repo) → Untouched r r
Untouched-refl r = record {
  services = refl;
  items = refl;
  ring = refl;
  created = refl;
  closed = λ k. refl;
  stubs = λ k. refl;
  rebuild = λ k h. h;
}

lost-Untouched : (r : Repo) (gid : ℕ) → Untouched r (notify_connection_lost r gid)
unfolding notify_connection_lost force_check
lost-Untouched r gid = record {
  services = ground arith;
  items = ground arith;
  ring = ground arith;
  created = ground arith;
  closed = λ k. ground arith;
  stubs = λ k. ground arith;
  rebuild = λ k h. ground arith;
}

lost-rebuild :
    (r : Repo) (gid : ℕ) → ((notify_connection_lost r gid).group gid).state.subject_rebuild ≡ true
unfolding notify_connection_lost force_check
lost-rebuild r gid = ground arith

alive-Untouched : (r : Repo) (gid : ℕ) → Untouched r (notify_connection_alive r gid)
unfolding notify_connection_alive
alive-Untouched r gid = record {
  services = refl;
  items = refl;
  ring = refl;
  created = refl;
  closed = λ k. ground arith;
  stubs = λ k. ground arith;
  rebuild = λ k h. ground arith;
}

module _ (channel_ready : ℕ → Bool) where
  asked-Untouched : (r : Repo) (gid : ℕ) → Untouched r (asked channel_ready r none gid)
  unfolding asked get
  asked-Untouched r gid = record {
    services = refl;
    items = refl;
    ring = refl;
    created = refl;
    closed = λ k. ground arith;
    stubs = λ k. ground arith;
    rebuild = λ k h. ground arith;
  }

  -- What is said of the answer: a stub is READY and one of a group that was asked; no stub means that no
  -- group has one that is READY.
  unfoldable pub Routes : List ℕ → (ℕ → StubGroup) → Option Stub → Type 0
  Routes gids group none =
      (gid : ℕ) → 1 ≤ times gids gid → any_healthy channel_ready (group gid).stubs ≡ false
  Routes gids group (some s) =
      (is_health channel_ready s ≡ true)
      × ((gid : ℕ) × (1 ≤ times gids gid) × ((j : ℕ) × (nth (group gid).stubs j ≡ some s)))

  pub record Routed (gids : List ℕ) (r : Repo) (p : Repo × Outcome (Option Stub)) : Type 0 where
    pub stub : Option Stub
    pub answer : p.1 ≡ returns stub
    pub routes : Routes gids r.group stub
    untouched : Untouched r p.0
    marked :
        stub ≡ none → (gid : ℕ) → 1 ≤ times gids gid → (p.0.group gid).state.subject_rebuild ≡ true

  -- After a group without a READY channel, the answer is that of the other groups.
  Routes-cons :
      (gid : ℕ) (gids : List ℕ) (r s : Repo) (o : Option Stub)
      → any_healthy channel_ready (r.group gid).stubs ≡ false
      → Untouched r s
      → Routes gids s.group o
      → Routes (gid ∷ gids) r.group o
  unfolding Routes
  Routes-cons gid gids r s none e u h = λ k p. ground (arith, e, u.stubs k, h k)
  Routes-cons gid gids r s (some stub) e u (ready, (k, there, (j, place))) =
      (ready, (k, ground (arith, there), (j, ap (λ l. nth l j) (sym (u.stubs k)) ∙ place)))

  next-Routed :
      (r : Repo) (gid : ℕ) (gids : List ℕ) (o : Option Stub) (rest : Repo × Outcome (Option Stub))
      → Finds channel_ready (r.group gid).stubs o
      → Routed gids (notify_connection_lost (asked channel_ready r none gid) gid) rest
      → Routed
          (gid ∷ gids)
          r
          (route_next channel_ready (asked channel_ready r none gid) gid (returns o) rest)
  unfolding route_next Finds Routes
  next-Routed r gid gids (some s) rest (ready, place) h = record {
    stub = some s;
    answer = refl;
    routes = (ready, (gid, ground arith, place));
    untouched =
        Untouched-trans r (asked channel_ready r none gid) _ (asked-Untouched r gid)
          (alive-Untouched (asked channel_ready r none gid) gid);
    marked = λ e. ground arith;
  }
  next-Routed r gid gids none rest none_ready h =
      let s : Repo = asked channel_ready r none gid in
      let t : Repo = notify_connection_lost s gid in
      let u : Untouched r t =
        Untouched-trans r s t (asked-Untouched r gid) (lost-Untouched s gid) in
      record {
        stub = h.stub;
        answer = h.answer;
        routes = Routes-cons gid gids r t h.stub none_ready u h.routes;
        untouched = Untouched-trans r t (rest.0) u h.untouched;
        marked = λ e k p. ground (arith, h.marked e k, h.untouched.rebuild gid, lost-rebuild s gid);
      }

  pub loop-Routed :
      (gids : List ℕ) (r : Repo)
      → ((gid : ℕ) → 1 ≤ times gids gid → (r.group gid).closed ≡ false)
      → Routed gids r (route_loop channel_ready none gids r)
  unfolding route_loop Routes
  loop-Routed [] r h = record {
    stub = none;
    answer = refl;
    routes = λ k p. ground arith;
    untouched = Untouched-refl r;
    marked = λ e k p. ground arith;
  }
  loop-Routed (gid ∷ gids) r h =
      let s : Repo = asked channel_ready r none gid in
      let t : Repo = notify_connection_lost s gid in
      let u : Untouched r t =
        Untouched-trans r s t (asked-Untouched r gid) (lost-Untouched s gid) in
      let (o, e, found) = get-Finds channel_ready (r.group gid) (h gid (ground arith)) in
      subst
        (λ answer.
          Routed (gid ∷ gids) r
            (route_next channel_ready s gid answer (route_loop channel_ready none gids t)))
        (sym e)
        (next-Routed r gid gids o (route_loop channel_ready none gids t) found
          (loop-Routed gids t λ k p. u.closed k ∙ h k (ground (arith, p))))

-- Every item is yielded once in a round.
times-append : (a b : List ℕ) (k : ℕ) → times (a ++ b) k ≡ times a k + times b k
times-append [] b k = omega arith
times-append (i ∷ a) b k = ground (arith, times-append a b k)

times-take-drop :
    (n : ℕ) (items : List ℕ) (k : ℕ)
    → times (take n items) k + times (drop n items) k ≡ times items k
unfolding take drop
times-take-drop zero items k = omega arith
times-take-drop (suc n) [] k = omega arith
times-take-drop (suc n) (i ∷ items) k = ground (arith, times-take-drop n items k)

pub times-flick : (items : List ℕ) (index k : ℕ) → times (flick items index) k ≡ times items k
unfolding flick
times-flick items index k =
    let pos = index % count items in
    omega (arith, times-append (drop pos items) (take pos items) k, times-take-drop pos items k)

-- Whether a group of the list has a READY channel.
unfoldable pub any_ready : (channel_ready : ℕ → Bool) → List ℕ → (ℕ → StubGroup) → Bool
any_ready channel_ready [] group = false
any_ready channel_ready (gid ∷ gids) group =
    any_healthy channel_ready (group gid).stubs || any_ready channel_ready gids group

-- A stub is READY and one of a group of the list; no stub means that no group of the list has one that
-- is READY.
unfoldable pub Answers :
    (channel_ready : ℕ → Bool) → List ℕ → (ℕ → StubGroup) → Option Stub → Type 0
unfolding any_ready
Answers channel_ready gids group none = any_ready channel_ready gids group ≡ false
Answers channel_ready gids group (some s) =
    (is_health channel_ready s ≡ true)
    × ((gid : ℕ) × (1 ≤ times gids gid) × ((j : ℕ) × (nth (group gid).stubs j ≡ some s)))

any_ready-none :
    (channel_ready : ℕ → Bool) (gids : List ℕ) (group : ℕ → StubGroup)
    → ((gid : ℕ) → 1 ≤ times gids gid → any_healthy channel_ready (group gid).stubs ≡ false)
    → any_ready channel_ready gids group ≡ false
unfolding any_ready
any_ready-none channel_ready [] group h = refl
any_ready-none channel_ready (gid ∷ gids) group h = ground (
  arith,
  h gid (ground arith),
  any_ready-none channel_ready gids group λ k p. h k (ground (arith, p)),
)

pub Routes-flick :
    (channel_ready : ℕ → Bool) (items : List ℕ) (index : ℕ) (group : ℕ → StubGroup)
    (o : Option Stub)
    → Routes channel_ready (flick items index) group o
    → Answers channel_ready items group o
unfolding Routes Answers
Routes-flick channel_ready items index group none h =
    any_ready-none channel_ready items group
      λ k p. h k (omega (arith, p, times-flick items index k))
Routes-flick channel_ready items index group (some s) (ready, (k, there, place)) =
    (ready, (k, omega (arith, there, times-flick items index k), place))

-- Where the answer is no stub, every group of the round robin is marked for the monitor to rebuild.
pub route_random-rebuild :
    (channel_ready : ℕ → Bool) (r : Repo) (gid : ℕ)
    → Consistent r
    → (route_random channel_ready none r).1 ≡ returns none
    → 1 ≤ times r.items gid
    → ((route_random channel_ready none r).0.group gid).state.subject_rebuild ≡ true
unfolding route_random
route_random-rebuild channel_ready r gid h e p =
    let gids : List ℕ = flick r.items r.index in
    let routed : Routed channel_ready gids r (route_loop channel_ready none gids r) =
      loop-Routed channel_ready gids r
        λ k p. h.opened k (omega (arith, p, times-flick r.items r.index k)) in
    routed.marked (returned routed.stub (sym routed.answer ∙ e)) gid
      (omega (arith, p, times-flick r.items r.index gid))
  where
    returned : (o : Option Stub) → returns o ≡ returns none → o ≡ none
    returned o e = ap (λ p. elim p [ returns a ↦ a | raises x ↦ none ]) e
