-- ===== src/WsGateway/Manager/Moves.antt =====
-- The calls of `SessionManager` that move a session object, and an invariant of the two tables.
use tiny_chat_microservices.Prelude.{
  ℕ, ◌+◌, ◌<◌, ◌≡◌, ◌≢◌, refl, sym, ap, subst, ◌∙◌, Bool, none, some, [], ◌∷◌, Dict, dict_get,
  dict_put, dict_pop, get-put, get-pop, if◌then◌else◌, ◌==◌, arith,
}
use tiny_chat_microservices.WsGateway.Manager.{Manager}

-- No key stands twice in the dict.
abbrev pub Unique : Dict ℕ → Type 0
Unique [] = Unit
Unique ((j, s) ∷ d) = (dict_get d j ≡ none) × Unique d

pub record Inv (m : Manager) : Type 0 where
  pub apart : (k s : ℕ) → dict_get m.sessions k ≡ some s → dict_get m.idle_sessions k ≡ none
  pub live : (j k s : ℕ) → dict_get m.sessions j ≡ some s → dict_get m.sessions k ≡ some s → j ≡ k
  pub idle :
      (j k s : ℕ)
      → dict_get m.idle_sessions j ≡ some s
      → dict_get m.idle_sessions k ≡ some s
      → j ≡ k
  pub mixed : (j k s : ℕ) → dict_get m.sessions j ≡ some s → dict_get m.idle_sessions k ≢ some s
  pub live_below : (k s : ℕ) → dict_get m.sessions k ≡ some s → s < m.created
  pub idle_below : (k s : ℕ) → dict_get m.idle_sessions k ≡ some s → s < m.created
  pub unique : Unique m.idle_sessions

pub Unique-put : (d : Dict ℕ) (k s : ℕ) → Unique d → Unique (dict_put d k s)
unfolding dict_put dict_get
Unique-put [] k s u = (refl, tt)
Unique-put ((j, t) ∷ d) k s u = ground (arith, Unique-put d k s u.1, get-put d k j s)

pub Unique-pop : (d : Dict ℕ) (k : ℕ) → Unique d → Unique (dict_pop d k)
unfolding dict_pop
Unique-pop [] k u = tt
Unique-pop ((j, t) ∷ d) k u = ground (arith, Unique-pop d k u.1, get-pop d k j)

-- An object that stood in use under a key becomes idle under this key.
pub to_idle-Inv :
    (m : Manager) (key s : ℕ)
    → Inv m
    → dict_get m.sessions key ≡ some s
    → Inv (record m {
      sessions = dict_pop m.sessions key;
      idle_sessions = dict_put m.idle_sessions key s;
    })
to_idle-Inv m key s v h = record {
  apart = λ k t a.
      ground (arith, get-pop m.sessions key k, get-put m.idle_sessions key k s, v.apart k t);
  live =
      λ j k t a b. ground (arith, get-pop m.sessions key k, get-pop m.sessions key j, v.live j k t);
  idle = λ j k t a b. ground (
    arith,
    get-put m.idle_sessions key k s,
    get-put m.idle_sessions key j s,
    v.idle j k t,
    v.mixed key j t,
    v.mixed key k t,
  );
  mixed = λ j k t a b. ground (
    arith,
    get-pop m.sessions key j,
    get-put m.idle_sessions key k s,
    v.mixed j k t,
    v.live j key t,
  );
  live_below = λ k t a. ground (arith, get-pop m.sessions key k, v.live_below k t);
  idle_below = λ k t a.
      ground (arith, get-put m.idle_sessions key k s, v.idle_below k t, v.live_below key s);
  unique = Unique-put m.idle_sessions key s v.unique;
}

pub waiters-Inv : (m : Manager) (w : Dict Bool) → Inv m → Inv (record m { waiters = w })
waiters-Inv m w v = record {
  apart = v.apart;
  live = v.live;
  idle = v.idle;
  mixed = v.mixed;
  live_below = v.live_below;
  idle_below = v.idle_below;
  unique = v.unique;
}

-- An object that stood in use is dropped.
pub dropped-Inv :
    (m : Manager) (key : ℕ) → Inv m → Inv (record m { sessions = dict_pop m.sessions key })
dropped-Inv m key v = record {
  apart = λ k t a. ground (arith, get-pop m.sessions key k, v.apart k t);
  live =
      λ j k t a b. ground (arith, get-pop m.sessions key k, get-pop m.sessions key j, v.live j k t);
  idle = v.idle;
  mixed = λ j k t a. v.mixed j k t (ground (arith, get-pop m.sessions key j));
  live_below = λ k t a. ground (arith, get-pop m.sessions key k, v.live_below k t);
  idle_below = v.idle_below;
  unique = v.unique;
}

-- An idle object is put in use under the key where it stood.
pub to_live-Inv :
    (m : Manager) (key s : ℕ)
    → Inv m
    → dict_get m.idle_sessions key ≡ some s
    → Inv (record m {
      sessions = dict_put m.sessions key s;
      idle_sessions = dict_pop m.idle_sessions key;
    })
to_live-Inv m key s v h = record {
  apart = λ k t a.
      ground (arith, get-put m.sessions key k s, get-pop m.idle_sessions key k, v.apart k t);
  live = λ j k t a b. ground (
    arith,
    get-put m.sessions key k s,
    get-put m.sessions key j s,
    v.live j k t,
    v.mixed j key t,
    v.mixed k key t,
  );
  idle = λ j k t a b.
      ground (arith, get-pop m.idle_sessions key k, get-pop m.idle_sessions key j, v.idle j k t);
  mixed = λ j k t a b. ground (
    arith,
    get-put m.sessions key j s,
    get-pop m.idle_sessions key k,
    v.mixed j k t,
    v.idle key k t,
  );
  live_below =
      λ k t a. ground (arith, get-put m.sessions key k s, v.live_below k t, v.idle_below key s);
  idle_below = λ k t a. ground (arith, get-pop m.idle_sessions key k, v.idle_below k t);
  unique = Unique-pop m.idle_sessions key v.unique;
}

-- An object that no key has is put in use under a key that is not idle.
pub add-Inv :
    (m : Manager) (key s : ℕ)
    → Inv m
    → dict_get m.idle_sessions key ≡ none
    → s < m.created
    → ((k : ℕ) → dict_get m.sessions k ≢ some s)
    → ((k : ℕ) → dict_get m.idle_sessions k ≢ some s)
    → Inv (record m { sessions = dict_put m.sessions key s })
add-Inv m key s v e below not_live not_idle = record {
  apart = λ k t a. ground (arith, get-put m.sessions key k s, v.apart k t);
  live = λ j k t a b. ground (
    arith,
    get-put m.sessions key k s,
    get-put m.sessions key j s,
    v.live j k t,
    not_live j,
    not_live k,
  );
  idle = v.idle;
  mixed = λ j k t a b. ground (arith, get-put m.sessions key j s, v.mixed j k t, not_idle k);
  live_below = λ k t a. ground (arith, get-put m.sessions key k s, v.live_below k t);
  idle_below = v.idle_below;
  unique = v.unique;
}

-- The oldest idle object is taken out.
pub rest-get :
    (j s : ℕ) (rest : Dict ℕ) (k : ℕ)
    → dict_get rest j ≡ none
    → dict_get rest k ≡ (if j == k then none else dict_get ((j, s) ∷ rest) k)
unfolding dict_get
rest-get j s rest k e = ground arith

pub popitem-Inv :
    (m : Manager) (j s : ℕ) (rest : Dict ℕ)
    → m.idle_sessions ≡ (j, s) ∷ rest
    → Inv m
    → Inv (record m { idle_sessions = rest })
      × ((k : ℕ) → dict_get m.sessions k ≢ some s)
      × ((k : ℕ) → dict_get rest k ≢ some s)
      × (s < m.created)
      × ((k : ℕ) → dict_get m.idle_sessions k ≡ none → dict_get rest k ≡ none)
unfolding dict_get
popitem-Inv m j s rest e v =
    let u : Unique ((j, s) ∷ rest) = subst Unique e v.unique in
    let there : dict_get m.idle_sessions j ≡ some s =
      ap (λ (d : Dict ℕ). dict_get d j) e ∙ ground arith in
    let left : (k : ℕ) → dict_get rest k ≡ (if j == k then none else dict_get m.idle_sessions k) =
      λ k.
        rest-get j s rest k u.0
        ∙ ap (λ (d : Dict ℕ). if j == k then none else dict_get d k) (sym e) in
    (
      record {
        apart = λ k t a. ground (arith, left k, v.apart k t);
        live = v.live;
        idle = λ i k t a b. ground (arith, left i, left k, v.idle i k t);
        mixed = λ i k t a. λ b. ground (arith, left k, v.mixed i k t);
        live_below = v.live_below;
        idle_below = λ k t a. ground (arith, left k, v.idle_below k t);
        unique = u.1;
      },
      λ k a. v.mixed k j s a there,
      λ k a. ground (arith, left k, v.idle k j s),
      v.idle_below j s there,
      λ k a. ground (arith, left k),
    )

pub grown-Inv : (m : Manager) → Inv m → Inv (record m { created = m.created + 1 })
grown-Inv m v = record {
  apart = v.apart;
  live = v.live;
  idle = v.idle;
  mixed = v.mixed;
  live_below = λ k s a. omega (arith, v.live_below k s a);
  idle_below = λ k s a. omega (arith, v.idle_below k s a);
  unique = v.unique;
}
