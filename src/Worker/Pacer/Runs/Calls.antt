-- ===== src/Worker/Pacer/Runs/Calls.antt =====
-- The pieces of `filter_or_not` (utils/pacer.py) and the invariant of Runs.
use tiny_chat_microservices.Prelude.{
  ℕ, ap, ◌≡◌, ◌≢◌, refl, sym, ◌∙◌, inl, inr, Bool-cases, Option-cases, leb, ltb, Bool, false,
  Option, none, some, List, [], ◌∷◌, arith, Dict, dict_get, dict_put, get-put, get-empty,
}
use tiny_chat_microservices.Redis.{Awaited, finished, timed_out}
use tiny_chat_microservices.Worker.Pacer.{
  DeliveryInfo, return_it, initialized, decide, begin, on_lock, on_redis, filter_new,
}
use tiny_chat_microservices.Worker.Pacer.Runs.{
  Sender, note, settle, answered, Kept, Absent, Distinct, IsGood, Inv,
}

Kept-put : (ids : Dict ℕ) (d m : ℕ) (ds : List ℕ) → Kept ids ds → Kept (dict_put ids d m) ds
Kept-put ids d m [] h = h
Kept-put ids d m (e ∷ es) h = (ground (arith, get-put ids d e m), Kept-put ids d m es h.1)

Absent-Kept :
    (ids : Dict ℕ) (d : ℕ) (ds : List ℕ) → dict_get ids d ≡ none → Kept ids ds → Absent d ds
Absent-Kept ids d [] g h = h
Absent-Kept ids d (e ∷ es) g h = (λ q. ground arith, Absent-Kept ids d es g h.1)

put-IsGood :
    (info : DeliveryInfo) (n d m : ℕ) (locked : Bool) (accepted : List ℕ)
    → Kept info.delivery_ids accepted
    → Distinct accepted
    → n ≢ 0
    → dict_get info.delivery_ids d ≡ none
    → IsGood
        (record info {
          next_delivery_id = n;
          delivery_ids = dict_put info.delivery_ids d m;
          locked = locked;
        })
        (d ∷ accepted)
put-IsGood info n d m locked accepted k q p g = record {
  kept =
      (ground (arith, get-put info.delivery_ids d d m), Kept-put info.delivery_ids d m accepted k);
  distinct = (Absent-Kept info.delivery_ids d accepted g k, q);
  empty = λ e. absurd (p e);
}

decide-IsGood :
    (c : ℕ) (info : DeliveryInfo) (d m : ℕ) (accepted : List ℕ)
    → IsGood info accepted
    → info.next_delivery_id ≢ 0
    → IsGood (decide c info d m).0 (note (decide c info d m).1 d accepted)
      × ((decide c info d m).0.next_delivery_id ≡ info.next_delivery_id)
      × ((decide c info d m).0.locked ≡ info.locked)
unfolding decide
decide-IsGood c info d m accepted v p = elim (Bool-cases (leb c d)) [
  | inr e ↦ rw e (v, refl, refl)
  | inl e ↦ elim (Option-cases (dict_get info.delivery_ids d)) [
    | inr (h, g) ↦ rw (e, g) (v, refl, refl)
    | inl g ↦
        rw (e, g)
          (
            put-IsGood info info.next_delivery_id d m info.locked accepted v.kept v.distinct p g,
            refl,
            refl,
          )
  ]
]

decided-Inv :
    (s : Sender) (c : ℕ) (info : DeliveryInfo) (d m : ℕ)
    → Inv s
    → IsGood info s.accepted
    → info.next_delivery_id ≢ 0
    → info.next_delivery_id ≡ s.info.next_delivery_id
    → info.locked ≡ s.info.locked
    → Inv (settle (return_it (decide c info d m)) d s)
decided-Inv s c info d m v g p n l =
    let (good, e, k) = decide-IsGood c info d m s.accepted g p in
    record { good = good; lock = k ∙ l ∙ v.lock; unread = λ r. e ∙ n ∙ v.unread r }

pub begin-Inv : (s : Sender) (d m : ℕ) → Inv s → Inv (settle (begin s.info d m) d s)
unfolding begin
begin-Inv s d m v = elim (Bool-cases (initialized s.info)) [
  | inl e ↦
      rw e (decided-Inv s s.info.next_delivery_id s.info d m v v.good (ground arith) refl refl)
  | inr e ↦ elim (Bool-cases s.info.locked) [
    | inl l ↦
        rw (e, l)
          (record {
            good = record { kept = v.good.kept; distinct = v.good.distinct; empty = v.good.empty };
            lock = sym l ∙ v.lock;
            unread = v.unread;
          })
    | inr l ↦
        rw (e, l)
          (record {
            good = record { kept = v.good.kept; distinct = v.good.distinct; empty = v.good.empty };
            lock = refl;
            unread = λ r. ground arith;
          })
  ]
]

pub on_lock-Inv :
    (s : Sender) (d m : ℕ) → s.info.locked ≡ false → Inv s → Inv (settle (on_lock s.info d m) d s)
unfolding on_lock
on_lock-Inv s d m l v = elim (Bool-cases (initialized s.info)) [
  | inl e ↦ rw e (
      decided-Inv s 0 (record s.info { locked = false }) d m v
        (record { kept = v.good.kept; distinct = v.good.distinct; empty = v.good.empty })
        (ground arith) refl (sym l))
  | inr e ↦ rw e (record {
    good = record { kept = v.good.kept; distinct = v.good.distinct; empty = v.good.empty };
    lock = refl;
    unread = λ r. ground arith;
  })
]

filter_new-Inv :
    (s : Sender) (n d m : ℕ)
    → n ≢ 0
    → s.info.delivery_ids ≡ []
    → Inv s
    → Inv (answered (filter_new (record s.info { locked = false }) n d m) d s)
unfolding filter_new
filter_new-Inv s n d m p e v = elim (Bool-cases (ltb d n)) [
  | inl l ↦ rw l (record {
    good = record { kept = v.good.kept; distinct = v.good.distinct; empty = λ z. absurd (p z) };
    lock = refl;
    unread = λ r. absurd (ground arith);
  })
  | inr l ↦ rw l (record {
    good =
        put-IsGood s.info n d m false s.accepted v.good.kept v.good.distinct p
          (ap (λ (ids : Dict ℕ). dict_get ids d) e ∙ get-empty d);
    lock = refl;
    unread = λ r. absurd (ground arith);
  })
]

retry-Inv :
    (s : Sender)
    → Inv s
    → Inv (record { info = record s.info { locked = false }; reader = none; accepted = s.accepted })
retry-Inv s v = record {
  good = record { kept = v.good.kept; distinct = v.good.distinct; empty = v.good.empty };
  lock = refl;
  unread = λ r. absurd (ground arith);
}

pub on_redis-Inv :
    (s : Sender) (r : Awaited (Option ℕ)) (d m : ℕ)
    → r ≢ finished (some (some 0))
    → s.info.delivery_ids ≡ []
    → Inv s
    → Inv (answered (on_redis r s.info d m) d s)
unfolding on_redis
on_redis-Inv s timed_out d m p e v = retry-Inv s v
on_redis-Inv s (finished none) d m p e v = retry-Inv s v
on_redis-Inv s (finished (some none)) d m p e v = filter_new-Inv s 1 d m (omega arith) e v
on_redis-Inv s (finished (some (some n))) d m p e v =
    filter_new-Inv s n d m (λ z. p (ap (λ (k : ℕ). finished (some (some k))) z)) e v
