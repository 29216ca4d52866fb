-- ===== src/Worker/Pacer/Races.antt =====
-- What the pacer does when calls overlap, and when the consumer dies between two messages.
use tiny_chat_microservices.Prelude.{ℕ, ◌+◌, ◌≤◌, ◌<◌, ◌≡◌, refl, some, arith, dict_get, dict_put}
use tiny_chat_microservices.Redis.{finished}
use tiny_chat_microservices.Worker.Pacer.{
  DeliveryInfo, fresh, new_item, can_ignore, returned, waits_for_lock, waits_for_redis, begin,
  on_lock, on_redis, filter_or_not, on_handled_new_item,
}

-- The info of a sender after its first call has begun and Redis has answered it with n.
abbrev pub first_read : (d m n : ℕ) → DeliveryInfo
first_read d m n = (on_redis (finished (some (some n))) (begin fresh d m).0 d m).0

-- Two messages of a sender reach a fresh consumer, and Redis says that ids below n are done. The
-- second, with an id below n, comes while the first waits for Redis. Alone it would be ignored; here
-- it waits for the lock, and is then taken as new, since it compares with the `next_delivery_id` that
-- it read before it waited.
pub overlap_takes_handled :
    (d m e k n : ℕ)
    → n ≤ d
    → e < n
    → ((filter_or_not (finished (some (some n))) fresh e k).1 ≡ returned can_ignore)
      × ((begin fresh d m).1 ≡ waits_for_redis)
      × ((begin (begin fresh d m).0 e k).1 ≡ waits_for_lock)
      × ((on_redis (finished (some (some n))) (begin fresh d m).0 d m).1 ≡ new_item)
      × ((on_lock (first_read d m n) e k).1 ≡ returned new_item)
unfolding filter_or_not begin on_lock on_redis dict_get dict_put
overlap_takes_handled d m e k n p q = (ground arith, refl, refl, ground arith, ground arith)

-- Messages n and n + 1, for n above 0, have been taken and n has been handled, n + 1 has not. The value written to
-- Redis is n + 2, so a consumer that starts after a crash now ignores message n + 1.
pub crash_loses_inflight :
    (n m k : ℕ)
    → 0 < n
    → let info = (filter_or_not (finished (some (some n))) fresh n m).0 in
      let both = (filter_or_not (finished (some (some n))) info (n + 1) k).0 in
      ((filter_or_not (finished (some (some n))) info (n + 1) k).1 ≡ returned new_item)
      × ((on_handled_new_item both n).1 ≡ some (n + 2))
      × ((filter_or_not (finished (some (some (n + 2)))) fresh (n + 1) k).1 ≡ returned can_ignore)
unfolding filter_or_not begin on_lock on_redis on_handled_new_item dict_get dict_put
crash_loses_inflight n m k p = (ground arith, ground arith, ground arith)
