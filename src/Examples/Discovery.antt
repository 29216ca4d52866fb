-- ===== src/Examples/Discovery.antt =====
-- Services that come and go, and the load that is reported for one of them.
use tiny_chat_microservices.Prelude.{
  ◌≡◌, ◌==◌, ◌&&◌, not, refl, true, List, [], ◌∷◌, dict_get, dict_put, dict_pop,
}
use tiny_chat_microservices.Discovery.{
  Key, Entry, lookup, WatchEvent, put_event, delete_event, forget, on_consume, consume,
}
use tiny_chat_microservices.Discovery.Watch.{
  watched, etcd_content, is_there, Balanced, watched-Mirrors,
}
use tiny_chat_microservices.Discovery.Usage
use tiny_chat_microservices.Discovery.Usage.{new_usage, loads, pop, sum, whole, run-pop}

abbrev other_platform : Key
other_platform = record { srv_name = 7; platform_id = 2 }

abbrev own_platform : Key
own_platform = record { srv_name = 7; platform_id = 1 }

abbrev services_info : List Entry
services_info =
    record { key = own_platform; addr = 80 } ∷ record { key = other_platform; addr = 81 } ∷ []

abbrev events : List WatchEvent
events =
    put_event other_platform 82 ∷ delete_event other_platform ∷ put_event other_platform 83 ∷ []

-- Another service of the platform starts before the streams do.
abbrev missed : List WatchEvent
missed = put_event (record { srv_name = 8; platform_id = 2 }) 90 ∷ []

watched-Mirrors_example :
    let m = watched 1 services_info events in
    (is_there (lookup m.cache other_platform)
      ≡ is_there (lookup (etcd_content services_info missed events) other_platform) && not (2 == 1))
    × Balanced m
watched-Mirrors_example = watched-Mirrors 1 services_info missed events other_platform refl

-- After the cache was cleared, the end of a service that the workers know is not dispatched.
forgotten :
    (on_consume 1 (forget (watched 1 services_info [])) (delete_event other_platform)).dispatched
    ≡ (watched 1 services_info []).dispatched
unfolding forget consume on_consume
forgotten = refl

abbrev reports : List Usage.Event
reports = loads 1 10 ∷ loads 2 30 ∷ loads 1 20 ∷ loads 3 10 ∷ []

run-pop_example :
    let left = (pop (Usage.run new_usage reports) 1).0 in
    (left.total_count ≡ sum left.usages) × (whole left.usages (sum left.usages) ≡ true)
unfolding pop Usage.run dict_get dict_put dict_pop
run-pop_example = run-pop reports 1 refl
