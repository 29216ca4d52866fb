-- ===== src/Examples/Connections.antt =====
-- A server that is announced, chosen for a request, and dropped when it does not answer any more.
use tiny_chat_microservices.Prelude.{
  ℕ, ◌≡◌, refl, arith, Bool, true, false, Option, none, some, List, [], ◌∷◌, ◌==◌, dict_get,
  dict_put, dict_pop, Outcome, returns, raises, library_error, inr, leb,
}
use tiny_chat_microservices.Connections.{Stub, create_stub, Repo, is_health, is_lost}
use tiny_chat_microservices.Connections.Reconnect
use tiny_chat_microservices.Connections.Reconnect.{
  Failure, channel_failed, timed_out, attempts, length, fails, run-hibernating,
}
use tiny_chat_microservices.Connections.Repository.{add, remove}
use tiny_chat_microservices.Connections.Invariant.{Consistent, add-Consistent, remove-Consistent}
use tiny_chat_microservices.Connections.Monitor.{monitor_round, visit_all, scan}
use tiny_chat_microservices.Connections.Monitor.Rounds.{Served, monitor_round-Served}
use tiny_chat_microservices.Connections.Route.Choice.{Answers}
use tiny_chat_microservices.Connections.Services.{
  new_repository, register, Event, service_online, request, timer, round_begins, round_ends, act,
  run, route,
}
use tiny_chat_microservices.Connections.Services.Requests.{candidates, is_among, run-Answers}

abbrev first_channel : ℕ → Bool
first_channel channel = channel == 1

abbrev no_channel : ℕ → Bool
no_channel channel = false

-- Three attempts: the channel breaks, no new one can be made, and the time is over.
abbrev failures : List Failure
unfolding fails
failures =
    record { first = returns 2; second = returns 3; wait = channel_failed; fails_wait = refl }
    ∷ record {
      first = raises library_error;
      second = returns 3;
      wait = timed_out;
      fails_wait = refl;
    }
    ∷ record { first = returns 4; second = returns 5; wait = timed_out; fails_wait = refl }
    ∷ []

run-hibernating_example :
    (Reconnect.run (create_stub (raises library_error)) (attempts failures)).hibernating
    ≡ leb 3 (length failures)
unfolding create_stub
run-hibernating_example = run-hibernating (create_stub (raises library_error)) failures refl

new_repository-Consistent : Consistent new_repository
unfolding new_repository
new_repository-Consistent = record {
  same_items = refl;
  same_nodes = refl;
  one_address = λ k. omega arith;
  one_group = λ k. omega arith;
  made = λ k p. refl;
  opened = λ k p. ground arith;
}

abbrev created : List (Outcome ℕ)
created = returns 1 ∷ raises library_error ∷ []

-- A server at address 80 that etcd reported down while one of its channels was READY.
reported_down : Repo
unfolding add remove new_repository
reported_down = remove first_channel (add first_channel new_repository 80 created) 80

reported_down-Consistent : Consistent reported_down
unfolding reported_down
reported_down-Consistent =
    remove-Consistent first_channel (add first_channel new_repository 80 created) 80
      (add-Consistent first_channel new_repository 80 created new_repository-Consistent)

monitor_round-Served_example : Served (monitor_round no_channel no_channel (λ r. r) reported_down)
unfolding reported_down visit_all scan dict_get dict_put is_health
monitor_round-Served_example =
    monitor_round-Served no_channel no_channel (λ r. r) reported_down reported_down-Consistent
      (λ s h. h) (inr refl)

-- The server is dropped at the end of the round.
round_drops : (monitor_round no_channel no_channel (λ r. r) reported_down).0.services ≡ []
unfolding reported_down monitor_round dict_get dict_put dict_pop is_health is_lost
round_drops = refl

abbrev events : List Event
events =
    service_online 7 80 no_channel created
    ∷ request 7 no_channel none none
    ∷ timer 7
    ∷ round_begins 7 no_channel
    ∷ round_ends 7 first_channel []
    ∷ []

served : Repo
unfolding act new_repository
served = act (round_ends 7 first_channel []) (
    act (round_begins 7 no_channel) (
      act (timer 7) (
        act (request 7 no_channel none none)
          (act (service_online 7 80 no_channel created) new_repository))))

-- A request with a hash key, for which the ring gives the node 80.
run-Answers_example :
    ((o : Option Stub) × (route first_channel none (some (some 80)) (some served) ≡ returns o)
      × Answers first_channel (candidates served (some (some 80))) served.group o)
    × ((addr : ℕ) → is_among served.items (dict_get served.services addr) ≡ true)
unfolding served run register act dict_get dict_put
run-Answers_example = run-Answers (7 ∷ []) events first_channel (some (some 80)) 7 served refl
