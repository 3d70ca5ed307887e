-- ===== src/Samples/Graphs.antt =====
-- Graphs of services, and the networks of projects.
use batch_scheduler.Base.{
  ℕ, ◌<◌, Option, none, some, List, [], ◌∷◌, ◌≡◌, ◌≢◌, refl, String, Bool, true, false, All, arith,
  if◌then◌else◌,
}
use batch_scheduler.Base.Int.{ℤ, pos}
use batch_scheduler.Base.Outcome.{ok, err}
use batch_scheduler.Base.Dict.{Dict}
use batch_scheduler.Base.Dict
use batch_scheduler.Network.{IpNet}
use batch_scheduler.ProjectNetworks.{
  Daemon, Filter, by_label, by_driver, by_name, DockerNetwork, new_networks, new, Error, cannot_add,
}
use batch_scheduler.ProjectNetworks.Lowest.{new_stuck}
use batch_scheduler.ServiceGraph.{
  ServiceGraph, ServiceDepth, service_depth, by_service_depth, find_leader,
}
use batch_scheduler.ServiceGraph.Leaves.{IsSound}
use batch_scheduler.ServiceGraph.Ends.{IsThere, by_service_depth_total}
use batch_scheduler.ServiceGraph.Leader.{IsAnswer, find_leader-IsAnswer}
use text.Mathlib.Text.{◌==◌}

abbrev graph : ServiceGraph
graph = ("web", "app" ∷ "cache" ∷ []) ∷ ("app", "db" ∷ "cache" ∷ []) ∷ []

abbrev rank : String → ℕ
rank name = if name == "web" then 2 else if name == "app" then 1 else 0

by_service_depth_total_example :
    (d : ServiceDepth) × (by_service_depth 3 graph ≡ some d)
    × IsSound graph d
    × All (λ entry. IsThere d entry.0) graph
by_service_depth_total_example =
    by_service_depth_total rank graph 3
      ((omega arith, (omega arith, tt)), ((omega arith, (omega arith, tt)), tt))
      (omega arith, (omega arith, tt))

graph_depths : by_service_depth 3 graph ≡ some (("web", pos 3) ∷ ("app", pos 2) ∷ [])
unfolding by_service_depth batch_scheduler.ServiceGraph.depths_from service_depth Dict.lookup
    batch_scheduler.ServiceGraph.sum_depths Dict.insert batch_scheduler.Base.Int.int64
    batch_scheduler.Base.Int.◌+ℤ◌
graph_depths = refl

find_leader-IsAnswer_example :
    IsAnswer
      (("web", pos 3) ∷ ("app", pos 2) ∷ [])
      (find_leader (("web", pos 3) ∷ ("app", pos 2) ∷ []))
find_leader-IsAnswer_example = find_leader-IsAnswer (("web", pos 3) ∷ ("app", pos 2) ∷ [])

graph_leader : find_leader (("app", pos 2) ∷ ("web", pos 3) ∷ []) ≡ ok "web"
unfolding find_leader batch_scheduler.Base.Sort.sort batch_scheduler.Base.Int.◌-ℤ◌
graph_leader = refl

-- A daemon whose state says whether the lowest subnet is taken; then it refuses further networks.
abbrev found : Bool → Filter → List DockerNetwork
found true (by_driver _) = record { name = "batch-a-0-0"; subnets = "172.18.0.0/24" ∷ [] } ∷ []
found _ _ = []

abbrev daemon : Daemon Bool String
daemon = record {
  network_list = λ taken f. ok (found taken f);
  network_create = λ taken _ _ _. (true, if taken then some "overlap" else none);
  networks_prune = λ taken. (taken, none);
  network_remove = λ _ _. (false, none);
  parse_cidr = λ _. ok (record { ip = 2886860800; ones = 24; mapped = none });
  network_name = λ project _ _. project;
}

new_first : new daemon new_networks "a" false ≡ some (true, ok "a")
unfolding new batch_scheduler.ProjectNetworks.subnet_from_docker
    batch_scheduler.ProjectNetworks.parse_networks batch_scheduler.ProjectNetworks.add_network
    batch_scheduler.Network.next_available_network batch_scheduler.Base.Sort.sort
new_first = refl

new_stuck_example :
    (s' : Bool) × (new daemon new_networks "b" true ≡ some (s', err cannot_add)) × (s' ≡ true)
unfolding batch_scheduler.ProjectNetworks.subnet_from_docker
    batch_scheduler.ProjectNetworks.parse_networks batch_scheduler.ProjectNetworks.parse_subnets
new_stuck_example =
    new_stuck daemon (λ taken. taken ≡ true) true "b"
      (record { ip = 2886860800; ones = 24; mapped = none } ∷ [])
      (λ taken _ h. ("overlap", rw h refl)) (λ _ _ _. refl) (λ _ _. refl) (λ _ h. h) refl refl
      (omega arith, tt) refl
