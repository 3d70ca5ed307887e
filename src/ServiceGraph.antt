-- ===== src/ServiceGraph.antt =====
-- compose/graph.go: which services wait for which, how deep each one is, and which one leads.
pub mod Leaves
pub mod Leader
pub mod Ends
use Prim.Native.String.{compare}
use batch_scheduler.Base.{
  ℕ, zero, suc, String, Bool, true, false, Option, none, some, List, [], ◌∷◌, ◌++◌, if◌then◌else◌,
  ◌&&◌,
}
use batch_scheduler.Base.Outcome.{Result, ok, err}
use batch_scheduler.Base.Int.{ℤ, pos, ◌+ℤ◌, ◌-ℤ◌, int64, leb_ℤ}
use batch_scheduler.Base.Sort.{sort}
use batch_scheduler.Base.Dict.{Dict}
use batch_scheduler.Base.Dict
use batch_scheduler.Compose.{Compose, Service, Field, items, texts, labels, other}
use text.Mathlib.Text.{◌==◌, is_le}

abbrev pub ServiceGraph : Type 0
ServiceGraph = Dict (List String)

-- `ServiceDepth`
abbrev pub ServiceDepth : Type 0
ServiceDepth = Dict ℤ

-- `graph[service]`, which is empty for a missing key.
abbrev pub deps_at : Option (List String) → List String
deps_at none = []
deps_at (some deps) = deps

-- `graph[service] = append(graph[service], dep)`
unfoldable pub add_dep : String → String → ServiceGraph → ServiceGraph
add_dep service dep graph =
    Dict.insert service (deps_at (Dict.lookup service graph) ++ dep ∷ []) graph

-- The loop over the dependencies of one service.
unfoldable pub add_deps : String → List (Option String) → ServiceGraph → ServiceGraph
add_deps service [] graph = graph
add_deps service (none ∷ deps) graph = add_deps service deps graph
add_deps service (some dep ∷ deps) graph = add_deps service deps (add_dep service dep graph)

abbrev pub add_field : String → Option Field → ServiceGraph → ServiceGraph
add_field service none graph = graph
add_field service (some (items deps)) graph = add_deps service deps graph
add_field service (some (texts deps)) graph = graph
add_field service (some (labels pairs)) graph = graph
add_field service (some other) graph = graph

-- The loop over the services.
unfoldable pub add_services : Dict (Option Service) → ServiceGraph → ServiceGraph
add_services [] graph = graph
add_services ((name, none) ∷ services) graph = add_services services graph
add_services ((name, some s) ∷ services) graph =
    add_services services (add_field name (Dict.lookup "depends_on" s) graph)

-- `NewServiceGraph`
unfoldable pub new_service_graph : Compose → ServiceGraph
new_service_graph c = add_services c.services []

-- The loop over the children, with the sum so far.
unfoldable pub sum_depths : (String → Option ℤ) → List String → ℤ → Option ℤ
sum_depths depth [] childs = some childs
sum_depths depth (child ∷ children) childs = elim (depth child) [
  | none ↦ none
  | some d ↦ sum_depths depth children (int64 (childs +ℤ d))
]

abbrev pub depth_of : (String → Option ℤ) → Option (List String) → Option ℤ → Option ℤ
depth_of depth none known = some (pos 1)
depth_of depth (some children) (some d) = some d
depth_of depth (some children) none = sum_depths depth children (pos 0)

-- `serviceDepth`, on fuel; `none` is a call that has not returned.
unfoldable pub service_depth : ServiceGraph → ServiceDepth → ℕ → String → Option ℤ
service_depth s memory zero index = none
service_depth s memory (suc fuel) index =
    depth_of (service_depth s memory fuel) (Dict.lookup index s) (Dict.lookup index memory)

-- The loop of `ByServiceDepth`.
unfoldable pub depths_from : ServiceGraph → ℕ → ServiceGraph → ServiceDepth → Option ServiceDepth
depths_from s fuel [] d = some d
depths_from s fuel ((k, _) ∷ rest) d = elim (service_depth s d fuel k) [
  | none ↦ none
  | some depth ↦ depths_from s fuel rest (Dict.insert k depth d)
]

-- `ByServiceDepth`
unfoldable pub by_service_depth : ℕ → ServiceGraph → Option ServiceDepth
by_service_depth fuel s = depths_from s fuel s []

pub data Error : Type 0 where
  empty_graph : Error
  ambiguity : String → String → Error

-- `sort.Strings` of two names.
abbrev pub in_order : String → String → Error
in_order a b = if is_le (compare a b) then ambiguity a b else ambiguity b a

-- The `switch` on the sorted entries.
abbrev pub first_leader : List (String × ℤ) → Result Error String
first_leader [] = err empty_graph
first_leader (a ∷ []) = ok a.0
first_leader (a ∷ b ∷ rest) =
    if leb_ℤ a.1 b.1 && leb_ℤ b.1 a.1 then err (in_order a.0 b.0) else ok a.0

abbrev pub leader_of : Option (List (String × ℤ)) → Result Error String
leader_of none = err empty_graph
leader_of (some sorted) = first_leader sorted

-- `findLeader`. The sort is by descending value, so by ascending negated value; the keys of this
-- sort can always be computed.
unfoldable pub find_leader : ServiceDepth → Result Error String
find_leader sd = leader_of (sort (λ entry. some (pos 0 -ℤ entry.1)) sd)
