-- ===== src/ServiceGraph/Ends.antt =====
-- compose/graph.go: the recursion ends on a graph without a cycle, and on no graph with one.
use batch_scheduler.Base.{
  ℕ, zero, suc, ◌<◌, String, true, Option, none, some, List, [], ◌∷◌, ◌++◌, ◌≡◌, refl, arith, All,
  Option-cases, inl, inr, All-map, ◌⊎◌, Bool-cases,
}
use text.Mathlib.Text.{◌==◌}
use text.Mathlib.TextPositions.{eq_refl}
use batch_scheduler.Base.Int.{ℤ, pos, ◌+ℤ◌, int64}
use batch_scheduler.Base.Dict.{Dict, All-lookup, All-insert, lookup-insert}
use batch_scheduler.Base.Dict
use batch_scheduler.ServiceGraph.{
  ServiceGraph, ServiceDepth, sum_depths, service_depth, depths_from, by_service_depth,
}
use batch_scheduler.ServiceGraph.Leaves.{IsDepth, IsSound, service_depth-IsDepth}

-- Each dependency ranks below the service that depends on it.
abbrev pub IsRanked : (String → ℕ) → ServiceGraph → Type 0
IsRanked rank s = All (λ entry. All (λ dep. rank dep < rank entry.0) entry.1) s

sum_depths_total :
    (depth : String → Option ℤ) (children : List String) (childs : ℤ)
    → All (λ child. (z : ℤ) × (depth child ≡ some z)) children
    → (z : ℤ) × (sum_depths depth children childs ≡ some z)
unfolding sum_depths
sum_depths_total depth [] childs h = (childs, refl)
sum_depths_total depth (child ∷ children) childs ((d, e), h) =
    let (z, total) = sum_depths_total depth children (int64 (childs +ℤ d)) h in
    (z, rw (sum_depths, e) total)

service_depth_total :
    (rank : String → ℕ) (s : ServiceGraph) (memory : ServiceDepth)
    → IsRanked rank s
    → (fuel : ℕ) (index : String) → rank index < fuel
    → (z : ℤ) × (service_depth s memory fuel index ≡ some z)
unfolding service_depth
service_depth_total rank s memory ranked zero index h = absurd (omega arith)
service_depth_total rank s memory ranked (suc fuel) index h =
    elim (Option-cases (Dict.lookup index s)) [
      | inl outside ↦ (pos 1, ground (arith, outside))
      | inr (children, inside) ↦ elim (Option-cases (Dict.lookup index memory)) [
        | inr (d, known) ↦ (d, ground (arith, inside, known))
        | inl unknown ↦
            let below : All (λ dep. rank dep < rank index) children =
              All-lookup (λ entry. All (λ dep. rank dep < rank entry.0) entry.1) index s children
                ranked inside in
            let (z, e) = sum_depths_total (service_depth s memory fuel) children (pos 0) (
              All-map _ _
                (λ child lower.
                  service_depth_total rank s memory ranked fuel child (omega (arith, lower, h)))
                children below) in
            (z, ground (arith, inside, unknown, e))
      ]
    ]

-- Each service of the graph has a depth.
abbrev pub IsThere : ServiceDepth → String → Type 0
IsThere d name = (z : ℤ) × (Dict.lookup name d ≡ some z)

IsThere-insert :
    (key name : String) (z : ℤ) (d : ServiceDepth)
    → ((key == name) ≡ true) ⊎ IsThere d name
    → IsThere (Dict.insert key z d) name
IsThere-insert key name z d h = elim (Bool-cases (key == name)) [
  | inl same ↦ (z, ground (arith, same, lookup-insert key name z d))
  | inr other ↦ elim h [
    | inl same ↦ absurd (ground (arith, same, other))
    | inr (w, there) ↦ (w, ground (arith, there, other, lookup-insert key name z d))
  ]
]

depths_from_total :
    (rank : String → ℕ) (s : ServiceGraph)
    → IsRanked rank s
    → (fuel : ℕ) (rest : ServiceGraph) (d : ServiceDepth) → All (λ entry. rank entry.0 < fuel) rest
    → IsSound s d
    → (done : ServiceDepth) × (depths_from s fuel rest d ≡ some done)
      × IsSound s done
      × ((name : String) → IsThere d name → IsThere done name)
      × All (λ entry. IsThere done entry.0) rest
unfolding depths_from
depths_from_total rank s ranked fuel [] d h sound = (d, refl, sound, (λ name there. there), tt)
depths_from_total rank s ranked fuel ((k, ds) ∷ rest) d (h, hs) sound =
    let (z, e) = service_depth_total rank s d ranked fuel k h in
    let right : IsDepth s k z = service_depth-IsDepth s d sound fuel k z e in
    let (done, final, sound', kept, all) =
      depths_from_total rank s ranked fuel rest (Dict.insert k z d) hs
        (All-insert (λ entry. IsDepth s entry.0 entry.1) k z d right sound) in
    (
      done,
      ground (arith, e, final),
      sound',
      λ name there. kept name (IsThere-insert k name z d (inr there)),
      (kept k (IsThere-insert k k z d (inl (eq_refl k))), all),
    )

-- Where the dependencies can be ranked (there is no cycle) and the fuel is above every rank,
-- `ByServiceDepth` returns, whatever the order of the services: every service of the graph has a
-- depth, and each depth is the number of ways of following dependencies down from the service to
-- one that depends on nothing, in 64 bits.
pub by_service_depth_total :
    (rank : String → ℕ) (s : ServiceGraph) (fuel : ℕ)
    → IsRanked rank s
    → All (λ entry. rank entry.0 < fuel) s
    → (d : ServiceDepth) × (by_service_depth fuel s ≡ some d)
      × IsSound s d
      × All (λ entry. IsThere d entry.0) s
unfolding by_service_depth
by_service_depth_total rank s fuel ranked h =
    let (d, e, sound, _, all) = depths_from_total rank s ranked fuel s [] h tt in (d, e, sound, all)

-- Services that all depend on one of their own, with others before and after it.
abbrev pub IsCyclic : (String → Type 0) → ServiceGraph → Type 0
IsCyclic Inside s =
    (index : String)
    → Inside index
    → (before : List String) × (after : List String) × (dep : String) × (Dict.lookup index s
        ≡ some (before ++ dep ∷ after))
      × Inside dep

sum_depths_stuck :
    (depth : String → Option ℤ) (before after : List String) (dep : String) (childs : ℤ)
    → depth dep ≡ none
    → sum_depths depth (before ++ dep ∷ after) childs ≡ none
unfolding sum_depths
sum_depths_stuck depth [] after dep childs e = rw e refl
sum_depths_stuck depth (child ∷ before) after dep childs e = elim (Option-cases (depth child)) [
  | inl stuck ↦ rw stuck refl
  | inr (d, found) ↦ rw found (sum_depths_stuck depth before after dep (int64 (childs +ℤ d)) e)
]

-- On a service of a cycle the recursion never returns, however long it runs, as long as no depth
-- of the cycle is known yet.
pub service_depth-IsCyclic :
    (Inside : String → Type 0) (s : ServiceGraph) (memory : ServiceDepth)
    → IsCyclic Inside s
    → ((index : String) → Inside index → Dict.lookup index memory ≡ none)
    → (fuel : ℕ) (index : String) → Inside index
    → service_depth s memory fuel index ≡ none
unfolding service_depth
service_depth-IsCyclic Inside s memory cyclic unknown zero index h = refl
service_depth-IsCyclic Inside s memory cyclic unknown (suc fuel) index h =
    let (before, after, dep, inside, again) = cyclic index h in
    rw (inside, unknown index h)
      (sum_depths_stuck (service_depth s memory fuel) before after dep (pos 0)
        (service_depth-IsCyclic Inside s memory cyclic unknown fuel dep again))
