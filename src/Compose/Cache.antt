-- ===== src/Compose/Cache.antt =====
-- compose/compose.go: a walk that goes through, and what the cache volume does to a service.
use batch_scheduler.Base.{
  String, true, false, Option, none, some, List, [], ◌∷◌, ◌≡◌, refl, inl, inr, arith, All,
  Bool-cases,
}
use batch_scheduler.Base.Dict.{Dict}
use batch_scheduler.Compose.{
  Service, Callback, keeps, walk_services, finished, set_cache_volume, default_cache_volume,
}
use mathlib.Core.List.{Mem, mem-cons_self, mem-cons_of_mem}
use text.Mathlib.Text.{starts_with}

-- An extension, or a service of which `P` holds.
abbrev pub IsService : (String → Service → Type 0) → String × Option Service → Type 0
IsService P (name, none) = starts_with name "x-" ≡ true
IsService P (name, some s) = starts_with name "x-" ≡ false → P name s

-- A callback that keeps each service with `P`, and makes it one with `Q`.
abbrev pub Makes :
    (String → Service → Callback)
    → (String → Service → Type 0)
    → (String → Service → Type 0)
    → Type 0
Makes fn P Q =
    (name : String) (s : Service) → P name s → (s' : Service) × (fn name s ≡ keeps s') × Q name s'

pub walk_services-Makes :
    (fn : String → Service → Callback) (P Q : String → Service → Type 0)
    → Makes fn P Q
    → (services : Dict (Option Service)) → All (IsService P) services
    → (after : Dict (Option Service)) × (walk_services fn services ≡ finished after)
      × All (IsService Q) after
unfolding walk_services
walk_services-Makes fn P Q made [] h = ([], refl, tt)
walk_services-Makes fn P Q made ((name, none) ∷ services) h =
    let (after, e, all) = walk_services-Makes fn P Q made services h.1 in
    ((name, none) ∷ after, ground (arith, h.0, e), (h.0, all))
walk_services-Makes fn P Q made ((name, some s) ∷ services) h =
    let (after, e, all) = walk_services-Makes fn P Q made services h.1 in
    elim (Bool-cases (starts_with name "x-")) [
      | inl extension ↦ (
        (name, some s) ∷ after,
        ground (arith, extension, e),
        (λ no. absurd (ground (arith, no, extension)), all),
      )
      | inr service ↦
          let (s', kept, q) = made name s (h.0 service) in
          ((name, some s') ∷ after, ground (arith, service, kept, e), (λ _. q, all))
    ]

pub set_cache_volume-All :
    (P : String → Type 0) (volumes : List String)
    → P default_cache_volume
    → All P volumes
    → All P (set_cache_volume volumes)
unfolding set_cache_volume
set_cache_volume-All P [] p h = (p, tt)
set_cache_volume-All P (volume ∷ volumes) p h = ground (arith, set_cache_volume-All P volumes p h.1)

pub set_cache_volume-Mem :
    (volumes : List String) → Mem default_cache_volume (set_cache_volume volumes)
unfolding set_cache_volume
set_cache_volume-Mem [] = mem-cons_self
set_cache_volume-Mem (volume ∷ volumes) = elim (Bool-cases (starts_with volume "./cache")) [
  | inl there ↦ rw there mem-cons_self
  | inr absent ↦ rw absent (mem-cons_of_mem volume (set_cache_volume-Mem volumes))
]
