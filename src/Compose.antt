-- ===== src/Compose.antt =====
-- compose/compose.go: a compose file, the walk over its services and the cache volume.
--
-- The services of a file are a list in the order in which the range over the map visits them. A
-- service is `none` where it is not a map; of its fields only those that the code looks into are
-- told apart. A value of the YAML package is seen as what the code decodes it to.
pub mod Up
pub mod Yaml
pub mod Check
pub mod Cache
use batch_scheduler.Base.{
  ℕ, String, Bool, true, false, Option, none, some, List, [], ◌∷◌, ◌++◌, if◌then◌else◌,
}
use batch_scheduler.Base.Int.{ℤ}
use batch_scheduler.Base.Outcome.{Result, ok, err}
use batch_scheduler.Base.Dict.{Dict}
use batch_scheduler.Base.Dict
use text.Mathlib.Text.{◌==◌, starts_with}

-- A field of a service: a list as it is decoded, in which an entry is `none` where it is not a
-- text; a list of texts and a map of texts as the code makes them.
pub data Field : Type 0 where
  items : List (Option String) → Field
  texts : List String → Field
  labels : Dict String → Field
  other : Field

abbrev pub Service : Type 0
Service = Dict Field

-- A value of the options under `x-batch`.
pub data Setting : Type 0 where
  words : String → Setting
  number : ℤ → Setting
  other : Setting

-- `Compose`. Of the networks only the name of the external default network is kept; the volumes on
-- the top level come from JSON alone, and nothing looks into them.
pub record Compose : Type 0 where
  pub network : Option String
  pub volumes : Dict Setting
  pub version : String
  pub services : Dict (Option Service)
  pub x : Dict (Dict Setting)

-- `NewCompose`
unfoldable pub new_compose : Compose
new_compose = record { network = none; volumes = []; version = ""; services = []; x = [] }

-- What the callback of a walk does: it leaves the service and lets the walk go on, leaves it and
-- returns an error, or panics.
pub data Callback : Type 0 where
  keeps fails : Service → Callback
  panics : Callback

-- A walk: it goes through, stops at an error, or panics.
pub data Walked : Type 0 where
  finished stopped : Dict (Option Service) → Walked
  panicked : Walked

abbrev pub before : String × Option Service → Walked → Walked
before entry (finished services) = finished (entry ∷ services)
before entry (stopped services) = stopped (entry ∷ services)
before entry panicked = panicked

abbrev pub resume : String → Callback → Dict (Option Service) → Walked → Walked
resume name (keeps s) services rest = before (name, some s) rest
resume name (fails s) services rest = stopped ((name, some s) ∷ services)
resume name panics services rest = panicked

-- `WalkServices`
unfoldable pub walk_services : (String → Service → Callback) → Dict (Option Service) → Walked
walk_services fn [] = finished []
walk_services fn ((name, none) ∷ services) =
    let rest = walk_services fn services in
    if starts_with name "x-" then before (name, none) rest else stopped ((name, none) ∷ services)
walk_services fn ((name, some s) ∷ services) =
    let rest = walk_services fn services in
    if starts_with name "x-"
    then before (name, some s) rest
    else resume name (fn name s) services rest

-- The services as a walk leaves them, where the caller drops its error; `none` is a panic.
abbrev pub left : Walked → Option (Dict (Option Service))
left (finished services) = some services
left (stopped services) = some services
left panicked = none

abbrev pub default_cache_volume : String
default_cache_volume = "./cache:/density/cache"

-- The loop over the volumes, with the append after it: the first cache volume is overwritten, and
-- where there is none the cache volume is added.
unfoldable pub set_cache_volume : List String → List String
set_cache_volume [] = default_cache_volume ∷ []
set_cache_volume (volume ∷ volumes) =
    let rest = set_cache_volume volumes in
    if starts_with volume "./cache" then default_cache_volume ∷ volumes else volume ∷ rest

-- The callback of `InjectCacheVolume`, by the volumes that it finds.
abbrev pub inject_into : Option Field → Service → Callback
inject_into none s = keeps (Dict.insert "volumes" (texts (set_cache_volume [])) s)
inject_into (some (texts vs)) s = keeps (Dict.insert "volumes" (texts (set_cache_volume vs)) s)
inject_into (some (items vs)) s = fails s
inject_into (some (labels pairs)) s = fails s
inject_into (some other) s = fails s

unfoldable pub inject : String → Service → Callback
inject name s = inject_into (Dict.lookup "volumes" s) s

-- `InjectCacheVolume`
unfoldable pub inject_cache_volume : Compose → Option Compose
inject_cache_volume c = elim (left (walk_services inject c.services)) [
  | none ↦ none
  | some services ↦ some (record c { services = services })
]

pub data Error : Type 0 where
  no_services many_services : Error

-- `guessMainContainer`
unfoldable pub guess_main_container : Compose → Result Error String
guess_main_container c = elim c.services [
  | [] ↦ err no_services
  | (name, _) ∷ rest ↦ elim rest [ [] ↦ ok name | _ ∷ _ ↦ err many_services ]
]
