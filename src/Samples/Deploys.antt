-- ===== src/Samples/Deploys.antt =====
-- Compose files on their way into a run.
use batch_scheduler.Base.Dict
use batch_scheduler.Base.{sym, ap}
use batch_scheduler.Validator.{ComposeValidator, validate_no_dot_dot, validate_volume_inplace}
use batch_scheduler.Validator.Config.{new_compose_validator}
use text.Mathlib.Text.{◌==◌}
use batch_scheduler.Base.{
  Option, none, some, List, [], ◌∷◌, ◌≡◌, ◌≢◌, ◌↔◌, ◌⊎◌, inl, inr, refl, String, Bool, true, false,
  All, ◌+◌, arith,
}
use batch_scheduler.Base.Int.{pos}
use batch_scheduler.Base.Outcome.{ok}
use batch_scheduler.Base.Dict.{Dict}
use batch_scheduler.Compose.{
  Compose, Service, Setting, items, texts, labels, other, words, number, default_cache_volume,
}
use batch_scheduler.Compose.Cache.{IsService}
use batch_scheduler.Recompose.{recompose, patch_volume, patch_volumes, all_patched}
use batch_scheduler.Recompose.Runnable.{IsRunnable, IsRange}
use batch_scheduler.Recompose.Validated.{validated-IsRunnable}
use batch_scheduler.Validator.{validate}
use batch_scheduler.Validator.Reports.{IsReadThrough}
use batch_scheduler.Recompose.Lost.{recompose_stops}
use batch_scheduler.Validator.{cast_volumes}

abbrev pub web : Service
web = ("volumes", items (some "./data:/data:ro" ∷ [])) ∷ []

abbrev db : Service
db = ("labels", other) ∷ []

abbrev batch : Dict Setting
batch = ("max_execution_time", words "30s") ∷ ("retry", number (pos 2)) ∷ []

abbrev pub file : Compose
file = record {
  network = none;
  volumes = [];
  version = "3";
  services = ("x-common", none) ∷ ("web", some web) ∷ ("worker", some []) ∷ [];
  x = ("x-batch", batch) ∷ [];
}

abbrev mixed : Compose
mixed = record file { services = ("db", some db) ∷ ("web", some web) ∷ [] }

volumes_cast : cast_volumes (items (some "./data:/data:ro" ∷ [])) ≡ some ("./data:/data:ro" ∷ [])
unfolding cast_volumes
volumes_cast = refl

volumes_moved :
    patch_volumes (patch_volume "./volumes" ∷ []) ("./data:/data:ro" ∷ [])
    ≡ all_patched ("./volumes/data:/data:ro" ∷ [])
unfolding patch_volumes batch_scheduler.Recompose.patch_all patch_volume
    batch_scheduler.Base.Texts.split
volumes_moved = refl

-- The two validators of sources, visited in the other order.
abbrev sources : Dict Setting
sources = ("NoDotDot", words "") ∷ ("VolumeInplace", words "") ∷ []

abbrev source_validator : ComposeValidator
source_validator = record {
  volume_validators = validate_no_dot_dot ∷ validate_volume_inplace ∷ [];
  service_validators = [];
  bad_config = [];
}

made_validator : new_compose_validator (λ c. c) [] sources ≡ ok source_validator
unfolding new_compose_validator batch_scheduler.Validator.Config.use_keys
    batch_scheduler.Validator.Config.use_key
made_validator = refl

pub same-IsRange : IsRange (λ ds. ds)
same-IsRange P ds = ((λ h. h), (λ h. h))

file_accepted : validate source_validator file.services ≡ []
unfolding batch_scheduler.Validator.validate batch_scheduler.Validator.check_service
    batch_scheduler.Validator.cast_volumes batch_scheduler.Base.Texts.split
    batch_scheduler.Base.Dict.lookup batch_scheduler.Validator.check_bad_config
    batch_scheduler.Validator.check_service_validators batch_scheduler.Validator.check_slugs
    batch_scheduler.Validator.check_volumes batch_scheduler.Validator.validate_volume_inplace
    batch_scheduler.Validator.validate_no_dot_dot batch_scheduler.Validator.has_dot_dot
    batch_scheduler.Validator.validate_not_as_deep
file_accepted = refl

file_read : All (IsReadThrough source_validator) file.services
unfolding batch_scheduler.Validator.check_service batch_scheduler.Validator.cast_volumes
    batch_scheduler.Base.Texts.split batch_scheduler.Base.Dict.lookup
    batch_scheduler.Validator.check_bad_config batch_scheduler.Validator.check_service_validators
    batch_scheduler.Validator.check_slugs batch_scheduler.Validator.check_volumes
    batch_scheduler.Validator.validate_volume_inplace batch_scheduler.Validator.validate_no_dot_dot
    batch_scheduler.Validator.has_dot_dot batch_scheduler.Validator.validate_not_as_deep
file_read = (refl, (refl, (refl, tt)))

validated-IsRunnable_example :
    (prod : Compose) × (recompose {E = Unit}
        (λ ds. ds)
        (patch_volume "./volumes" ∷ [])
        (ok "batch-web-0-0")
        file
      ≡ some (ok prod))
    × (prod.network ≡ some "batch-web-0-0")
    × (prod.version ≡ "3")
    × All (IsService (IsRunnable "./volumes")) prod.services
unfolding batch_scheduler.Base.Dict.lookup
validated-IsRunnable_example =
    validated-IsRunnable (λ c. c) [] sources source_validator (λ ds. ds) "./volumes" "batch-web-0-0"
      file (words "", refl) (words "", refl) made_validator same-IsRange file_read
      (refl, ((λ _. tt), ((λ _. tt), tt))) file_accepted

-- The worked file: the volume is moved, and each service has the cache volume and its label.
file_recomposed :
    recompose {E = Unit}
      (λ ds. ds)
      (patch_volume "./volumes" ∷ [])
      (ok "n")
      (record file { services = ("web", some web) ∷ [] })
    ≡ some (
        ok (record file {
          network = some "n";
          services =
              (
                "web",
                some (
                    ("volumes", texts ("./volumes/data:/data:ro" ∷ default_cache_volume ∷ []))
                    ∷ ("labels", labels (("batch", "web") ∷ []))
                    ∷ []),
              )
              ∷ [];
        }))
unfolding recompose batch_scheduler.Compose.walk_services batch_scheduler.Recompose.patch_service
    batch_scheduler.Base.Dict.lookup cast_volumes patch_volumes batch_scheduler.Recompose.patch_all
    patch_volume batch_scheduler.Base.Texts.split batch_scheduler.Base.Dict.insert
    batch_scheduler.Compose.inject_cache_volume batch_scheduler.Compose.inject
    batch_scheduler.Compose.set_cache_volume
file_recomposed = refl

db_not_web : ◌≢◌ {A = String} "db" "web"
db_not_web e = cc (sym (ap (λ k. k == "web") e))

recompose_stops_example :
    (prod : Compose) × (recompose {E = Unit}
        (λ ds. ds)
        (patch_volume "./volumes" ∷ [])
        (ok "n")
        mixed
      ≡ some (ok prod))
    × (Dict.lookup "web" prod.services ≡ some (some web))
unfolding batch_scheduler.Base.Dict.lookup
recompose_stops_example =
    recompose_stops (λ ds. ds) (patch_volume "./volumes" ∷ []) "n" mixed "db" "web" db web
      (some "./data:/data:ro" ∷ []) (("web", some web) ∷ []) same-IsRange refl refl refl refl
      ((λ e. absurd (db_not_web e)), ((λ e. refl), tt)) refl refl
