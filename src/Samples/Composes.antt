-- ===== src/Samples/Composes.antt =====
-- Compose files under the standard validator.
use batch_scheduler.Validator.Standard.{standard_validator}
use batch_scheduler.Base.{Option, none, some, List, [], ◌∷◌, ◌≡◌, ◌≢◌, refl, String, All}
use Prim.Native.Char.{Char, code}
use batch_scheduler.Base.{if◌then◌else◌, ◌==◌}
use batch_scheduler.Base.Outcome.{Result, ok}
use batch_scheduler.Compose.{Setting}
use batch_scheduler.Recompose.{patch_volume}
use batch_scheduler.Recompose.Config.{Recomposator, standard_recomposator}
use batch_scheduler.Recompose.Config as Config
use batch_scheduler.Validator.Config.{fill_bad_config, snake_to_camel, new_compose_validator}
use batch_scheduler.Validator.{validate_no_dot_dot}
use batch_scheduler.Base.Dict.{Dict}
use batch_scheduler.Compose.{Service, items, other}
use batch_scheduler.Validator.{validate, Error, not_available}
use batch_scheduler.Validator.Reports.{IsAllowed, validate-IsAllowed, validate_stops}

abbrev web : Service
web = ("volumes", items (some "./data:/data" ∷ [])) ∷ []

-- A service whose volumes are not a list.
abbrev broken : Service
broken = ("volumes", other) ∷ []

abbrev privileged : Service
privileged = ("privileged", other) ∷ []

web_passes : validate standard_validator (("web", some web) ∷ []) ≡ []
unfolding validate batch_scheduler.Validator.check_service batch_scheduler.Base.Dict.lookup
    batch_scheduler.Validator.cast_volumes batch_scheduler.Validator.check_volumes
    batch_scheduler.Base.Texts.split batch_scheduler.Validator.check_service_validators
    batch_scheduler.Validator.check_bad_config batch_scheduler.Validator.check_slugs
    batch_scheduler.Validator.validate_volume_inplace batch_scheduler.Validator.validate_no_dot_dot
    batch_scheduler.Validator.has_dot_dot batch_scheduler.Validator.validate_not_as_deep
web_passes = refl

validate-IsAllowed_example : All (IsAllowed standard_validator) (("web", some web) ∷ [])
unfolding batch_scheduler.Validator.check_service batch_scheduler.Base.Dict.lookup
    batch_scheduler.Validator.cast_volumes batch_scheduler.Validator.check_volumes
    batch_scheduler.Base.Texts.split
validate-IsAllowed_example =
    validate-IsAllowed standard_validator (("web", some web) ∷ []) (refl, tt) web_passes

validate_stops_example :
    validate standard_validator
      (("web", some web) ∷ ("worker", some broken) ∷ ("db", some privileged) ∷ [])
    ≡ validate standard_validator (("web", some web) ∷ ("worker", some broken) ∷ [])
unfolding batch_scheduler.Validator.check_service batch_scheduler.Base.Dict.lookup
    batch_scheduler.Validator.cast_volumes
validate_stops_example =
    validate_stops standard_validator (("web", some web) ∷ []) (("db", some privileged) ∷ [])
      "worker" broken refl refl

privileged_reported :
    validate standard_validator (("db", some privileged) ∷ []) ≡ not_available "privileged" ∷ []
unfolding validate batch_scheduler.Validator.check_service batch_scheduler.Base.Dict.lookup
    batch_scheduler.Validator.check_service_validators batch_scheduler.Validator.check_bad_config
privileged_reported = refl

-- The letters of the names that are used below.
abbrev to_upper : Char → Char
to_upper c = if code c == b't' then "T" else if code c == b's' then "S" else "I"

abbrev bad : Dict String
bad = fill_bad_config to_upper ("tty" ∷ "stdin_open" ∷ []) []

camel : snake_to_camel to_upper "stdin_is" ≡ "StdinIs"
unfolding snake_to_camel batch_scheduler.Validator.Config.camel_from
camel = refl

no_tty :
    new_compose_validator to_upper bad (("NoTty", Setting.other) ∷ ("NoDotDot", Setting.other) ∷ [])
    ≡ ok (record {
      volume_validators = validate_no_dot_dot ∷ [];
      service_validators = [];
      bad_config = "tty" ∷ [];
    })
unfolding new_compose_validator batch_scheduler.Validator.Config.use_keys
    batch_scheduler.Validator.Config.use_key batch_scheduler.Base.Dict.lookup fill_bad_config
    batch_scheduler.Base.Dict.insert snake_to_camel batch_scheduler.Validator.Config.camel_from
no_tty = refl

targets :
    ◌≡◌ {A = Result (Config.Error Unit) Recomposator} standard_recomposator
      (ok (record { volume_patchers = patch_volume "./volumes" ∷ [] }))
unfolding Config.new_recomposator Config.use_config
    batch_scheduler.Recompose.patch_volume_in_volumes
targets = refl
