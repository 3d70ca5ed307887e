-- ===== src/Validator.antt =====
-- compose/validator.go, with `WalkServices` of compose/compose.go: what a compose file may ask for.
pub mod Reports
pub mod Sources
pub mod Config
pub mod Standard
use batch_scheduler.Base.{
  ℕ, String, Bool, true, false, Option, none, some, List, [], ◌∷◌, ◌++◌, if◌then◌else◌, ltb, length,
}
use batch_scheduler.Compose.{Field, items, texts, labels, other, Service}
use batch_scheduler.Base.Texts.{split}
use batch_scheduler.Base.Dict.{Dict}
use batch_scheduler.Base.Dict
use text.Mathlib.Text.{◌==◌, starts_with}

pub data Error : Type 0 where
  relative_only dot_dot too_deep : String → Error
  not_available : String → Error

abbrev pub VolumeValidator : Type 0
VolumeValidator = String → String → Bool → Option Error

abbrev pub ServiceValidator : Type 0
ServiceValidator = Service → Option Error

pub record ComposeValidator : Type 0 where
  pub volume_validators : List VolumeValidator
  pub service_validators : List ServiceValidator
  pub bad_config : List String

-- `ValidateVolumeInplace`
unfoldable pub validate_volume_inplace : VolumeValidator
validate_volume_inplace src dest ro =
    if starts_with src "./" then none else some (relative_only src)

unfoldable pub has_dot_dot : List String → Bool
has_dot_dot [] = false
has_dot_dot (slug ∷ slugs) = if starts_with slug ".." then true else has_dot_dot slugs

-- `ValidateNoDotDot`
unfoldable pub validate_no_dot_dot : VolumeValidator
validate_no_dot_dot src dest ro = if has_dot_dot (split b'/' src) then some (dot_dot src) else none

-- `ValidateNotAsDeep`
unfoldable pub validate_not_as_deep : ℕ → VolumeValidator
validate_not_as_deep deep src dest ro =
    if ltb deep (length (split b'/' src)) then some (too_deep src) else none

-- An error, where there is one, before others.
abbrev pub report : Option Error → List Error → List Error
report none errs = errs
report (some e) errs = e ∷ errs

-- The loop over the service validators.
unfoldable pub check_service_validators : List ServiceValidator → Service → List Error
check_service_validators [] service = []
check_service_validators (v ∷ vs) service = report (v service) (check_service_validators vs service)

-- The loop over the names that are not available.
unfoldable pub check_bad_config : List String → Service → List Error
check_bad_config [] service = []
check_bad_config (bad ∷ bads) service =
    let rest = check_bad_config bads service in
    elim (Dict.lookup bad service) [ none ↦ rest | some _ ↦ not_available bad ∷ rest ]

-- The loop over the volume validators.
unfoldable pub check_slugs : List VolumeValidator → String → String → Bool → List Error
check_slugs [] src dest ro = []
check_slugs (v ∷ vs) src dest ro = report (v src dest ro) (check_slugs vs src dest ro)

-- One volume; `none` is the return on a wrong format.
abbrev pub check_parts : List VolumeValidator → List String → Option (List Error)
check_parts vs (src ∷ dest ∷ []) = some (check_slugs vs src dest false)
check_parts vs (src ∷ dest ∷ mode ∷ []) = some (check_slugs vs src dest (mode == "ro"))
check_parts vs _ = none

-- The loop over the volumes: the errors, and whether it returns early.
unfoldable pub check_volumes : List VolumeValidator → List String → List Error × Bool
check_volumes vs [] = ([], false)
check_volumes vs (volume ∷ volumes) =
    let (errs, stopped) = check_volumes vs volumes in
    elim (check_parts vs (split b':' volume)) [
      | none ↦ ([], true)
      | some found ↦ (found ++ errs, stopped)
    ]

abbrev pub cast_items : List (Option String) → Option (List String)
cast_items [] = some []
cast_items (none ∷ volumes) = none
cast_items (some volume ∷ volumes) = elim (cast_items volumes) [
  | none ↦ none
  | some vs ↦ some (volume ∷ vs)
]

-- `castVolumes`
unfoldable pub cast_volumes : Field → Option (List String)
cast_volumes (items volumes) = cast_items volumes
cast_volumes (texts volumes) = none
cast_volumes (labels pairs) = none
cast_volumes other = none

-- The volumes of a service, if it has any.
abbrev pub check_field : List VolumeValidator → Option Field → List Error × Bool
check_field vs none = ([], false)
check_field vs (some field) = elim (cast_volumes field) [
  | none ↦ ([], true)
  | some volumes ↦ check_volumes vs volumes
]

-- The callback of `Validate` for one service: the errors that it appends, and whether it returns
-- an error itself.
unfoldable pub check_service : ComposeValidator → Service → List Error × Bool
check_service cv service =
    let (errs, stopped) = check_field cv.volume_validators (Dict.lookup "volumes" service) in
    (
      check_service_validators cv.service_validators service
          ++ check_bad_config cv.bad_config service
          ++ errs,
      stopped,
    )

-- `Validate`: the walk over the services ends at the first error that the callback returns, and
-- `Validate` drops that error.
unfoldable pub validate : ComposeValidator → Dict (Option Service) → List Error
validate cv [] = []
validate cv ((name, service) ∷ services) =
    let rest = validate cv services in
    if starts_with name "x-" then rest else (elim service [
      | none ↦ []
      | some s ↦ let (errs, stopped) = check_service cv s in if stopped then errs else errs ++ rest
    ])
