-- ===== src/ActionValidator.antt =====
-- task/validator.go and task/compose/compose.go: the validators of actions, by the action's name.
--
-- A validator is made by a function of the registry. What a compose action holds is found by a type
-- assertion, which is a parameter here, since an action is seen through its name and its text.
use batch_scheduler.Base.{String, Option, none, some, List, [], ◌∷◌, map}
use batch_scheduler.Base.Dict.{Dict}
use batch_scheduler.Base.Dict
use batch_scheduler.Compose.{Compose, Setting}
use batch_scheduler.Task.{Action}
use batch_scheduler.Validator.{ComposeValidator, validate}
use batch_scheduler.Validator

-- The two types that implement `ActionValidator`.
pub data ActionValidator : Type 0 where
  dummy : ActionValidator
  compose : ComposeValidator → ActionValidator

pub data Error : Type 0 where
  no_config : String → Error
  invalid : Validator.Error → Error

-- The registry of validators: a function of the configuration that may fail.
abbrev pub Registry : Type 0
Registry = Dict (Dict Setting → Option ActionValidator)

-- `Register`, on the configured validators; `none` is its error.
unfoldable pub register :
    Registry → Dict (Dict Setting) → Dict ActionValidator → Option (Dict ActionValidator)
register registry [] validators = some validators
register registry ((k, cfg) ∷ configs) validators = elim (Dict.lookup k registry) [
  | none ↦ none
  | some make ↦ elim (make cfg) [
    | none ↦ none
    | some v ↦ register registry configs (Dict.insert k v validators)
  ]
]

module _ (as_compose : Action → Option Compose) where
  -- `ValidateAction` of one validator.
  abbrev pub validate_with : ActionValidator → Action → List Error
  validate_with dummy a = []
  validate_with (compose cv) a = elim (as_compose a) [
    | none ↦ []
    | some c ↦ map invalid (validate cv c.services)
  ]

  -- `ValidateAction` of the configured validators.
  unfoldable pub validate_action : Dict ActionValidator → Action → List Error
  validate_action validators a = elim (Dict.lookup a.registered_name validators) [
    | none ↦ no_config a.registered_name ∷ []
    | some v ↦ validate_with v a
  ]
