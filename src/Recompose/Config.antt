-- ===== src/Recompose/Config.antt =====
-- compose/recompose.go, task/recompose.go and task/compose/recompose.go: the recomposator that is
-- made from a configuration, and the one for each kind of action.
--
-- The configuration is a list in the order of the range over it. `UseServicePatcher` is never
-- called, and `Recompose` reads no service patcher; they are left out.
use batch_scheduler.Base.{String, Option, none, some, List, [], ◌∷◌, ◌++◌, if◌then◌else◌}
use batch_scheduler.Base.Outcome.{Result, ok, err}
use batch_scheduler.Base.Dict.{Dict}
use batch_scheduler.Base.Dict
use batch_scheduler.Compose.{Compose, Setting, words, number, other}
use batch_scheduler.Recompose.{VolumePatcher, patch_volume_in_volumes, recompose, Range}
use batch_scheduler.Task.{Action}
use text.Mathlib.Text.{◌==◌}

pub data Error (E : Type 0) : Type 0 where
  not_a_text not_relative unknown_patch : Error E
  no_config unknown_recompositor : String → Error E
  not_compose : Error E
  network : E → Error E

-- `Recomposator` of compose/recompose.go, without its handles on docker.
pub record Recomposator : Type 0 where
  pub volume_patchers : List VolumePatcher

module _ {E : Type 0} where
  abbrev pub use_patcher : Option VolumePatcher → Recomposator → Result (Error E) Recomposator
  use_patcher none r = err not_relative
  use_patcher (some p) r = ok (record r { volume_patchers = r.volume_patchers ++ p ∷ [] })

  abbrev pub use_target : Setting → Recomposator → Result (Error E) Recomposator
  use_target (words path) r = use_patcher (patch_volume_in_volumes path) r
  use_target (number n) r = err not_a_text
  use_target other r = err not_a_text

  -- The loop of `NewRecomposator`.
  unfoldable pub use_config : Dict Setting → Recomposator → Result (Error E) Recomposator
  use_config [] r = ok r
  use_config ((k, v) ∷ cfg) r =
      if k == "VolumeInVolumes"
      then (elim (use_target v r) [ err e ↦ err e | ok r' ↦ use_config cfg r' ])
      else err unknown_patch

  -- `NewRecomposator`
  unfoldable pub new_recomposator : Dict Setting → Result (Error E) Recomposator
  new_recomposator cfg = use_config cfg (record { volume_patchers = [] })

  -- `StandardRecomposator`
  abbrev pub standard_recomposator : Result (Error E) Recomposator
  standard_recomposator = new_recomposator (("VolumeInVolumes", words "./volumes") ∷ [])

  -- `Register` of task/recompose.go, over the registry of functions that make a recomposator.
  unfoldable pub register :
      {R : Type 0}
      → Dict (String → Dict Setting → Result (Error E) R)
      → String
      → Dict (Dict Setting)
      → Dict R
      → Result (Error E) (Dict R)
  register registry project [] mine = ok mine
  register registry project ((k, cfg) ∷ configs) mine = elim (Dict.lookup k registry) [
    | none ↦ err (no_config k)
    | some make ↦ elim (make project cfg) [
      | err e ↦ err e
      | ok r ↦ register registry project configs (Dict.insert k r mine)
    ]
  ]

  -- `RecomposeAction` of a compose action, with what `networks.New` gives for the project; `none` is
  -- a panic. The type assertion is the parameter `as_compose`.
  unfoldable pub recompose_compose :
      Range
      → (Action → Option Compose)
      → Result E String
      → Recomposator
      → Action
      → Option (Result (Error E) Compose)
  recompose_compose again as_compose name r a = elim (as_compose a) [
    | none ↦ some (err not_compose)
    | some c ↦ elim (recompose again r.volume_patchers name c) [
      | none ↦ none
      | some (err e) ↦ some (err (network e))
      | some (ok prod) ↦ some (ok prod)
    ]
  ]

  -- `RecomposeAction` of task/recompose.go.
  unfoldable pub recompose_action :
      Range
      → (Action → Option Compose)
      → Result E String
      → Dict Recomposator
      → Action
      → Option (Result (Error E) Compose)
  recompose_action again as_compose name mine a = elim (Dict.lookup a.registered_name mine) [
    | none ↦ some (err (unknown_recompositor a.registered_name))
    | some r ↦ recompose_compose again as_compose name r a
  ]
