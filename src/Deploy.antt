-- ===== src/Deploy.antt =====
-- runner/runner.go with compose/compose.go and compose/recompose.go: the start of a task whose action
-- is a compose file, down to the files that docker-compose reads. It makes the outcome that Runner
-- takes as an argument. A runner without recomposators, which the server never makes, is left out.
pub mod Confined
use batch_scheduler.Recompose.{Range}
use batch_scheduler.Base.{
  String, Bool, true, false, Option, none, some, List, [], ◌∷◌, if◌then◌else◌, not,
}
use batch_scheduler.Base.Outcome.{Result, ok, err}
use batch_scheduler.Base.Dict.{Dict}
use batch_scheduler.Base.Int.{ℤ, pos, ◌+ℤ◌, int64}
use batch_scheduler.Base.Sort.{◌>>=◌}
use batch_scheduler.Compose.{Compose}
use batch_scheduler.Compose.Yaml.{Node, marshal_yaml}
use batch_scheduler.Compose.Up.{Bytes, World, Files}
use batch_scheduler.Compose.Up
use batch_scheduler.DockerRun.{DockerRun}
use batch_scheduler.Recompose.Config.{Recomposator, recompose_action}
use batch_scheduler.Recompose.Config
use batch_scheduler.Runner.{Outcome, mkdir_fails, recompose_fails, up_fails, comes_up}
use batch_scheduler.Runner
use batch_scheduler.Task.{Task, Run, Action, Formats, inject_predefined_env}

-- What the start of a task finds: the network that `networks.New` gives, the order
-- of the second range over the services, what docker answers, and
-- how texts are written; whether the directory is there or its parent is, so that `Mkdir` does not
-- say that it is missing; and a run as the task sees it.
pub record Surroundings (E : Type 0) : Type 0 where
  pub formats : Formats
  pub as_compose : Action → Option Compose
  pub as_run : DockerRun → Run
  pub write_yaml : List (String × Node) → Bytes
  pub line : String → String → Bytes
  pub network : Result E String
  pub again : Range
  pub world : World
  pub makes_directory : Bool
  pub pwd : String

module _ {E : Type 0} (sur : Surroundings E) where
  abbrev pub encode : Compose → Bytes
  encode c = sur.write_yaml (marshal_yaml c)

  abbrev pub outcome_of : Result Up.Error DockerRun → Outcome
  outcome_of (err e) = up_fails none
  outcome_of (ok run) = comes_up (sur.as_run run)

  -- `Up` of the runner behind the recomposition.
  abbrev pub up_recomposed :
      ℤ → Task → Files → Option (Result (Config.Error E) Compose) → Option (Files × Outcome)
  up_recomposed now t f none = none
  up_recomposed now t f (some (err e)) = some (f, recompose_fails)
  up_recomposed now t f (some (ok prod)) = do
    t' ←
        inject_predefined_env sur.formats now
          (record t { run_counter = int64 (t.run_counter +ℤ pos 1) })
    (f', r) ← Up.up encode sur.line sur.world now sur.pwd t'.environments t'.run_counter prod f
    some (f', outcome_of r)

  -- The files that `Up` of the runner leaves, and the outcome of its steps.
  unfoldable pub deploy : Dict Recomposator → ℤ → Task → Files → Option (Files × Outcome)
  deploy mine now t f = if not sur.makes_directory then some (f, mkdir_fails) else elim t.action [
    | none ↦ none
    | some a ↦ up_recomposed now t f (recompose_action sur.again sur.as_compose sur.network mine a)
  ]

  -- `Up` of the runner, with the files.
  unfoldable pub run_task :
      Dict Recomposator → ℤ → Task → Files → Option (Files × (Task × Option Run × Bool))
  run_task mine now t f = do
    (f', outcome) ← deploy mine now t f
    r ← Runner.up sur.formats now outcome t
    some (f', r)
