-- ===== src/Task/Registered.antt =====
-- task/task.go and task/compose/compose.go: the registries of actions and runs as both `init` leave
-- them. What `json.Unmarshal` makes of a text for a new value of each type is a parameter.
use batch_scheduler.Base.{String, Option, none, [], ◌∷◌, ◌≡◌, ◌≢◌, refl, arith}
use batch_scheduler.Base.Dict.{Dict}
use batch_scheduler.Base.Dict
use batch_scheduler.Base.Outcome.{err}
use batch_scheduler.Task.{Task, Action, Run, CronParser}
use batch_scheduler.Task.Codec.{RawTask, Registry, unregistered_action, unmarshal, unmarshal_action}
use text.Mathlib.TextEquality.{eq_iff}

pub record Decoders : Type 0 where
  pub dummy_action : String → Option Action
  pub compose_action : String → Option Action
  pub dummy_run : String → Option Run
  pub compose_run : String → Option Run

abbrev pub actions_registry : Decoders → Dict (String → Option Action)
actions_registry d = ("dummy", d.dummy_action) ∷ ("compose", d.compose_action) ∷ []

abbrev pub run_registry : Decoders → Dict (String → Option Run)
run_registry d = ("dummy", d.dummy_run) ∷ ("compose", d.compose_run) ∷ []

abbrev pub registry : CronParser → Decoders → Registry
registry parser d = record {
  actions = λ k. Dict.lookup k (actions_registry d);
  runs = λ k. Dict.lookup k (run_registry d);
  cron = parser;
}

unknown :
    (d : Decoders) (k : String)
    → k ≢ "dummy"
    → k ≢ "compose"
    → Dict.lookup k (actions_registry d) ≡ none
unfolding Dict.lookup
unknown d k not_dummy not_compose =
    ground (arith, eq_iff "dummy" k, eq_iff "compose" k, not_dummy, not_compose)

-- A task whose action has another name than the two that are registered is not read.
unmarshal_unregistered :
    (parser : CronParser) (d : Decoders) (t : Task) (raw : RawTask) (k payload : String)
    → raw.action ≡ (k, payload) ∷ []
    → k ≢ "dummy"
    → k ≢ "compose"
    → unmarshal (registry parser d) t raw ≡ err (unregistered_action k)
unfolding unmarshal unmarshal_action
unmarshal_unregistered parser d t raw k payload e not_dummy not_compose =
    rw (e, unmarshal, unmarshal_action, unknown d k not_dummy not_compose) refl
