-- ===== src/Samples/Starts.antt =====
-- The start of a task that was accepted, down to its files.
use batch_scheduler.Base.{
  if◌then◌else◌, ◌==◌, String, true, Option, none, some, List, [], ◌∷◌, ◌≡◌, refl, ◌++◌, length,
  All, false,
}
use batch_scheduler.Base.Int.{pos}
use batch_scheduler.Base.Outcome.{ok}
use batch_scheduler.Base.Dict.{Dict}
use Prim.Native.Char.{Char, code}
use batch_scheduler.Validator.Standard.{
  IsRaised, capitals, server_validators-eq, standard_config, bad_config, standard_validator,
}
use batch_scheduler.ActionValidator.{validate_action, compose}
use batch_scheduler.Compose.{Compose, Service, guess_main_container}
use batch_scheduler.Compose.Up.{Files, World}
use batch_scheduler.Deploy.{encode, Surroundings, deploy, run_task}
use batch_scheduler.Deploy.Confined.{standard_recomposators, run_task-IsConfined, IsConfined}
use batch_scheduler.Recompose.{patch_volume}
use batch_scheduler.Recompose.Config.{Recomposator}
use batch_scheduler.Samples.{stored_task, run}
use batch_scheduler.Samples.Deploys.{web, same-IsRange}
use batch_scheduler.Task.{Task, Run, Action, Formats}
use batch_scheduler.Validator.{check_service}

abbrev web_only : Compose
web_only = record {
  network = none;
  volumes = [];
  version = "3";
  services = ("web", some web) ∷ [];
  x = [];
}

abbrev action : Action
action = record { registered_name = "compose"; content = "web" }

abbrev task : Task
task = record stored_task { action = some action }

abbrev world : World
world = record {
  has_bin = true;
  opens_compose = true;
  opens_env = true;
  comes_up = true;
  connects = true;
  containers = λ _. some ("c0ffee" ∷ []);
}

abbrev surroundings : Surroundings Unit
surroundings = record {
  formats = record { date = λ _. "date"; time = λ _. "time"; duration = λ _. "0s" };
  as_compose = λ _. some web_only;
  as_run = λ _. run;
  write_yaml = λ nodes. 1 ∷ length nodes ∷ [];
  line = λ k v. 3 ∷ [];
  network = ok "batch-web-0-0";
  again = λ ds. ds;
  world = world;
  makes_directory = true;
  pwd = "/data/a";
}

abbrev earlier : Files
earlier = record { compose_yml = 8 ∷ 8 ∷ 8 ∷ []; env = [] }

abbrev mine : Dict Recomposator
mine = ("compose", record { volume_patchers = patch_volume "./volumes" ∷ [] }) ∷ []

started :
    (f : Files) × (t : Task) × (r : Option Run) × (run_task surroundings mine (pos 1) task earlier
      ≡ some (f, (t, r, true)))
unfolding run_task deploy batch_scheduler.Recompose.Config.recompose_action
    batch_scheduler.Base.Dict.lookup batch_scheduler.Recompose.Config.recompose_compose
    batch_scheduler.Recompose.recompose batch_scheduler.Compose.walk_services
    batch_scheduler.Recompose.patch_service batch_scheduler.Validator.cast_volumes
    batch_scheduler.Recompose.patch_volumes batch_scheduler.Recompose.patch_all patch_volume
    batch_scheduler.Base.Texts.split batch_scheduler.Base.Dict.insert
    batch_scheduler.Compose.inject_cache_volume batch_scheduler.Compose.inject
    batch_scheduler.Task.inject_predefined_env batch_scheduler.Compose.Up.up guess_main_container
    batch_scheduler.Base.Int.int64 batch_scheduler.Base.Int.◌+ℤ◌ batch_scheduler.Compose.Up.env_text
    batch_scheduler.Compose.Up.write batch_scheduler.Compose.set_cache_volume
    batch_scheduler.Runner.up
started = (_, _, _, refl)

-- The table as a function.
raise : List (Char × Char) → Char → Char
raise [] c = c
raise ((small, capital) ∷ table) c =
    let later = raise table c in if code c == code small then capital else later

raised : All (IsRaised (raise capitals)) capitals
unfolding raise
raised = (
  refl,
  (
    refl,
    (refl, (refl, (refl, (refl, (refl, (refl, (refl, (refl, (refl, (refl, (refl, tt))))))))))),
  ),
)

accepted :
    validate_action surroundings.as_compose (("compose", compose standard_validator) ∷ []) action
    ≡ []
unfolding validate_action batch_scheduler.Base.Dict.lookup batch_scheduler.Validator.validate
    batch_scheduler.Validator.check_service batch_scheduler.Validator.cast_volumes
    batch_scheduler.Validator.check_volumes batch_scheduler.Base.Texts.split
    batch_scheduler.Validator.check_service_validators batch_scheduler.Validator.check_bad_config
    batch_scheduler.Validator.check_slugs batch_scheduler.Validator.validate_volume_inplace
    batch_scheduler.Validator.validate_no_dot_dot batch_scheduler.Validator.has_dot_dot
    batch_scheduler.Validator.validate_not_as_deep
accepted = refl

registered : standard_recomposators {E = Unit} ≡ ok mine
unfolding standard_recomposators batch_scheduler.Recompose.Config.register
    batch_scheduler.Base.Dict.lookup batch_scheduler.Recompose.Config.new_recomposator
    batch_scheduler.Recompose.Config.use_config batch_scheduler.Recompose.patch_volume_in_volumes
    batch_scheduler.Base.Dict.insert
registered = refl

web_read : (check_service standard_validator web).1 ≡ false
unfolding batch_scheduler.Validator.check_service batch_scheduler.Base.Dict.lookup
    batch_scheduler.Validator.cast_volumes batch_scheduler.Validator.check_volumes
    batch_scheduler.Base.Texts.split
web_read = refl

-- The text of the new file stands before the end of the older one.
files_left : started.0.compose_yml ≡ 1 ∷ 2 ∷ 8 ∷ []
unfolding started batch_scheduler.Compose.Yaml.marshal_yaml
    batch_scheduler.Compose.Yaml.marshal_extensions
files_left = refl

run_task-IsConfined_example : IsConfined (encode surroundings) earlier started.0
unfolding batch_scheduler.Base.Dict.lookup
run_task-IsConfined_example =
    run_task-IsConfined surroundings (raise capitals)
      (standard_config (bad_config (raise capitals))) standard_validator mine (pos 1) task started.1
      action web_only "batch-web-0-0" earlier started.0 started.2 (λ k. refl)
      (server_validators-eq (raise capitals) raised) registered same-IsRange refl refl refl refl
      (web_read, tt) ((λ _. tt), tt) accepted started.3
