-- ===== src/Samples/Checks.antt =====
-- A posted file on its way past docker-compose.
use batch_scheduler.Base.{String, true, false, Option, none, some, List, [], ◌∷◌, ◌≡◌, refl}
use batch_scheduler.Base.Int.{pos}
use batch_scheduler.Base.Outcome.{ok}
use batch_scheduler.Compose.{Compose}
use batch_scheduler.Compose.Check.{Host, Checker, validate}
use batch_scheduler.Compose.Check.Verdict.{IsVerdict, IsFresh, validate-IsVerdict}
use batch_scheduler.Compose.Yaml.{marshal_yaml}
use batch_scheduler.PostTasks.{Form, form, read_task}
use batch_scheduler.PostTasks.Checked.{checked, IsChecked, read_task-IsChecked}
use batch_scheduler.Samples.Deploys.{file}
use batch_scheduler.Samples.Posts.{libraries}
use batch_scheduler.Task.{Task}

abbrev host : Host
host = record {
  finds_bin = true;
  temp_file = λ _. some "validate-1";
  write_yaml = λ nodes. ok (7 ∷ []);
  config = λ text. none;
}

-- No file is left, and docker-compose has not been looked for.
abbrev new_checker : Checker
new_checker = record { compose_is_here = false; files = [] }

fresh : IsFresh host new_checker.files
unfolding batch_scheduler.Base.Dict.lookup
fresh name named = refl

validate-IsVerdict_example : IsVerdict host file new_checker (validate host file new_checker)
validate-IsVerdict_example = validate-IsVerdict host file new_checker fresh

abbrev posted_form : Form
posted_form = record {
  readable = true;
  labels = none;
  file = some (some (marshal_yaml file));
  is_rejected = λ _. false;
}

read :
    (t : Task) × (read_task libraries (pos 1) (form (checked host new_checker posted_form)) ≡ ok t)
unfolding read_task checked batch_scheduler.PostTasks.read_file
    batch_scheduler.Compose.Yaml.unmarshal_yaml marshal_yaml
    batch_scheduler.Compose.Yaml.marshal_extensions batch_scheduler.Base.Dict.insert
    batch_scheduler.Compose.Yaml.read_entry validate batch_scheduler.Compose.Check.lazy_ensure_bin
    batch_scheduler.ComposeTask.task_from_compose batch_scheduler.Base.Dict.lookup
    batch_scheduler.Compose.new_compose batch_scheduler.Task.new
read = (_, refl)

read_task-IsChecked_example : IsChecked host new_checker posted_form
read_task-IsChecked_example =
    read_task-IsChecked libraries host new_checker (pos 1) posted_form read.0 fresh read.1
