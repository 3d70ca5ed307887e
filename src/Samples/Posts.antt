-- ===== src/Samples/Posts.antt =====
-- Posted tasks, the labels of tasks, and runs in containers.
use batch_scheduler.Validator.Standard.{standard_validator}
use batch_scheduler.Base.{
  ℕ, Option, none, some, List, [], ◌∷◌, ◌≡◌, ◌≢◌, ◌↔◌, ◌⊎◌, inl, inr, refl, String, Bool, true,
  false, All, arith, if◌then◌else◌,
}
use batch_scheduler.Base.Int.{ℤ, pos}
use batch_scheduler.Base.Outcome.{ok}
use batch_scheduler.Base.Dict.{Dict}
use batch_scheduler.ActionValidator.{ActionValidator, compose}
use batch_scheduler.Compose.{Compose}
use batch_scheduler.ComposeTask.{task_from_compose}
use batch_scheduler.ComposeTask.Schedule.{IsSchedulable, task_from_compose-IsSchedulable}
use batch_scheduler.DockerRun.{DockerRun, Message, wait, wait_loop, as_run}
use batch_scheduler.DockerRun.Endings.{wait-eq-done}
use batch_scheduler.DockerRun.Retries.{failed_run_waits}
use batch_scheduler.Labels.{is_label_valid, IsWords, is_label_valid_iff}
use batch_scheduler.PostTasks.{Posted, json, form, Form, Libraries, post_tasks}
use batch_scheduler.PostTasks.Created.{IsPosted}
use batch_scheduler.PostTasks.Answered.{HasAction, post_tasks-IsPosted}
use batch_scheduler.Todo.{Todo, ping}
use batch_scheduler.PostTasks.{read_task, Answer}
use batch_scheduler.Status.{waiting, done, timeout}
use batch_scheduler.Task.{Task, Action, prepare_reschedule}
use batch_scheduler.Samples.{env, empty, busy, watcher, free, bob, Env, Watcher}
use batch_scheduler.Samples.Deploys.{file}
use batch_scheduler.Samples.Examples.{a_is_an_id}
use batch_scheduler.Scheduler.{Scheduler, get_task}
use batch_scheduler.Scheduler.Loop.{finish, is_ready}
use batch_scheduler.Compose.Yaml.{Node, marshal_yaml}

is_label_valid_iff_example : (is_label_valid "a-b.c1" ≡ true) ↔ IsWords "a-b.c1"
is_label_valid_iff_example = is_label_valid_iff "a-b.c1"

no_empty_word : is_label_valid "a--b" ≡ false
unfolding is_label_valid batch_scheduler.Labels.matches
no_empty_word = refl

abbrev pub as_action : Compose → Action
as_action c = record { registered_name = "compose"; content = c.version }

abbrev pub half_minute : String → Option ℤ
half_minute s = some (pos 30000000000)

abbrev pub no_cron : String → Option (ℤ → ℤ)
no_cron s = none

from_file : (t : Task) × (task_from_compose half_minute no_cron as_action (pos 1) file ≡ ok t)
unfolding task_from_compose batch_scheduler.Base.Dict.lookup batch_scheduler.Task.new
from_file = (_, refl)

task_from_compose-IsSchedulable_example :
    IsSchedulable no_cron (some (as_action file)) from_file.0
    × ((later : ℤ) → (prepare_reschedule no_cron later from_file.0).status ≡ waiting)
task_from_compose-IsSchedulable_example =
    task_from_compose-IsSchedulable half_minute no_cron as_action (pos 1) file from_file.0
      from_file.1

abbrev pub libraries : Libraries
libraries = record {
  parse_duration = half_minute;
  parser = no_cron;
  as_action = as_action;
  as_compose = λ _. some file;
}

abbrev pub validators : Dict ActionValidator
validators = ("compose", compose standard_validator) ∷ []

abbrev nodes : List (String × Node)
nodes = marshal_yaml file

abbrev upload : Posted
upload =
    form (record {
      readable = true;
      labels = none;
      file = some (some nodes);
      is_rejected = λ _. false;
    })

read_upload : HasAction (read_task libraries (pos 3) upload)
unfolding post_tasks batch_scheduler.PostTasks.read_task batch_scheduler.PostTasks.read_file
    batch_scheduler.Compose.Yaml.unmarshal_yaml marshal_yaml
    batch_scheduler.Compose.Yaml.marshal_extensions batch_scheduler.Base.Dict.insert
    batch_scheduler.Compose.Yaml.read_entry task_from_compose batch_scheduler.Base.Dict.lookup
    batch_scheduler.Compose.new_compose batch_scheduler.Task.new
    batch_scheduler.PostTasks.labels_valid batch_scheduler.ActionValidator.validate_action
    batch_scheduler.Validator.validate batch_scheduler.Validator.check_service
    batch_scheduler.Validator.cast_volumes batch_scheduler.Base.Texts.split
    batch_scheduler.Compose.Yaml.add_services batch_scheduler.JsonStore.put is_label_valid
    batch_scheduler.Labels.matches batch_scheduler.Resources.check batch_scheduler.Scheduler.add
    batch_scheduler.Scheduler.add_with_id batch_scheduler.Scheduler.refusal
    batch_scheduler.Scheduler.wake batch_scheduler.Store.put batch_scheduler.Task.Codec.marshal
    batch_scheduler.Todo.ping batch_scheduler.Validator.check_bad_config
    batch_scheduler.Validator.check_service_validators batch_scheduler.Validator.check_slugs
    batch_scheduler.Validator.check_volumes batch_scheduler.Validator.validate_volume_inplace
    batch_scheduler.Validator.validate_no_dot_dot batch_scheduler.Validator.has_dot_dot
    batch_scheduler.Validator.validate_not_as_deep
read_upload = (_, refl)

raised : (r : Todo × Bool) × (ping empty.todo ≡ some r)
unfolding ping
raised = (_, refl)

post_tasks-IsPosted_example :
    (r : Scheduler × Answer) × (post_tasks libraries validators bob none
        (pos 3)
        (some "b")
        upload
        empty
      ≡ some r)
    × IsPosted libraries validators bob none empty r
post_tasks-IsPosted_example =
    post_tasks-IsPosted libraries validators bob none (pos 3) (some "b") upload empty raised.0
      read_upload raised.1

-- The posted file becomes a task of bob.
posted :
    (r : _) × (post_tasks libraries validators bob none (pos 3) (some "b") upload empty ≡ some r)
    × (r.1.0 ≡ 201)
unfolding post_tasks batch_scheduler.PostTasks.read_task batch_scheduler.PostTasks.read_file
    batch_scheduler.Compose.Yaml.unmarshal_yaml marshal_yaml
    batch_scheduler.Compose.Yaml.marshal_extensions batch_scheduler.Base.Dict.insert
    batch_scheduler.Compose.Yaml.read_entry task_from_compose batch_scheduler.Base.Dict.lookup
    batch_scheduler.Compose.new_compose batch_scheduler.Task.new
    batch_scheduler.PostTasks.labels_valid batch_scheduler.ActionValidator.validate_action
    batch_scheduler.Validator.validate batch_scheduler.Validator.check_service
    batch_scheduler.Validator.cast_volumes batch_scheduler.Base.Texts.split
    batch_scheduler.Compose.Yaml.add_services batch_scheduler.JsonStore.put is_label_valid
    batch_scheduler.Labels.matches batch_scheduler.Resources.check batch_scheduler.Scheduler.add
    batch_scheduler.Scheduler.add_with_id batch_scheduler.Scheduler.refusal
    batch_scheduler.Scheduler.wake batch_scheduler.Store.put batch_scheduler.Task.Codec.marshal
    batch_scheduler.Todo.ping batch_scheduler.Validator.check_bad_config
    batch_scheduler.Validator.check_service_validators batch_scheduler.Validator.check_slugs
    batch_scheduler.Validator.check_volumes batch_scheduler.Validator.validate_volume_inplace
    batch_scheduler.Validator.validate_no_dot_dot batch_scheduler.Validator.has_dot_dot
    batch_scheduler.Validator.validate_not_as_deep
posted = (_, refl, refl)

abbrev container : DockerRun
container = record {
  path = "/data/a";
  rid = "c0ffee";
  id = pos 0;
  start = pos 1;
  finish = pos 0;
  exit_code = pos 0;
  running = true;
}

timed_out :
    (r : _) × (wait true
        (Message.no_error ∷ Message.ctx_deadline ∷ [])
        true
        (some ("exited", pos 0))
        (pos 9)
        container
      ≡ some r)
unfolding wait wait_loop
timed_out = (_, refl)

wait-eq-done_example : (timed_out.0.1 ≡ done) ↔ (
    (◌≡◌ {A = Option (String × ℤ)} (some ("exited", pos 0)) (some ("exited", pos 0)))
    × ((timeout ≡ waiting) ⊎ (◌≡◌ {A = Bool} true true)))
unfolding wait_loop
wait-eq-done_example =
    wait-eq-done (Message.no_error ∷ Message.ctx_deadline ∷ []) true (some ("exited", pos 0))
      (pos 9) container timed_out.0.0 timeout timed_out.0.1 timed_out.0.2 refl timed_out.1

-- The run of bob's task fails with code 1.
failed_run :
    (r : _) × (wait true (Message.stopped ∷ []) true (some ("exited", pos 1)) (pos 70) container
      ≡ some r)
unfolding wait wait_loop
failed_run = (_, refl)

abbrev text_of : DockerRun → String
text_of d = if d.running then "up" else "down"

-- A scheduler whose watcher waits for the container.
abbrev watched_container : Watcher
watched_container = record watcher {
  task = record watcher.task { run = some (as_run text_of container) };
  run = as_run text_of container;
}

abbrev busy_container : Scheduler
busy_container = record busy { watchers = watched_container ∷ [] }

abbrev run_env : Env
run_env = record env {
  registry = record env.registry { runs = λ _. some (λ _. some (as_run text_of failed_run.0.0)) };
}

finished_again :
    (u : Scheduler) × (finish run_env
        (pos 70)
        0
        waiting
        (as_run text_of failed_run.0.0)
        busy_container
      ≡ some u)
unfolding finish batch_scheduler.Scheduler.Loop.take_at batch_scheduler.Scheduler.wake
    batch_scheduler.Todo.ping batch_scheduler.Scheduler.Loop.put
finished_again = (_, refl)

not_zero : ◌≢◌ {A = ℤ} (pos 1) (pos 0)
not_zero = λ e. ground (arith, e)

failed_run_waits_example :
    (t : Task) × (get_task run_env "a" finished_again.0 ≡ ok (some t))
    × (t ≡ record watched_container.task {
      run = some (as_run text_of failed_run.0.0);
      status = waiting;
      mtime = pos 70;
      cancel = none;
    })
    × (failed_run.0.0 ≡ record container { running = false; finish = pos 70; exit_code = pos 1 })
    × (is_ready run_env (pos 80) free t ≡ true)
unfolding failed_run batch_scheduler.DockerRun.finish_wait batch_scheduler.Scheduler.Loop.take_at
    batch_scheduler.Task.has_cron batch_scheduler.Resources.is_doable
failed_run_waits_example =
    failed_run_waits run_env text_of [] true "exited" (pos 1) (pos 70) (pos 80) 0 container
      failed_run.0.0 waiting true busy_container finished_again.0 watched_container [] free
      (inr not_zero) refl refl failed_run.1 refl a_is_an_id
      (record { with_action = λ b e. (_, refl, e); with_run = λ b e. (_, refl, e) })
      finished_again.1 (omega arith) refl
