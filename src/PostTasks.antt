-- ===== src/PostTasks.antt =====
-- handlers/api/tasks.go: the request that posts a task.
--
-- What the libraries read from the request is a parameter: the task in a JSON body; the parts of a
-- form, its labels and the nodes of its file; and the verdict of `docker-compose config`.
pub mod Checked
pub mod Created
pub mod Answered
use batch_scheduler.Base.{
  ℕ, String, Bool, true, false, Option, none, some, List, [], ◌∷◌, if◌then◌else◌, ◌&&◌, not, ltb,
  length,
}
use batch_scheduler.Base.Outcome.{Result, ok, err}
use batch_scheduler.Base.Int.{ℤ}
use batch_scheduler.Base.Dict.{Dict}
use batch_scheduler.Base.Sort.{◌>>=◌}
use batch_scheduler.Compose.{Compose, new_compose}
use batch_scheduler.Compose.Yaml.{Node, unmarshal_yaml}
use batch_scheduler.ComposeTask.{DurationParser, task_from_compose}
use batch_scheduler.ActionValidator.{ActionValidator, validate_action}
use batch_scheduler.Claims.{Owner}
use batch_scheduler.Handlers.{has_filter, or_empty}
use batch_scheduler.Labels.{is_label_valid}
use batch_scheduler.Scheduler.{Scheduler, add}
use batch_scheduler.Task.{Task, Action, CronParser}

-- A form. `readable` says whether its parts could be read; `labels` is the first value of that name,
-- where there is one, and inside it the labels, where it is JSON; `file` is the file
-- `docker-compose`, where there is one, and inside it its nodes, where it can be read as YAML;
-- `is_rejected` is the verdict of `docker-compose config`.
pub record Form : Type 0 where
  pub readable : Bool
  pub labels : Option (Option (Dict String))
  pub file : Option (Option (List (String × Node)))
  pub is_rejected : Compose → Bool

pub data Posted : Type 0 where
  json : Option Task → Posted
  form : Form → Posted

pub record Libraries : Type 0 where
  pub parse_duration : DurationParser
  pub parser : CronParser
  pub as_action : Compose → Action
  pub as_compose : Action → Option Compose

abbrev pub Answer : Type 0
Answer = ℕ × Option Task

-- The labels of a form, where there are any, replace those of its task.
abbrev pub with_labels : Dict String → Task → Task
with_labels [] t = t
with_labels (label ∷ labels) t = record t { labels = label ∷ labels }

-- Every label's key and value are valid: the loop collects no error.
unfoldable pub labels_valid : Dict String → Bool
labels_valid [] = true
labels_valid ((key, value) ∷ labels) =
    let rest = labels_valid labels in
    if is_label_valid key then (if is_label_valid value then rest else false) else false

module _ (libs : Libraries) where
  -- The task of a file; `err` is the status that is set.
  unfoldable pub read_file : ℤ → Form → List (String × Node) → Dict String → Result ℕ Task
  read_file now f nodes labels = elim (unmarshal_yaml nodes new_compose) [
    | err _ ↦ err 500
    | ok c ↦
        if f.is_rejected c
        then err 500
        else elim (task_from_compose libs.parse_duration libs.parser libs.as_action now c) [
          | err _ ↦ err 500
          | ok t ↦ ok (with_labels labels t)
        ]
  ]

  abbrev pub read_part :
      ℤ → Form → Option (Option (List (String × Node))) → Dict String → Result ℕ Task
  read_part now f none labels = err 400
  read_part now f (some none) labels = err 500
  read_part now f (some (some nodes)) labels = read_file now f nodes labels

  abbrev pub read_labels : ℤ → Form → Option (Option (Dict String)) → Result ℕ Task
  read_labels now f none = read_part now f f.file []
  read_labels now f (some none) = err 400
  read_labels now f (some (some labels)) = read_part now f f.file labels

  -- The `switch` on the type of the content.
  unfoldable pub read_task : ℤ → Posted → Result ℕ Task
  read_task now (json none) = err 400
  read_task now (json (some t)) = ok t
  read_task now (form f) = if not f.readable then err 400 else read_labels now f f.labels

  abbrev pub no_errors : {A : Type 0} → List A → Bool
  no_errors [] = true
  no_errors (_ ∷ _) = false

  -- The owner of the task.
  abbrev pub owner_of : Owner → Option String → String
  owner_of u o = if u.admin && has_filter o then or_empty o else u.name

  -- The reply to the answer of `Add`.
  abbrev pub reply_added :
      Scheduler × Task × Result batch_scheduler.Scheduler.Error String → Scheduler × Answer
  reply_added (s, t, err _) = (s, (500, none))
  reply_added (s, t, ok _) = (s, (201, some t))

  -- The tests on a task that was read, and `Add`. `none` is a panic: of a task with no action, or
  -- of `Add`.
  abbrev pub accept_task :
      Dict ActionValidator
      → Owner
      → Option String
      → ℤ
      → Option String
      → Task
      → Scheduler
      → Option (Scheduler × Answer)
  accept_task validators u o now random t s =
      if not (labels_valid t.labels) then some (s, (400, none)) else elim t.action [
        | none ↦ none
        | some a ↦
            if not (no_errors (validate_action libs.as_compose validators a))
            then some (s, (400, none))
            else if not u.admin && has_filter o
            then some (s, (401, none))
            else do
              added ← add now random (record t { owner = owner_of u o }) s
              some (reply_added added)
      ]

  abbrev pub accept :
      Dict ActionValidator
      → Owner
      → Option String
      → ℤ
      → Option String
      → Result ℕ Task
      → Scheduler
      → Option (Scheduler × Answer)
  accept validators u o now random (err code) s = some (s, (code, none))
  accept validators u o now random (ok t) s = accept_task validators u o now random t s

  -- `HandlePostTasks`: the scheduler, the status, and the task of the reply.
  unfoldable pub post_tasks :
      Dict ActionValidator
      → Owner
      → Option String
      → ℤ
      → Option String
      → Posted
      → Scheduler
      → Option (Scheduler × Answer)
  post_tasks validators u o now random posted s =
      accept validators u o now random (read_task now posted) s
