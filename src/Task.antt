-- ===== src/Task.antt =====
-- task/task.go, with the run data of task/run/run.go: what the scheduler schedules.
--
-- A time is the number of nanoseconds since Go's zero time, a duration a number of nanoseconds.
-- The value behind the interface `Action` is seen through its registered name and its JSON text,
-- that behind `Run` also through its `Data()`. The closure in the field `cancel` is named by what
-- it does. A nil map and an empty one are not told apart, since the program does not tell either.
-- The unexported field `resourceCancel` is never used and is left out.
pub mod Duration
pub mod Registered
pub mod Codec
pub mod Order
use batch_scheduler.Base.{
  ℕ, Bool, true, false, Option, none, some, List, [], ◌∷◌, String, if◌then◌else◌, ◌≡◌, ◌||◌, ◌++◌,
}
use batch_scheduler.Base.Dict.{Dict}
use batch_scheduler.Base.Dict
use batch_scheduler.Base.Int.{ℤ, pos, negsuc, ltb_ℤ, ◌+ℤ◌, int64}
use batch_scheduler.Status.{Status}
use batch_scheduler.Status
use text.Mathlib.Text.{◌==◌}

-- `run.Data`
pub record RunData : Type 0 where
  pub start : ℤ
  pub finish : ℤ
  pub id : ℤ
  pub exit_code : ℤ
  pub runner : String
  pub is_running : Bool

pub record Run : Type 0 where
  pub registered_name : String
  pub content : String
  pub run_data : RunData

pub record Action : Type 0 where
  pub registered_name : String
  pub content : String

-- The two closures that the scheduler stores in `Cancel`.
pub data CancelFunc : Type 0 where
  mark_canceled down_and_mark_canceled : CancelFunc

pub record Task : Type 0 where
  pub start : ℤ
  pub max_wait_time : ℤ
  pub max_exection_time : ℤ
  pub cpu : ℤ
  pub ram : ℤ
  pub action : Option Action
  pub id : String
  pub cancel : Option CancelFunc
  pub status : Status
  pub mtime : ℤ
  pub owner : String
  pub retry : ℤ
  pub every : ℤ
  pub cron : String
  pub environments : Dict String
  pub run : Option Run
  pub run_counter : ℤ
  pub runs : List RunData
  pub labels : Dict String

-- `uuid.Nil`; an id is its canonical text.
abbrev pub uuid_nil : String
uuid_nil = "00000000-0000-0000-0000-000000000000"

-- `var t Task`
abbrev pub zero_task : Task
zero_task = record {
  start = pos 0;
  max_wait_time = pos 0;
  max_exection_time = pos 0;
  cpu = pos 0;
  ram = pos 0;
  action = none;
  id = uuid_nil;
  cancel = none;
  status = Status.waiting;
  mtime = pos 0;
  owner = "";
  retry = pos 0;
  every = pos 0;
  cron = "";
  environments = [];
  run = none;
  run_counter = pos 0;
  runs = [];
  labels = [];
}

-- `New`
unfoldable pub new : ℤ → Task
new now = record zero_task { cpu = pos 1; ram = pos 1; status = Status.waiting; mtime = now }

-- `NewTask`
unfoldable pub new_task : ℤ → String → Action → Task
unfolding new
new_task now o a = let t = new now in record t { owner = o; action = some a }

-- `HasCron`
unfoldable pub has_cron : Task → Bool
has_cron t = if ltb_ℤ (pos 0) t.every then true else if t.cron == "" then false else true

-- The cron library, which is not part of this program: a cron text that `Parse` accepts gives the
-- function from a time to the next time of the schedule.
abbrev pub CronParser : Type 0
CronParser = String → Option (ℤ → ℤ)

-- The first half of `PrepareReschedule`: a period.
abbrev reschedule_every : ℤ → Task → Task
reschedule_every now t = if ltb_ℤ (pos 0) t.every then record t { start = now +ℤ t.every } else t

-- The second half: a cron text, which wins where both are set.
abbrev reschedule_cron : CronParser → ℤ → Task → Task
reschedule_cron parser now t = if t.cron == "" then t else (elim (parser t.cron) [
  | some next ↦ record t { start = next now }
  | none ↦ record t { status = Status.error }
])

-- `PrepareReschedule`
unfoldable pub prepare_reschedule : CronParser → ℤ → Task → Task
prepare_reschedule parser now t = reschedule_cron parser now (reschedule_every now t)

-- The texts that `InjectPredefinedEnv` asks of the time and formatting libraries.
pub record Formats : Type 0 where
  pub date : ℤ → String
  pub time : ℤ → String
  pub duration : ℤ → String

-- `InjectPredefinedEnv`; `none` is the panic on a task with no action.
unfoldable pub inject_predefined_env : Formats → ℤ → Task → Option Task
inject_predefined_env formats now t = elim t.action [
  | none ↦ none
  | some a ↦
      let e0 = Dict.insert "DENSITY_STARTED_AT_DATE" (formats.date now) t.environments in
      let e1 = Dict.insert "DENSITY_STARTED_AT_TIME" (formats.time now) e0 in
      let e2 = Dict.insert "DENSITY_TASK_ID" t.id e1 in
      let e3 = Dict.insert "DENSITY" "true" e2 in
      let e4 = Dict.insert "XDG_CACHE_HOME" "/density/cache" e3 in
      let e5 = Dict.insert "DENSITY_RUNNER" a.registered_name e4 in
      let e6 = Dict.insert "DENSITY_MAX_EXECUTION_TIME" (formats.duration t.max_exection_time) e5 in
      some (record t { environments = e6 })
]

-- `AddRunToHistory`
unfoldable pub add_run_to_history : Option Run → Task → Task
add_run_to_history none t = t
add_run_to_history (some r) t = record t { runs = r.run_data ∷ t.runs }

-- `Resp`: what of a task goes to a client.
pub record Resp : Type 0 where
  pub start : ℤ
  pub max_wait_time : ℤ
  pub max_exection_time : ℤ
  pub cpu : ℤ
  pub ram : ℤ
  pub id : String
  pub status : Status
  pub mtime : ℤ
  pub owner : String
  pub retry : ℤ
  pub every : ℤ
  pub cron : String
  pub environments : Dict String
  pub run : RunData
  pub run_counter : ℤ
  pub runs : List RunData
  pub labels : Dict String

-- `ToTaskResp`; `none` is the panic of `t.Run.Data()` on a task that has no run.
unfoldable pub to_task_resp : Task → Option Resp
to_task_resp t = elim t.run [
  | none ↦ none
  | some r ↦ some (record {
    start = t.start;
    max_wait_time = t.max_wait_time;
    max_exection_time = t.max_exection_time;
    cpu = t.cpu;
    ram = t.ram;
    id = t.id;
    status = t.status;
    mtime = t.mtime;
    owner = t.owner;
    retry = t.retry;
    every = t.every;
    cron = t.cron;
    environments = t.environments;
    run = r.run_data;
    run_counter = t.run_counter;
    runs = t.runs;
    labels = t.labels;
  })
]
