-- ===== src/Samples.antt =====
-- A small scheduler, its tasks and its surroundings, for the tests and examples.
pub mod Apis
pub mod Dummies
pub mod Servers
pub mod Examples
pub mod Runs
pub mod Requests
pub mod Networks
pub mod Reloads
pub mod Checks
pub mod Composes
pub mod Deploys
pub mod Graphs
pub mod Posts
pub mod Starts
pub mod Stores
use batch_scheduler.Base.{Option, none, some, List, [], ◌∷◌, String, Bool, true, false}
use batch_scheduler.Base.Int.{pos}
use batch_scheduler.Base.Dict.{Dict}
use batch_scheduler.Status.{waiting, running}
use batch_scheduler.Task.{Task, Action, Run, RunData, Formats, zero_task}
use batch_scheduler.Task.Codec.{Registry, marshal}
use batch_scheduler.Store.{MemoryStore}
use batch_scheduler.JsonStore.{Doc, task}
use batch_scheduler.Resources.{Resources}
use batch_scheduler.Todo.{fresh}
use batch_scheduler.Scheduler.{Env, Scheduler, Watcher}
use batch_scheduler.Claims.{Owner, Value, text}

abbrev pub act : Action
act = record { registered_name = "dummy"; content = "{}" }

abbrev pub run_data : RunData
run_data = record {
  start = pos 1;
  finish = pos 2;
  id = pos 0;
  exit_code = pos 0;
  runner = "dummy";
  is_running = false;
}

abbrev pub run : Run
run = record { registered_name = "dummy"; content = "{}"; run_data = run_data }

abbrev pub registry : Registry
registry = record {
  actions = λ _. some (λ _. some act);
  runs = λ _. some (λ _. some run);
  cron = λ _. none;
}

abbrev pub formats : Formats
formats = record { date = λ _. "today"; time = λ _. "now"; duration = λ _. "1m" }

abbrev pub env : Env
env = record { registry = registry; formats = formats; down = λ r. r }

-- A task as a client sends it.
abbrev pub fresh_task : Task
fresh_task = record zero_task {
  cpu = pos 1;
  ram = pos 2;
  max_exection_time = pos 60;
  owner = "bob";
  action = some act;
  run = some run;
}

-- The task once it is stored.
abbrev pub stored_task : Task
stored_task = record fresh_task { id = "a"; start = pos 5; mtime = pos 7 }

abbrev pub store : MemoryStore Doc
store = record { kv = ("a", task (marshal stored_task)) ∷ [] }

abbrev pub free : Resources
free = record { total_ram = pos 8; ram = pos 8; total_cpu = pos 4; cpu = pos 4; processes = pos 0 }

-- A started scheduler with one waiting task.
abbrev pub scheduler : Scheduler
scheduler = record {
  resources = free;
  tasks = store;
  todo = fresh;
  started = true;
  watchers = [];
  releasing = [];
  timers = [];
  published = [];
}

-- The same with no task.
abbrev pub empty : Scheduler
empty = record scheduler { tasks = record { kv = [] } }

abbrev pub watcher : Watcher
watcher = record {
  task = record stored_task { status = running };
  run = run;
  claim = record { cpu = pos 1; ram = pos 2 };
}

-- One task runs.
abbrev pub busy : Scheduler
busy = record scheduler { watchers = watcher ∷ [] }

abbrev pub bob : Owner
bob = record { name = "bob"; admin = false }

abbrev pub nobody : Owner
nobody = record { name = ""; admin = false }

abbrev pub claims : Dict Value
claims = ("owner", text "bob") ∷ []
