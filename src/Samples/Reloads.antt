-- ===== src/Samples/Reloads.antt =====
-- Schedulers that load the store of an earlier one.
use batch_scheduler.Base.Outcome.{ok}
use batch_scheduler.Scheduler.System.{here}
use batch_scheduler.Scheduler.Capacity.{AddsUp}
use batch_scheduler.Scheduler.Restart.{Reach-capacity_loaded}
use batch_scheduler.Scheduler.Load.{running as alive}
use batch_scheduler.Resources.{new_resources}
use batch_scheduler.Scheduler.{new, Scheduler}
use batch_scheduler.Task.Codec.{marshal}
use batch_scheduler.JsonStore.{Doc, task, parse_task}
use batch_scheduler.Store.{MemoryStore}
use batch_scheduler.Base.{none, some, [], ◌∷◌, ◌≡◌, ◌≢◌, refl, Option, true, arith, false}
use batch_scheduler.Base.Int.{pos}
use batch_scheduler.Status.{waiting, done}
use batch_scheduler.Task.{Task}
use batch_scheduler.Samples.{env, stored_task, running, run, run_data, free}
use batch_scheduler.Scheduler.Load.{
  Loading, Probe, load_task, paused, run_status, Stop, load, start,
}
use batch_scheduler.Runner.{Outcome, mkdir_fails, comes_up}

-- The store of an earlier scheduler, whose task runs.
abbrev pub running_store : MemoryStore Doc
running_store = record { kv = ("a", task (marshal (record stored_task { status = running }))) ∷ [] }

abbrev pub probe_running : Probe
probe_running r = some (alive, pos 0)

abbrev pub watched : Task → Outcome
watched t = comes_up run

abbrev pub fresh_scheduler : Scheduler
fresh_scheduler = new (new_resources (pos 4) (pos 8)) running_store

-- The task once the goroutine that watches it has been started.
abbrev watched_task : Task
watched_task = record stored_task {
  start = pos 9;
  mtime = pos 9;
  status = running;
  environments =
      ("DENSITY_STARTED_AT_DATE", "today")
      ∷ ("DENSITY_STARTED_AT_TIME", "now")
      ∷ ("DENSITY_TASK_ID", "a")
      ∷ ("DENSITY", "true")
      ∷ ("XDG_CACHE_HOME", "/density/cache")
      ∷ ("DENSITY_RUNNER", "dummy")
      ∷ ("DENSITY_MAX_EXECUTION_TIME", "1m")
      ∷ [];
  run_counter = pos 1;
  runs = run_data ∷ [];
}

abbrev loaded : Scheduler
loaded = record fresh_scheduler {
  resources = record free { cpu = pos 3; ram = pos 6; processes = pos 1 };
  tasks = record { kv = ("a", task (marshal watched_task)) ∷ [] };
  watchers =
      record { task = watched_task; run = run; claim = record { cpu = pos 1; ram = pos 2 } } ∷ [];
  published = record { action = "Running"; id = "a" } ∷ [];
}

abbrev restarted : Scheduler
restarted = record loaded { started = true }

-- On the database, whose ranges do not lock.
load_watches :
    load env (pos 9) probe_running watched false mkdir_fails fresh_scheduler ≡ some (loaded, none)
unfolding load new marshal load_task run_status new_resources
    batch_scheduler.Scheduler.Load.load_tasks batch_scheduler.JsonStore.for_each
    batch_scheduler.Store.for_each batch_scheduler.JsonStore.visit
    batch_scheduler.JsonStore.parse_task batch_scheduler.Task.Codec.unmarshal
    batch_scheduler.Scheduler.Load.watch batch_scheduler.Scheduler.Loop.exec_task
    batch_scheduler.Runner.up batch_scheduler.Task.inject_predefined_env
    batch_scheduler.Scheduler.Load.store_loaded batch_scheduler.Scheduler.Load.put_all
    batch_scheduler.Base.Dict.erase batch_scheduler.Base.Dict.insert batch_scheduler.Base.Int.int64
    batch_scheduler.Base.Int.quot batch_scheduler.Base.Int.saturate batch_scheduler.Base.Int.◌*ℤ◌
    batch_scheduler.Base.Int.◌+ℤ◌ batch_scheduler.Base.Int.◌-ℤ◌
    batch_scheduler.Base.Sort.insert_sorted batch_scheduler.Base.Sort.sort
    batch_scheduler.JsonStore.delete batch_scheduler.JsonStore.put batch_scheduler.JsonStore.size
    batch_scheduler.Resources.consume batch_scheduler.Resources.is_doable
    batch_scheduler.Scheduler.Load.compare_status batch_scheduler.Scheduler.Load.delete_all
    batch_scheduler.Scheduler.Load.fresh_status batch_scheduler.Scheduler.Load.sort_out
    batch_scheduler.Scheduler.Loop.exec_and_wake batch_scheduler.Scheduler.Loop.exec_failed
    batch_scheduler.Scheduler.Loop.exec_result batch_scheduler.Scheduler.Loop.exec_started
    batch_scheduler.Scheduler.Loop.is_ready batch_scheduler.Scheduler.Loop.is_waiting
    batch_scheduler.Scheduler.Loop.next batch_scheduler.Scheduler.Loop.one_loop
    batch_scheduler.Scheduler.Loop.put batch_scheduler.Scheduler.Loop.ready_to_go
    batch_scheduler.Scheduler.Loop.sleep batch_scheduler.Scheduler.Loop.take_resources
    batch_scheduler.Scheduler.collect batch_scheduler.Scheduler.select
    batch_scheduler.Scheduler.wake batch_scheduler.Status.Codec.string batch_scheduler.Store.delete
    batch_scheduler.Store.put batch_scheduler.Store.size batch_scheduler.Task.Codec.check_cron
    batch_scheduler.Task.Codec.unmarshal_action batch_scheduler.Task.Codec.unmarshal_run
    batch_scheduler.Task.Order.karma batch_scheduler.Task.Order.sort_by_karma
    batch_scheduler.Task.Order.sort_by_start batch_scheduler.Task.Order.start_key
    batch_scheduler.Task.add_run_to_history batch_scheduler.Task.has_cron
    batch_scheduler.Task.prepare_reschedule batch_scheduler.Todo.done batch_scheduler.Todo.ping
load_watches = refl

start_restarted : start loaded ≡ some restarted
unfolding start new
start_restarted = refl

Reach-capacity_loaded_example : AddsUp 4 8 restarted
unfolding marshal batch_scheduler.Scheduler.Accounts.total batch_scheduler.Base.sift
    batch_scheduler.JsonStore.Reading.readable batch_scheduler.JsonStore.parse_task
    batch_scheduler.Task.Codec.unmarshal run_status
Reach-capacity_loaded_example =
    Reach-capacity_loaded env (pos 9) probe_running watched false mkdir_fails 4 8 running_store
      (omega arith) (omega arith) ((omega arith, omega arith, omega arith), tt) (omega arith)
      (omega arith) load_watches start_restarted here

-- The task of the store, as it is read.
heard :
    (t : Task) × (status : _) × (exit : _) × (parse_task env.registry
        (task (marshal (record stored_task { status = running })))
      ≡ ok t)
    × (run_status probe_running t ≡ some (status, exit))
    × (status ≡ alive)
unfolding parse_task marshal run_status batch_scheduler.Task.Codec.unmarshal
    batch_scheduler.Task.Codec.unmarshal_action batch_scheduler.Task.Codec.unmarshal_run
    batch_scheduler.Task.Codec.check_cron
heard = (_, _, _, refl, refl, refl)
