-- ===== src/Samples/Runs.antt =====
-- A scheduler on which a client adds a task, which the loop starts.
use batch_scheduler.Base.{Option, none, some, List, [], ◌∷◌, ◌≡◌, refl, String, All, ◌+◌, arith}
use batch_scheduler.Base.Int.{pos, pos_part, neg_part}
use batch_scheduler.Resources.{new_resources}
use batch_scheduler.Runner.{comes_up}
use batch_scheduler.Store.{MemoryStore, new_memory_store}
use batch_scheduler.Scheduler.System.{
  System, Reach, here, later, adds, wakes, chooses, execs, started_system,
}
use batch_scheduler.Scheduler.Capacity.{Reach-capacity, AddsUp}
use batch_scheduler.Scheduler.{new, add, add_with_id, refusal, wake}
use batch_scheduler.Resources.{check}
use batch_scheduler.Todo.{ping, receive, done}
use batch_scheduler.JsonStore
use batch_scheduler.Store
use batch_scheduler.Task.Codec.{marshal}
use batch_scheduler.Base.Dict
use batch_scheduler.Samples.{env, run, fresh_task}

abbrev start : System
start = started_system (new_resources (pos 4) (pos 8)) (record { kv = [] })

added : (y : System) × Reach env start y
unfolding new new_resources add add_with_id refusal check wake ping JsonStore.put Store.put marshal
added = (_, later here (adds (pos 3) (some "a") fresh_task _ _ refl))

chosen_task : (y : System) × Reach env start y
unfolding added receive new new_resources add add_with_id refusal check wake ping JsonStore.put
    Store.put marshal done batch_scheduler.Scheduler.Loop.ready_to_go
    batch_scheduler.Task.Order.sort_by_karma batch_scheduler.Base.Sort.sort
    batch_scheduler.Scheduler.select JsonStore.for_each Store.for_each Dict.insert JsonStore.visit
    JsonStore.parse_task batch_scheduler.Task.Codec.unmarshal batch_scheduler.Scheduler.collect
    batch_scheduler.Scheduler.Loop.is_ready batch_scheduler.Resources.is_doable
chosen_task = (_, later (later added.1 (wakes refl refl)) (chooses (pos 9) _ _ refl refl))

running : (y : System) × Reach env start y
unfolding chosen_task batch_scheduler.Scheduler.Loop.exec_and_wake
    batch_scheduler.Scheduler.Loop.exec_task batch_scheduler.Runner.up
    batch_scheduler.Task.inject_predefined_env batch_scheduler.Scheduler.Loop.exec_result
    batch_scheduler.Scheduler.Loop.exec_started batch_scheduler.Scheduler.Loop.put
    batch_scheduler.Scheduler.Loop.take_resources
running = (_, later chosen_task.1 (execs (pos 9) (comes_up run) _ refl refl))

running_cpu : running.0.scheduler.resources.cpu ≡ pos 3
unfolding running batch_scheduler.Resources.consume batch_scheduler.Base.Int.int64
    batch_scheduler.Base.Int.◌-ℤ◌
running_cpu = refl

Reach-capacity_example : AddsUp 4 8 running.0.scheduler
Reach-capacity_example =
    Reach-capacity env 4 8 (record { kv = [] }) (omega arith) (omega arith) tt running.1
