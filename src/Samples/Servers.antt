-- ===== src/Samples/Servers.antt =====
-- The command that serves, on a machine where everything works.
use batch_scheduler.Validator.Standard.{standard_validator}
use batch_scheduler.Scheduler.Load.{start}
use batch_scheduler.Base.{
  String, List, [], ◌∷◌, Option, none, some, true, false, ◌≡◌, ◌≢◌, refl, arith,
}
use batch_scheduler.Base.Outcome.{ok}
use batch_scheduler.Base.Dict.{Dict}
use batch_scheduler.Base.Int.{pos}
use batch_scheduler.ActionValidator
use batch_scheduler.ActionValidator.{ActionValidator, compose}
use batch_scheduler.Recompose.Config
use batch_scheduler.Recompose.Config.{Recomposator, new_recomposator}
use batch_scheduler.Runner.{mkdir_fails}
use batch_scheduler.Samples.Apis.{api}
use batch_scheduler.Samples.Reloads.{running_store, probe_running, watched}
use batch_scheduler.Samples.Requests.{joined}
use batch_scheduler.Scheduler.Capacity.{AddsUp}
use batch_scheduler.Scheduler.{Scheduler}
use batch_scheduler.Server.{
  Machine, Makers, Server, Service, Boot, serves, serve_command, boot, booted, trim_slashes, api_of,
  Reach, here, later, launches,
}
use batch_scheduler.Server.Serving.{serve_command-AddsUp}
use text.Mathlib.Text.{◌==◌}

abbrev getenv : String → String
getenv name = elim (name == "AUTH_KEY") [ true ↦ "key" | false ↦ "" ]

abbrev machine : Machine
machine = record {
  getenv = getenv;
  has_bin = true;
  tracks_errors = true;
  makes = λ _. true;
  join = joined;
  open_store = λ _. some running_store;
  connects = true;
}

abbrev makers : Makers String Recomposator
makers = ("compose", λ project cfg. new_recomposator cfg) ∷ []

abbrev registry : ActionValidator.Registry
registry = ("compose", λ cfg. some (compose standard_validator)) ∷ []

trimmed : trim_slashes "/data//" ≡ "/data"
unfolding trim_slashes
trimmed = refl

server : (made : Server Recomposator) × (serve_command machine makers ≡ ok made)
unfolding serve_command batch_scheduler.Server.new_server batch_scheduler.Server.make_all
    Config.register batch_scheduler.Base.Dict.lookup new_recomposator Config.use_config
    batch_scheduler.Recompose.patch_volume_in_volumes
server = (_, refl)

running :
    (s : Scheduler) × (vs : Dict ActionValidator) × (boot api.env
        (pos 9)
        probe_running
        watched
        mkdir_fails
        registry
        []
        server.0
      ≡ serves s vs)
unfolding boot server serve_command batch_scheduler.Server.new_server
    batch_scheduler.Server.make_all Config.register batch_scheduler.Base.Dict.lookup
    new_recomposator Config.use_config batch_scheduler.Recompose.patch_volume_in_volumes
    batch_scheduler.Scheduler.Load.load batch_scheduler.Scheduler.new
    batch_scheduler.Task.Codec.marshal batch_scheduler.Scheduler.Load.load_task
    batch_scheduler.Scheduler.Load.run_status batch_scheduler.Resources.new_resources
    batch_scheduler.Scheduler.Load.load_tasks batch_scheduler.JsonStore.for_each
    batch_scheduler.Store.for_each batch_scheduler.JsonStore.visit
    batch_scheduler.JsonStore.parse_task batch_scheduler.Task.Codec.unmarshal
    batch_scheduler.Scheduler.Load.watch batch_scheduler.Scheduler.Loop.exec_task
    batch_scheduler.Runner.up batch_scheduler.Task.inject_predefined_env
    batch_scheduler.Scheduler.Load.store_loaded batch_scheduler.Scheduler.Load.put_all
    batch_scheduler.Base.Dict.erase batch_scheduler.Base.Dict.insert batch_scheduler.Base.Int.int64
    batch_scheduler.Base.Int.quot batch_scheduler.Base.Int.saturate batch_scheduler.Base.Int.◌*ℤ◌
    batch_scheduler.Base.Int.◌+ℤ◌ batch_scheduler.Base.Int.◌-ℤ◌
    batch_scheduler.Base.Sort.insert_sorted batch_scheduler.Base.Sort.sort
    batch_scheduler.JsonStore.delete batch_scheduler.JsonStore.put batch_scheduler.JsonStore.size
    batch_scheduler.Resources.consume batch_scheduler.Resources.is_doable
    batch_scheduler.Scheduler.Load.compare_status batch_scheduler.Scheduler.Load.delete_all
    batch_scheduler.Scheduler.Load.fresh_status batch_scheduler.Scheduler.Load.sort_out
    batch_scheduler.Scheduler.Loop.exec_and_wake batch_scheduler.Scheduler.Loop.exec_failed
    batch_scheduler.Scheduler.Loop.exec_result batch_scheduler.Scheduler.Loop.exec_started
    batch_scheduler.Scheduler.Loop.is_ready batch_scheduler.Scheduler.Loop.is_waiting
    batch_scheduler.Scheduler.Loop.next batch_scheduler.Scheduler.Loop.one_loop
    batch_scheduler.Scheduler.Loop.put batch_scheduler.Scheduler.Loop.ready_to_go
    batch_scheduler.Scheduler.Loop.sleep batch_scheduler.Scheduler.Loop.take_resources
    batch_scheduler.Scheduler.collect batch_scheduler.Scheduler.select
    batch_scheduler.Scheduler.wake batch_scheduler.Status.Codec.string batch_scheduler.Store.delete
    batch_scheduler.Store.put batch_scheduler.Store.size batch_scheduler.Task.Codec.check_cron
    batch_scheduler.Task.Codec.unmarshal_action batch_scheduler.Task.Codec.unmarshal_run
    batch_scheduler.Task.Order.karma batch_scheduler.Task.Order.sort_by_karma
    batch_scheduler.Task.Order.sort_by_start batch_scheduler.Task.Order.start_key
    batch_scheduler.Task.add_run_to_history batch_scheduler.Task.has_cron
    batch_scheduler.Task.prepare_reschedule batch_scheduler.Todo.done batch_scheduler.Todo.ping
    batch_scheduler.ActionValidator.register batch_scheduler.Server.trim_slashes
running = (_, _, refl)

-- The service once the main loop is launched.
abbrev launched : Service
launched = record (booted running.0) {
  system = record (booted running.0).system { scheduler = record running.0 { started = true } };
  launched = true;
}

reached : Reach (api_of api server.0 running.1) (booted running.0) launched
unfolding running start
reached = later here (launches refl refl)

serve_command-AddsUp_example :
    AddsUp 2 8192 launched.system.scheduler × (server.0.auth_key ≡ "key") × (server.0.auth_key ≢ "")
unfolding server batch_scheduler.Scheduler.new batch_scheduler.Task.Codec.marshal
    batch_scheduler.Scheduler.Accounts.total batch_scheduler.Base.sift
    batch_scheduler.JsonStore.Reading.readable batch_scheduler.JsonStore.parse_task
    batch_scheduler.Task.Codec.unmarshal batch_scheduler.Scheduler.Load.run_status
serve_command-AddsUp_example =
    serve_command-AddsUp machine makers api (pos 9) probe_running watched mkdir_fails registry []
      server.1 ((omega arith, omega arith, omega arith), tt) (omega arith, omega arith) running.2
      reached
