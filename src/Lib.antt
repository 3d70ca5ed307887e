-- ===== src/Lib.antt =====
-- Verification of the batch scheduler: a service that takes tasks over HTTP, keeps them in a store
-- and runs each when its time has come and there is room for it.
--
-- The parts. A client's request passes the authentication (middlewares/auth.go, with owner/owner.go
-- and path/path.go) and reaches a handler (handlers/api), which calls the scheduler
-- (scheduler/scheduler.go). The scheduler keeps its tasks (task/task.go) as JSON documents
-- (scheduler/store.go) in a key-value store (store/memory.go), and counts the CPU and the RAM that
-- runs hold (scheduler/resources.go). Its main loop sleeps until the wake-up flag (todo/todo.go) is
-- raised, chooses a task, and has the runner (runner/runner.go) start it; a goroutine waits for the
-- end of each run, stores the task, raises the flag and gives the resources back. The command serve
-- (cmd/serve.go, server/server.go) makes the parts, loads the store, and lets the API be called.
--
-- The files.
--   Base        shared helpers: Boolean tests, lists, Go's int as an integer with its wrap-around
--               written out (int64), results, dictionaries, and sorting by a key.
--   Status      task/status: the enum; Status/Codec its JSON form.
--   Todo        todo/todo.go; Todo/Wakeups has the flag under any number of callers.
--   Store       store/memory.go over values of any type; Store/Laws.
--   Task        task/task.go and task/run/run.go; Task/Order is TaskByStart and TaskByKarma,
--               Task/Codec is MarshalJSON and UnmarshalJSON, Task/Duration the form of durations,
--               Task/Registered the registries of actions and runs.
--   Runner      runner/runner.go: Up; Deploy is Up of a compose task, down to the files of the run.
--   Resources   scheduler/resources.go.
--   JsonStore   scheduler/store.go; JsonStore/Reading and JsonStore/Laws have its lemmas.
--   Scheduler   scheduler/scheduler.go: the state and the client operations; Scheduler/Loop is
--               oneLoop, readyToGo, next and execTask with the goroutines and timers they start;
--               Scheduler/Load is Load and Start; Scheduler/System puts all of them together as
--               steps in any order, Scheduler/Restart continues from a loaded scheduler, and
--               Scheduler/Locked is Load over a store that locks. The
--               other children have the lemmas and the theorems.
--   Claims, Auth, Handlers  owner/owner.go and path/path.go, middlewares/auth.go, handlers/api.
--   Api         handlers/api/api.go: the routes, with the middleware and the handlers behind them.
--   Server      server/server.go and cmd/serve.go: the command that serves, up to the running service.
--   Dummy       task/dummy.go: the action that only waits, as steps in any order.
--   Network     network/network.go: the search for a free network.
--   ProjectNetworks  compose/network.go: the network of a project, over any docker daemon.
--   Compose     compose/compose.go: the file, the walk over its services and the cache volume;
--               Compose/Yaml is UnmarshalYAML and MarshalYAML, Compose/Up is Up, and Compose/Check
--               is Validate with compose/bin.go.
--   Recompose   compose/recompose.go: the patches of volumes and labels; Recompose/Config makes them
--               from a configuration, with task/recompose.go and task/compose/recompose.go.
--   ServiceGraph  compose/graph.go: the graph of dependencies, the depths and the leader.
--   DockerRun   compose/run.go: a run in a container.
--   ComposeTask  input/compose/compose.go: the task that a compose file asks for.
--   Labels      task/task.go: IsLabelValid.
--   ActionValidator  task/validator.go and task/compose/compose.go.
--   PostTasks   handlers/api/tasks.go: HandlePostTasks, from the form to the scheduler;
--               PostTasks/Checked joins it with Compose/Check.
--   GetVolumes  handlers/api/tasks.go: HandleGetVolumes.
--   Validator   compose/validator.go: what a compose file may ask for; Validator/Config is
--               NewComposeValidtor, Validator/Sources what the validators of sources let through,
--               and Validator/Standard init with the registry of validators.
--   BoltStore   store/bbolt.go over a bucket of the database; BoltStore/Refines compares it with
--               the memory store.
--   Pubsub      pubsub/pubsub.go: subscribers and publishers as steps in any order.
--   Samples     sample data; its children have the examples and tests.
--
-- How the code is seen. A pointer to a task that is read from the store is a value, since each read
-- decodes a fresh one; a goroutine's own copy of a task is part of the scheduler's state, and so are
-- cancelled contexts that have not given back their resources, armed timers and published events.
-- The methods of the flag and the critical sections of the resources hold their lock throughout and
-- are one step each; the start of a chosen task is a step of its own, so that other steps come
-- between the choice and the start. An operation reads the clock once, as an argument. A panic or a
-- call that blocks for ever is `none`. Every loop of the code runs over a list and is structural
-- recursion, but for the depth of a service, which follows the graph: it takes fuel, and fuel above
-- every rank of a graph without a cycle is enough. A map that the code ranges over is a list in the
-- order of the visit, so that a theorem for all lists holds for every order. Times and durations are
-- integers of nanoseconds; differences of times saturate as in the library; `int` has 64 bits.
--
-- Two ranges over one map may visit it in different orders. Where the code ranges twice, or over a
-- configuration, the second order is an argument, or the list is any that is the same map.
--
-- The scheduler runs on a store of tasks whose calls do not fail for reasons of its own. That is the
-- memory store, and it is what the database holds as long as no transaction on it fails, which
-- Server takes for granted; BoltStore has the failures. The two differ in one thing that the
-- scheduler sees: a range over the memory store locks it, so that Load takes this as an argument.
--
-- Not modelled: the encoding of JSON and YAML as text (a document is the record that it encodes; the
-- files of a run are the bytes that an encoder gives), the bolt database itself and the deletion
-- under its cursor, and the shutdown of the server. The router, the cron library, the
-- formatting of times, the registries of actions and runs, the outcome of a run's start, what the
-- docker daemon and docker-compose answer, the parsers of durations and of addresses, and the token
-- package are parameters.
pub mod Api
pub mod Server
pub mod Deploy
pub mod Dummy
pub mod GetVolumes
pub mod BoltStore
pub mod Pubsub
pub mod PostTasks
pub mod ActionValidator
pub mod ComposeTask
pub mod Labels
pub mod ProjectNetworks
pub mod ServiceGraph
pub mod Base
pub mod Status
pub mod Todo
pub mod Store
pub mod Task
pub mod Runner
pub mod Resources
pub mod JsonStore
pub mod Scheduler
pub mod Claims
pub mod Network
pub mod Compose
pub mod Validator
pub mod Recompose
pub mod Auth
pub mod Handlers
pub mod DockerRun
pub mod Samples
