-- ===== src/Server.antt =====
-- server/server.go and cmd/serve.go: the command that serves, from its environment to the running
-- service.
--
-- The operating system, the database, docker and the registries are parameters. The database is seen
-- as the tasks that it holds, under the assumption that none of its transactions fails; BoltStore has
-- the calls with their failures, and BoltStore/Refines shows that they then act on what it holds as
-- the memory store does. The service runs as steps in any order: requests, the
-- goroutines that delete, and the steps of the scheduler.
pub mod Serving
use Prim.Native.Char.{code}
use batch_scheduler.Base.{
  ℕ, String, Bool, true, false, Option, none, some, List, [], ◌∷◌, ◌++◌, if◌then◌else◌, not, ◌≡◌,
  ◌&&◌, ◌*◌, ◌==◌,
}
use batch_scheduler.Base.Outcome.{Result, ok, err}
use batch_scheduler.Base.Dict.{Dict}
use batch_scheduler.Base.Int.{ℤ, pos}
use batch_scheduler.ActionValidator.{ActionValidator}
use batch_scheduler.ActionValidator
use batch_scheduler.Api.{Api, HttpRequest, Response, serve}
use batch_scheduler.Compose.{Setting, words}
use batch_scheduler.JsonStore.{Doc}
use batch_scheduler.Recompose.Config
use batch_scheduler.Resources.{new_resources}
use batch_scheduler.Runner.{Outcome}
use batch_scheduler.Scheduler.{Scheduler, Env, new, delete}
use batch_scheduler.Scheduler as S
use batch_scheduler.Scheduler.Load.{Probe, Stop, load, start}
use batch_scheduler.Scheduler.Loop.{take_at}
use batch_scheduler.Scheduler.System.{System, idle}
use batch_scheduler.Scheduler.System
use batch_scheduler.Store.{MemoryStore}
use batch_scheduler.Task.{Task}
use text.Mathlib.Text

-- What the command finds: the environment, the program docker-compose, the error tracker, the
-- directories that can be made, the joining of path elements, what the database at a path holds, and
-- docker.
pub record Machine : Type 0 where
  pub getenv : String → String
  pub has_bin : Bool
  pub tracks_errors : Bool
  pub makes : String → Bool
  pub join : List String → String
  pub open_store : String → Option (MemoryStore Doc)
  pub connects : Bool

-- Why there is no server.
pub data Fault (E : Type 0) : Type 0 where
  no_bin no_error_tracker no_auth_key : Fault E
  no_directory : String → Fault E
  no_store no_docker : Fault E
  no_recomposator : E → Fault E

-- `Server`, with the home of its runner and its recomposators.
pub record Server (R : Type 0) : Type 0 where
  pub scheduler : Scheduler
  pub auth_key : String
  pub addr : String
  pub home : String
  pub recomposators : Dict R

-- `strings.TrimRight(s, "/")`
unfoldable pub trim_slashes : String → String
trim_slashes String.[] = ""
trim_slashes (String.◌∷◌ c s) =
    let rest = trim_slashes s in
    if Text.◌==◌ rest "" && code c == b'/' then "" else String.◌∷◌ c rest

-- An environment variable, or a default where it is empty.
abbrev pub or_default : String → String → String
or_default default value = if Text.◌==◌ value "" then default else value

-- The functions that make a recomposator, by the kind of action.
abbrev pub Makers : Type 0 → Type 0 → Type 0
Makers E R = Dict (String → Dict Setting → Result (Config.Error E) R)

-- The recomposators that `New` configures.
abbrev pub recomposator_config : Dict (Dict Setting)
recomposator_config = ("compose", ("VolumeInVolumes", words "./volumes") ∷ []) ∷ []

module _ {E R : Type 0} (m : Machine) (makers : Makers E R) where
  -- The loop of `New` that makes the directories.
  unfoldable pub make_all : String → List String → Option String
  make_all data_dir [] = none
  make_all data_dir (sub ∷ subs) =
      let rest = make_all data_dir subs in
      let path = m.join (data_dir ∷ sub ∷ []) in if m.makes path then rest else some path

  -- `New` behind the registration of the recomposators.
  abbrev pub assemble :
      String
      → String
      → String
      → ℤ
      → ℤ
      → MemoryStore Doc
      → Result (Config.Error E) (Dict R)
      → Result (Fault (Config.Error E)) (Server R)
  assemble addr data_dir auth_key cpu ram store (err e) = err (no_recomposator e)
  assemble addr data_dir auth_key cpu ram store (ok mine) = ok (record {
    scheduler = new (new_resources cpu ram) store;
    auth_key = auth_key;
    addr = addr;
    home = m.join (data_dir ∷ "wd" ∷ []);
    recomposators = mine;
  })

  -- `New` behind the directories.
  abbrev pub connect :
      String
      → String
      → String
      → ℤ
      → ℤ
      → Option (MemoryStore Doc)
      → Result (Fault (Config.Error E)) (Server R)
  connect addr data_dir auth_key cpu ram none = err no_store
  connect addr data_dir auth_key cpu ram (some store) =
      if not m.connects
      then err no_docker
      else assemble addr data_dir auth_key cpu ram store
          (Config.register makers "bob" recomposator_config [])

  -- `New` with the trimmed directory.
  abbrev pub new_in :
      String → String → String → ℤ → ℤ → Option String → Result (Fault (Config.Error E)) (Server R)
  new_in addr data_dir auth_key cpu ram (some path) = err (no_directory path)
  new_in addr data_dir auth_key cpu ram none =
      connect addr data_dir auth_key cpu ram
        (m.open_store (m.join (data_dir ∷ "store" ∷ "batch.store" ∷ [])))

  -- `New`
  unfoldable pub new_server :
      String → String → String → ℤ → ℤ → Result (Fault (Config.Error E)) (Server R)
  new_server addr data_dir auth_key cpu ram =
      let trimmed = trim_slashes data_dir in
      new_in addr trimmed auth_key cpu ram (make_all trimmed ("validator" ∷ "wd" ∷ "store" ∷ []))

  -- The command `serve` up to the server.
  unfoldable pub serve_command : Result (Fault (Config.Error E)) (Server R)
  serve_command =
      if not m.has_bin
      then err no_bin
      else if not (Text.◌==◌ (m.getenv "SENTRY_DSN") "") && not m.tracks_errors
      then err no_error_tracker
      else if Text.◌==◌ (m.getenv "AUTH_KEY") ""
      then err no_auth_key
      else new_server (or_default "localhost:8042" (m.getenv "LISTEN"))
          (or_default "/tmp/density" (m.getenv "DATA_DIR")) (m.getenv "AUTH_KEY") (pos 2)
          (pos (8 * 1024))

-- How the start of `Run` ends.
pub data Boot : Type 0 where
  fatal : Stop → Boot
  panics : Boot
  serves : Scheduler → Dict ActionValidator → Boot

-- `Run` behind `Load`: the validators are registered, and requests are taken.
abbrev pub listen : Option (Dict ActionValidator) → Option (Scheduler × Option Stop) → Boot
listen validators none = panics
listen validators (some (s, some stop)) = fatal stop
listen none (some (s, none)) = panics
listen (some validators) (some (s, none)) = serves s validators

-- `Run` up to the requests. A range over the database reads a snapshot, so that `Load` may store
-- tasks meanwhile. `standard` is the standard configuration of the compose validator.
unfoldable pub boot :
    {R : Type 0}
    → Env
    → ℤ
    → Probe
    → (Task → Outcome)
    → Outcome
    → ActionValidator.Registry
    → Dict Setting
    → Server R
    → Boot
boot env now probe outcome first registry standard server =
    listen (ActionValidator.register registry (("compose", standard) ∷ []) [])
      (load env now probe outcome false first server.scheduler)

-- The API that `Run` registers for its scheduler, with the validators and the server's key and home.
abbrev pub api_of : {R : Type 0} → Api → Server R → Dict ActionValidator → Api
api_of outside server validators = record outside {
  validators = validators;
  key = server.auth_key;
  data_dir = server.home;
}

-- The running service: the scheduler, whether the goroutine of `Start` has run, and the ids that the
-- goroutines of requests will delete.
pub record Service : Type 0 where
  pub system : System
  pub launched : Bool
  pub pending : List String

-- The service once it takes requests.
abbrev pub booted : Scheduler → Service
booted s = record {
  system = record { scheduler = s; place = idle };
  launched = false;
  pending = [];
}

-- The steps of the scheduler that requests do not make: those of the main loop once it is launched,
-- and those of goroutines and timers.
abbrev pub MayRun : {env : Env} {x y : System} → Bool → System.Step env x y → Type 0
MayRun launched (System.adds now random t t' answer e) = ⊥
MayRun launched (System.cancels now id) = ⊥
MayRun launched (System.deletes id) = ⊥
MayRun launched (System.flushes now age n e) = ⊥
MayRun launched (System.wakes p e) = launched ≡ true
MayRun launched (System.chooses now t ts p e) = launched ≡ true
MayRun launched (System.rests now p e f) = launched ≡ true
MayRun launched (System.execs now outcome t p e) = launched ≡ true
MayRun launched (System.stops p) = launched ≡ true
MayRun launched (System.finishes now i status ended e) = Unit
MayRun launched (System.gives_back i e) = Unit
MayRun launched (System.rings i e) = Unit

module _ (api : Api) where
  -- A step of the service.
  pub data Step (x : Service) : Service → Type 0 where
    launches :
        {s : Scheduler}
        → x.launched ≡ false
        → start x.system.scheduler ≡ some s
        → Step x (record x { system = record x.system { scheduler = s }; launched = true })
    answers :
        (now : ℤ) (random : Option String) (r : HttpRequest) (s : Scheduler) (response : Response)
        (later : List String)
        → serve api now random r x.system.scheduler ≡ some (s, response, later)
        → Step x
            (record x { system = record x.system { scheduler = s }; pending = later ++ x.pending })
    deletes :
        (i : ℕ) (id : String) (rest : List String)
        → take_at i x.pending ≡ some (id, rest)
        → Step x (record x {
          system = record x.system { scheduler = (delete api.env id x.system.scheduler).0 };
          pending = rest;
        })
    runs :
        {y : System} (step : System.Step api.env x.system y)
        → MayRun x.launched step
        → Step x (record x { system = y })

  pub data Reach (x : Service) : Service → Type 0 where
    here : Reach x x
    later : {y z : Service} → Reach x y → Step y z → Reach x z
