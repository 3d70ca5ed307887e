-- ===== src/Api.antt =====
-- handlers/api/api.go: the routes of the API, from the request to the reply, with the middleware of
-- middlewares/auth.go around every route.
--
-- The router gorilla/mux is the parameter `mux`: it is given the table of routes, the method and the
-- path. It runs the middleware where it has found a route, and only there. A file that is served is
-- its path. `none` is a panic.
pub mod Guarded
pub mod Listed
pub mod Steps
use batch_scheduler.Base.{
  ℕ, String, Bool, true, false, Option, none, some, List, [], ◌∷◌, if◌then◌else◌,
}
use batch_scheduler.Base.Outcome.{Result, ok, err}
use batch_scheduler.Base.Dict.{Dict}
use batch_scheduler.Base.Dict
use batch_scheduler.Base.Int.{ℤ}
use batch_scheduler.Base.Sort.{◌>>=◌}
use batch_scheduler.Auth
use batch_scheduler.Auth.{Parse, auth, next, unauthorized, bad_request}
use batch_scheduler.ActionValidator.{ActionValidator}
use batch_scheduler.Claims.{
  Owner, Context, background, owner_to_ctx, owner_from_ctx, path_to_ctx, path_from_ctx,
}
use batch_scheduler.GetVolumes.{Paths, get_volumes}
use batch_scheduler.Handlers.{
  Body, no_body, Reply, failed, get_tasks, get_one, delete_tasks, or_empty,
}
use batch_scheduler.PostTasks.{Posted, Libraries, post_tasks}
use batch_scheduler.Scheduler.{Scheduler, Env}
use batch_scheduler.Task.{Task}

pub data Method : Type 0 where
  get post delete other : Method

-- The methods of `API` that are wrapped as handlers.
pub data Endpoint : Type 0 where
  handle_get_tasks handle_get_task handle_post_tasks handle_delete_tasks handle_get_volumes :
      Endpoint

pub record Route : Type 0 where
  pub template : String
  pub is_prefix : Bool
  pub method : Method
  pub endpoint : Endpoint

abbrev route : String → Method → Endpoint → Route
route template method endpoint = record {
  template = template;
  is_prefix = false;
  method = method;
  endpoint = endpoint;
}

-- The routes of `RegisterAPI`, in their order.
abbrev pub routes : List Route
routes =
    route "/tasks/{owner}" get handle_get_tasks
    ∷ route "/task/{uuid}" get handle_get_task
    ∷ route "/tasks" get handle_get_tasks
    ∷ route "/tasks" post handle_post_tasks
    ∷ route "/tasks/{owner}" post handle_post_tasks
    ∷ route "/tasks/{job}" delete handle_delete_tasks
    ∷ record {
      template = "/tasks/{job}/volume/";
      is_prefix = true;
      method = get;
      endpoint = handle_get_volumes;
    }
    ∷ []

-- What the router answers, with the variables of the path.
pub data Routing : Type 0 where
  not_found method_not_allowed : Routing
  found : Route → Dict String → Routing

-- `query` is the parsed query, as a map from names to their values.
pub record HttpRequest : Type 0 where
  pub method : Method
  pub path : String
  pub authorization : String
  pub cookie : Option String
  pub query : List (String × List String)
  pub posted : Posted

pub data Payload : Type 0 where
  nothing : Payload
  listed : Body → Payload
  created : Task → Payload
  file : String → Payload

-- The reply: its status, its content, and the cookie that is set.
pub record Response : Type 0 where
  pub code : ℕ
  pub payload : Payload
  pub cookie : Option String

abbrev pub plain : ℕ → Response
plain code = record { code = code; payload = nothing; cookie = none }

-- `API`, with what the handlers find outside of it.
pub record Api : Type 0 where
  pub env : Env
  pub validators : Dict ActionValidator
  pub libs : Libraries
  pub paths : Paths
  pub data_dir : String
  pub key : String
  pub parse : Parse
  pub parse_id : String → Option String
  pub mux : List Route → Method → String → Routing

-- The scheduler, the reply, and the ids that goroutines will delete after it.
abbrev pub Outcome : Type 0
Outcome = Scheduler × Response × List String

-- `Query().Get`: the first value of a name.
unfoldable pub first_value : String → List (String × List String) → Option String
first_value name query = elim (Dict.lookup name query) [
  | none ↦ none
  | some [] ↦ none
  | some (value ∷ _) ↦ some value
]

unfoldable pub auth_request : HttpRequest → Auth.Request
auth_request r = record {
  authorization = r.authorization;
  param = or_empty (first_value "token" r.query);
  cookie = r.cookie;
}

abbrev pub has_key {ℓ} : {V : Type ℓ} → Option V → Bool
has_key none = false
has_key (some _) = true

abbrev pub of_task : Option Task → Payload
of_task none = nothing
of_task (some t) = created t

abbrev pub of_file : Option String → Payload
of_file none = nothing
of_file (some f) = file f

-- The content of a reply of Handlers.
abbrev pub of_body : Body → Payload
of_body no_body = nothing
of_body body = listed body

abbrev pub to_option : {E A : Type 0} → Result E A → Option A
to_option (ok a) = some a
to_option (err _) = none

module _ (api : Api) (now : ℤ) (random : Option String) where
  abbrev pub reading : Reply → Scheduler → Outcome
  reading r s = (s, record { code = r.code; payload = of_body r.body; cookie = none }, [])

  -- The call of a handler, with the variables of the path.
  unfoldable pub call :
      Endpoint → Owner → Context → Dict String → HttpRequest → Scheduler → Option Outcome
  call handle_get_tasks u ctx vars r s = do
    reply ← get_tasks api.env u (Dict.lookup "owner" vars) r.query s
    some (reading reply s)
  call handle_get_task u ctx vars r s = elim (Dict.lookup "uuid" vars) [
    | none ↦ some (s, plain 200, [])
    | some raw ↦ do reply ← get_one api.env api.parse_id raw s; some (reading reply s)
  ]
  call handle_post_tasks u ctx vars r s = do
    (s', (code, t)) ←
        post_tasks api.libs api.validators u (Dict.lookup "owner" vars) now random r.posted s
    some (s', record { code = code; payload = of_task t; cookie = none }, [])
  call handle_delete_tasks u ctx vars r s =
      let (reply, s', later) =
        delete_tasks api.env api.parse_id now u (or_empty (Dict.lookup "job" vars))
          (has_key (Dict.lookup "wait_for" r.query)) s in
      some (s', plain reply.code, later)
  call handle_get_volumes u ctx vars r s =
      let (code, served) =
        get_volumes api.paths api.data_dir (Dict.lookup "job" vars) (to_option (path_from_ctx ctx))
          r.path in
      some (s, record { code = code; payload = of_file served; cookie = none }, [])

  -- `wrapMyHandler`
  unfoldable pub wrap_my_handler :
      Endpoint → Context → Dict String → HttpRequest → Scheduler → Option Outcome
  wrap_my_handler endpoint ctx vars r s = elim (owner_from_ctx ctx) [
    | err _ ↦ some (s, plain 400, [])
    | ok u ↦ call endpoint u ctx vars r s
  ]

  -- The cookie that the middleware has set before the handler.
  abbrev pub with_cookie : Option String → Outcome → Outcome
  with_cookie cookie (s, response, later) = (s, record response { cookie = cookie }, later)

  -- The middleware around a route.
  unfoldable pub guard : Auth.Reply → Route → Dict String → HttpRequest → Scheduler → Option Outcome
  guard unauthorized route vars r s = some (s, plain 401, [])
  guard bad_request route vars r s = some (s, plain 400, [])
  guard (next u p cookie) route vars r s = do
    outcome ← wrap_my_handler route.endpoint (path_to_ctx p (owner_to_ctx u background)) vars r s
    some (with_cookie cookie outcome)

  abbrev pub dispatch : Routing → HttpRequest → Scheduler → Option Outcome
  dispatch not_found r s = some (s, plain 404, [])
  dispatch method_not_allowed r s = some (s, plain 405, [])
  dispatch (found route vars) r s = guard (auth api.parse api.key (auth_request r)) route vars r s

  -- The API's answer to a request.
  unfoldable pub serve : HttpRequest → Scheduler → Option Outcome
  serve r s = dispatch (api.mux routes r.method r.path) r s
