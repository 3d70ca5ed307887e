-- ===== src/Samples/Apis.antt =====
-- Requests to the API, with a token in the header and in the query.
use batch_scheduler.Base.{
  String, Option, none, some, List, [], ◌∷◌, ◌≡◌, refl, true, false, All, ◌⊎◌,
}
use batch_scheduler.Base.Dict.{Dict}
use batch_scheduler.Base.Dict
use batch_scheduler.Base.Int.{pos}
use batch_scheduler.Api.{
  Api, HttpRequest, Outcome, Method, get, Route, Routing, routes, found, not_found,
  handle_get_tasks, serve, auth_request,
}
use batch_scheduler.Api.Guarded.{IsRefused, IsServed, serve-IsServed}
use batch_scheduler.Api.Listed.{Lists, serve-listed_own, serve-listed_token}
use batch_scheduler.Auth.Accepted.{Credentials}
use batch_scheduler.Claims.{Owner}
use batch_scheduler.PostTasks.{json}
use batch_scheduler.Samples.{env, scheduler, stored_task}
use batch_scheduler.Samples.Posts.{libraries, validators}
use batch_scheduler.Samples.Requests.{parse, parse-ChecksMethod, volumes}
use batch_scheduler.Scheduler.{Scheduler}
use batch_scheduler.Task.{Task, Resp}
use batch_scheduler.Task.Codec.{marshal}
use batch_scheduler.JsonStore.{task}

-- A router that knows the list of tasks only.
abbrev pub mux : List Route → Method → String → Routing
mux table method path =
    found
      (record { template = "/tasks"; is_prefix = false; method = get; endpoint = handle_get_tasks })
      []

abbrev pub api : Api
api = record {
  env = env;
  validators = validators;
  libs = libraries;
  paths = volumes;
  data_dir = "/data";
  key = "key";
  parse = parse;
  parse_id = some;
  mux = mux;
}

abbrev with_header : HttpRequest
with_header = record {
  method = get;
  path = "/api/tasks";
  authorization = "Bearer sesame";
  cookie = none;
  query = [];
  posted = json none;
}

abbrev with_param : HttpRequest
with_param = record with_header { authorization = ""; query = ("token", "sesame" ∷ []) ∷ [] }

-- A store whose task has the label that the parameter asks for.
abbrev labelled : Scheduler
labelled = record scheduler {
  tasks = record {
    kv = ("a", task (marshal (record stored_task { labels = ("token", "sesame") ∷ [] }))) ∷ [];
  };
}

listed_own :
    (out : Outcome) × (rs : List Resp) × (serve api (pos 9) none with_header scheduler ≡ some out)
    × Lists rs out
unfolding serve auth_request marshal batch_scheduler.Api.guard batch_scheduler.Api.call
    batch_scheduler.Api.wrap_my_handler batch_scheduler.Api.first_value batch_scheduler.Auth.auth
    batch_scheduler.Auth.get_token batch_scheduler.Auth.first_token
    batch_scheduler.Auth.token_from_header batch_scheduler.Auth.token_from_param
    batch_scheduler.Auth.token_from_cookies batch_scheduler.Base.Texts.split
    batch_scheduler.Auth.accept batch_scheduler.Auth.key_for batch_scheduler.Auth.identify
    batch_scheduler.Claims.owner_from_jwt batch_scheduler.Claims.owner_claim
    batch_scheduler.Claims.admin_claim batch_scheduler.Claims.path_from_jwt
    batch_scheduler.Claims.path_claim batch_scheduler.Claims.owner_to_ctx
    batch_scheduler.Claims.path_to_ctx batch_scheduler.Claims.owner_from_ctx
    batch_scheduler.Handlers.get_tasks batch_scheduler.Handlers.query_labels
    batch_scheduler.Handlers.to_send batch_scheduler.Handlers.wanted
    batch_scheduler.Scheduler.filter batch_scheduler.Scheduler.select
    batch_scheduler.JsonStore.for_each batch_scheduler.Store.for_each
    batch_scheduler.JsonStore.visit batch_scheduler.JsonStore.parse_task
    batch_scheduler.Task.Codec.unmarshal batch_scheduler.Scheduler.collect
    batch_scheduler.Scheduler.is_wanted batch_scheduler.Scheduler.has_labels
    batch_scheduler.Task.to_task_resp batch_scheduler.Task.Codec.unmarshal_action
    batch_scheduler.Task.Codec.unmarshal_run batch_scheduler.Task.Codec.check_cron Dict.lookup
    Dict.insert
listed_own = (_, _, refl, refl)

listed_token :
    (out : Outcome) × (rs : List Resp) × (serve api (pos 9) none with_param labelled ≡ some out)
    × Lists rs out
unfolding serve auth_request marshal batch_scheduler.Api.guard batch_scheduler.Api.call
    batch_scheduler.Api.wrap_my_handler batch_scheduler.Api.first_value batch_scheduler.Auth.auth
    batch_scheduler.Auth.get_token batch_scheduler.Auth.first_token
    batch_scheduler.Auth.token_from_header batch_scheduler.Auth.token_from_param
    batch_scheduler.Auth.token_from_cookies batch_scheduler.Base.Texts.split
    batch_scheduler.Auth.accept batch_scheduler.Auth.key_for batch_scheduler.Auth.identify
    batch_scheduler.Claims.owner_from_jwt batch_scheduler.Claims.owner_claim
    batch_scheduler.Claims.admin_claim batch_scheduler.Claims.path_from_jwt
    batch_scheduler.Claims.path_claim batch_scheduler.Claims.owner_to_ctx
    batch_scheduler.Claims.path_to_ctx batch_scheduler.Claims.owner_from_ctx
    batch_scheduler.Handlers.get_tasks batch_scheduler.Handlers.query_labels
    batch_scheduler.Handlers.to_send batch_scheduler.Handlers.wanted
    batch_scheduler.Scheduler.filter batch_scheduler.Scheduler.select
    batch_scheduler.JsonStore.for_each batch_scheduler.Store.for_each
    batch_scheduler.JsonStore.visit batch_scheduler.JsonStore.parse_task
    batch_scheduler.Task.Codec.unmarshal batch_scheduler.Scheduler.collect
    batch_scheduler.Scheduler.is_wanted batch_scheduler.Scheduler.has_labels
    batch_scheduler.Task.to_task_resp batch_scheduler.Task.Codec.unmarshal_action
    batch_scheduler.Task.Codec.unmarshal_run batch_scheduler.Task.Codec.check_cron Dict.lookup
    Dict.insert
listed_token = (_, _, refl, refl)

serve-listed_own_example :
    (u : Owner) × (p : String) × (cookie : Option String) × Credentials parse "key"
      (auth_request with_header)
      u
      p
      cookie
    × ((u.admin ≡ true) ⊎ ((u.name ≡ "") ⊎ All (λ t. t.owner ≡ u.name) listed_own.1))
serve-listed_own_example =
    serve-listed_own api (pos 9) none with_header scheduler listed_own.1 parse-ChecksMethod
      listed_own.2 listed_own.3

serve-listed_token_example :
    (u : Owner) × (p : String) × (cookie : Option String) × Credentials parse "key"
      (auth_request with_param)
      u
      p
      cookie
    × ((u.admin ≡ true) ⊎ All (λ t. Dict.lookup "token" t.labels ≡ some "sesame") listed_token.1)
serve-listed_token_example =
    serve-listed_token api (pos 9) none with_param labelled "sesame" listed_token.1
      parse-ChecksMethod (refl, tt) listed_token.2 listed_token.3

serve-IsServed_example :
    IsRefused labelled listed_token.0 ⊎ IsServed api (pos 9) none with_param labelled listed_token.0
serve-IsServed_example =
    serve-IsServed api (pos 9) none with_param labelled parse-ChecksMethod listed_token.2

-- With the token in the query, a task without the label is not shown.
hidden_from_param :
    (out : Outcome) × (serve api (pos 9) none with_param scheduler ≡ some out) × Lists [] out
unfolding serve auth_request marshal batch_scheduler.Api.guard batch_scheduler.Api.call
    batch_scheduler.Api.wrap_my_handler batch_scheduler.Api.first_value batch_scheduler.Auth.auth
    batch_scheduler.Auth.get_token batch_scheduler.Auth.first_token
    batch_scheduler.Auth.token_from_header batch_scheduler.Auth.token_from_param
    batch_scheduler.Auth.token_from_cookies batch_scheduler.Base.Texts.split
    batch_scheduler.Auth.accept batch_scheduler.Auth.key_for batch_scheduler.Auth.identify
    batch_scheduler.Claims.owner_from_jwt batch_scheduler.Claims.owner_claim
    batch_scheduler.Claims.admin_claim batch_scheduler.Claims.path_from_jwt
    batch_scheduler.Claims.path_claim batch_scheduler.Claims.owner_to_ctx
    batch_scheduler.Claims.path_to_ctx batch_scheduler.Claims.owner_from_ctx
    batch_scheduler.Handlers.get_tasks batch_scheduler.Handlers.query_labels
    batch_scheduler.Handlers.to_send batch_scheduler.Handlers.wanted
    batch_scheduler.Scheduler.filter batch_scheduler.Scheduler.select
    batch_scheduler.JsonStore.for_each batch_scheduler.Store.for_each
    batch_scheduler.JsonStore.visit batch_scheduler.JsonStore.parse_task
    batch_scheduler.Task.Codec.unmarshal batch_scheduler.Scheduler.collect
    batch_scheduler.Scheduler.is_wanted batch_scheduler.Scheduler.has_labels
    batch_scheduler.Task.to_task_resp batch_scheduler.Task.Codec.unmarshal_action
    batch_scheduler.Task.Codec.unmarshal_run batch_scheduler.Task.Codec.check_cron Dict.lookup
    Dict.insert
hidden_from_param = (_, refl, refl)
