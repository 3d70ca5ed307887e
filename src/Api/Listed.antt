-- ===== src/Api/Listed.antt =====
-- handlers/api/api.go: what a user is shown of the tasks, from the token to the list.
use text.Mathlib.Text.{◌==◌}
use text.Mathlib.TextEquality.{eq_iff}
use batch_scheduler.Handlers.Labelled.{HasParam, get_tasks-labelled}
use batch_scheduler.PostTasks.{post_tasks}
use batch_scheduler.Base.{
  String, true, Option, none, some, List, ◌≡◌, ◌≢◌, ◌⊎◌, inl, inr, arith, ℕ, All, Option-cases, ap,
  ◌∙◌, subst, Bool-cases,
}
use batch_scheduler.Base.Outcome.{Result-cases}
use batch_scheduler.Base.Dict.{Dict}
use batch_scheduler.Base.Dict
use batch_scheduler.Base.Int.{ℤ}
use batch_scheduler.Base.Sort.{Holds, Holds-bind, Holds-bind_eq}
use batch_scheduler.Auth.Accepted.{ChecksMethod, Credentials}
use batch_scheduler.Claims.{Owner, Context}
use batch_scheduler.Handlers.{Body, no_body, tasks, one_task, Reply, get_tasks, get_one}
use batch_scheduler.Handlers.Ownership.{get_tasks_own}
use batch_scheduler.Scheduler.{Scheduler, Env, get_task}
use batch_scheduler.Task.{Task, Resp, to_task_resp}
use batch_scheduler.Api.{
  Api, HttpRequest, Outcome, Endpoint, handle_get_tasks, handle_get_task, handle_post_tasks,
  handle_delete_tasks, handle_get_volumes, listed, auth_request, call, of_body, of_task, of_file,
  serve,
}
use batch_scheduler.Api.Guarded.{serve-IsServed}

abbrev reply_of : ℕ → Body → Reply
reply_of code body = record { code = code; body = body }

-- The reply is a list of tasks.
abbrev pub Lists : List Resp → Outcome → Type 0
Lists rs out = out.1.payload ≡ listed (tasks rs)

of_body-listed : (body : Body) (rs : List Resp) → of_body body ≡ listed (tasks rs) → body ≡ tasks rs
of_body-listed no_body rs e = cc
of_body-listed (tasks ts) rs e = cc
of_body-listed (one_task t) rs e = cc

of_task-listed : (t : Option Task) (rs : List Resp) → of_task t ≢ listed (tasks rs)
of_task-listed none rs e = cc
of_task-listed (some t) rs e = cc

of_file-listed : (f : Option String) (rs : List Resp) → of_file f ≢ listed (tasks rs)
of_file-listed none rs e = cc
of_file-listed (some f) rs e = cc

get_one-body :
    (env : Env) (parse_id : String → Option String) (raw : String) (s : Scheduler) (rs : List Resp)
    → Holds (λ reply. reply.body ≢ tasks rs) (get_one env parse_id raw s)
unfolding get_one
get_one-body env parse_id raw s rs = elim (Option-cases (parse_id raw)) [
  | inl bad ↦ rw (bad, get_one) (λ e. cc)
  | inr (id, parsed) ↦ elim (Result-cases (get_task env id s)) [
    | inr (f, failed) ↦ rw (parsed, get_one) (rw (failed) (λ e. cc))
    | inl (none, missing) ↦ rw (parsed, get_one) (rw (missing) tt)
    | inl (some t, there) ↦ elim (Option-cases (to_task_resp t)) [
      | inl absent ↦ rw (parsed, get_one) (rw (there) (rw (absent) tt))
      | inr (shown, made) ↦ rw (parsed, get_one) (rw (there) (rw (made) (λ e. cc)))
    ]
  ]
]

module _ (api : Api) (now : ℤ) (random : Option String) (r : HttpRequest) (s : Scheduler) where
  -- A list of tasks is the answer of `HandleGetTasks`.
  abbrev pub AnswersTasks : Owner → Dict String → List Resp → Type 0
  AnswersTasks u vars rs =
      (code : ℕ) × (get_tasks api.env u (Dict.lookup "owner" vars) r.query s
        ≡ some (record { code = code; body = tasks rs }))

  call-listed :
      (endpoint : Endpoint) (u : Owner) (ctx : Context) (vars : Dict String) (rs : List Resp)
      → Holds
          (λ out. Lists rs out → AnswersTasks u vars rs)
          (call api now random endpoint u ctx vars r s)
  unfolding call
  call-listed handle_get_tasks u ctx vars rs =
      Holds-bind_eq (λ out. Lists rs out → AnswersTasks u vars rs)
        (get_tasks api.env u (Dict.lookup "owner" vars) r.query s) _
        (λ reply answered l. (
          reply.code,
          answered ∙ ap (λ b. some (reply_of reply.code b)) (of_body-listed reply.body rs l),
        ))
  call-listed handle_get_task u ctx vars rs = elim (Option-cases (Dict.lookup "uuid" vars)) [
    | inl missing ↦ rw (missing, call) (λ l. cc)
    | inr (raw, there) ↦
        rw (there, call)
          (Holds-bind (λ reply. reply.body ≢ tasks rs)
            (λ out. Lists rs out → AnswersTasks u vars rs) (get_one api.env api.parse_id raw s) _
            (get_one-body api.env api.parse_id raw s rs)
            (λ reply differs l. absurd (differs (of_body-listed reply.body rs l))))
  ]
  call-listed handle_post_tasks u ctx vars rs =
      Holds-bind_eq (λ out. Lists rs out → AnswersTasks u vars rs)
        (post_tasks api.libs api.validators u (Dict.lookup "owner" vars) now random r.posted s) _
        (λ answer _ l. absurd (of_task-listed answer.1.1 rs l))
  call-listed handle_delete_tasks u ctx vars rs = λ l. cc
  call-listed handle_get_volumes u ctx vars rs = λ l. absurd (of_file-listed _ rs l)

  -- A list of tasks goes out only to a user with credentials, as the answer of `HandleGetTasks` to
  -- this user.
  serve-listed :
      (rs : List Resp) {out : Outcome}
      → ChecksMethod api.parse
      → serve api now random r s ≡ some out
      → Lists rs out
      → (u : Owner) × (p : String) × (cookie : Option String) × (vars : Dict String) × Credentials
          api.parse api.key
          (auth_request r)
          u
          p
          cookie
        × AnswersTasks u vars rs
  serve-listed rs {out} checks e l = elim (serve-IsServed api now random r s checks e) [
    | inl (code, _, refused, _) ↦ absurd (ground (arith, refused, l))
    | inr served ↦ (
      served.user,
      served.path,
      served.cookie,
      served.vars,
      served.credentials,
      subst (Holds (λ o. Lists rs o → AnswersTasks served.user served.vars rs)) served.handled
          (call-listed served.route.endpoint served.user _ served.vars rs)
          (ap (λ o. o.1.payload) served.sent ∙ l),
    )
  ]

  -- A list of tasks goes out only to a user whose valid token the request carries; and it has only
  -- tasks of this user, unless the user is an administrator or has an empty name. It assumes that
  -- the token package accepts a token only where the key function gives a key for its method.
  pub serve-listed_own :
      (rs : List Resp) {out : Outcome}
      → ChecksMethod api.parse
      → serve api now random r s ≡ some out
      → Lists rs out
      → (u : Owner) × (p : String) × (cookie : Option String) × Credentials api.parse api.key
          (auth_request r)
          u
          p
          cookie
        × ((u.admin ≡ true) ⊎ ((u.name ≡ "") ⊎ All (λ t. t.owner ≡ u.name) rs))
  serve-listed_own rs checks e l =
      let (u, p, cookie, vars, credentials, (code, answer)) = serve-listed rs checks e l in
      (
        u,
        p,
        cookie,
        credentials,
        elim (Bool-cases u.admin) [
          | inl admin ↦ inl admin
          | inr common ↦ inr (elim (Bool-cases (u.name == "")) [
            | inl nameless ↦ inl ((eq_iff u.name "").0 nameless)
            | inr named ↦ inr (
                get_tasks_own api.env u (Dict.lookup "owner" vars) r.query s code rs common
                  (λ same. absurd (ground (arith, eq_iff u.name "", named, same))) answer)
          ])
        ],
      )

  -- A request whose query has the parameter `token` with one value, such as one that is
  -- authenticated by it, lists to a user who is not an administrator only tasks that have a label
  -- `token` with this value. It assumes that the token package accepts a token only where the key
  -- function gives a key for its method.
  pub serve-listed_token :
      (token : String) (rs : List Resp) {out : Outcome}
      → ChecksMethod api.parse
      → HasParam "token" token r.query
      → serve api now random r s ≡ some out
      → Lists rs out
      → (u : Owner) × (p : String) × (cookie : Option String) × Credentials api.parse api.key
          (auth_request r)
          u
          p
          cookie
        × ((u.admin ≡ true) ⊎ All (λ t. Dict.lookup "token" t.labels ≡ some token) rs)
  serve-listed_token token rs checks h e l =
      let (u, p, cookie, vars, credentials, (code, answer)) = serve-listed rs checks e l in
      (
        u,
        p,
        cookie,
        credentials,
        elim (Bool-cases u.admin) [
          | inl admin ↦ inl admin
          | inr common ↦ inr (
              get_tasks-labelled api.env u (Dict.lookup "owner" vars) r.query s code rs "token"
                token common h answer)
        ],
      )
