-- ===== src/Api/Steps.antt =====
-- handlers/api/api.go: what a request does to the scheduler is a step of its clients.
use batch_scheduler.Base.{
  String, Bool, Option, some, ◌≡◌, refl, Bool-cases, Option-cases, inl, inr, not, ◌&&◌, subst, sym,
}
use batch_scheduler.Base.Outcome.{Result, ok, err}
use batch_scheduler.Base.Dict.{Dict}
use batch_scheduler.Base.Dict
use batch_scheduler.Base.Int.{ℤ}
use batch_scheduler.Base.Sort.{Holds, Holds-bind, Holds-bind_eq, Holds-self}
use batch_scheduler.ActionValidator.{validate_action}
use batch_scheduler.Auth
use batch_scheduler.Auth.{auth, next, unauthorized, bad_request}
use batch_scheduler.Claims.{Owner, Context, owner_from_ctx, owner_to_ctx, path_to_ctx}
use batch_scheduler.Handlers.{get_tasks, get_one, delete_tasks, or_empty, has_filter}
use batch_scheduler.PostTasks.{
  post_tasks, accept_task, accept, read_task, labels_valid, no_errors, owner_of, reply_added,
  Answer,
}
use batch_scheduler.Scheduler.{Scheduler, add, cancel}
use batch_scheduler.Scheduler as S
use batch_scheduler.Scheduler.System.{System, Reach, here, later, adds, cancels}
use batch_scheduler.Task.{Task}
use batch_scheduler.Api.{
  Api, HttpRequest, Outcome, Endpoint, handle_get_tasks, handle_get_task, handle_post_tasks,
  handle_delete_tasks, handle_get_volumes, Routing, Route, not_found, method_not_allowed, found,
  call, wrap_my_handler, guard, dispatch, serve, with_cookie, has_key,
}

reply_added-scheduler :
    (libs : batch_scheduler.PostTasks.Libraries) (a : Scheduler × Task × Result S.Error String)
    → (reply_added libs a).0 ≡ a.0
reply_added-scheduler libs (s, t, err e) = refl
reply_added-scheduler libs (s, t, ok id) = refl

module _ (api : Api) (now : ℤ) (random : Option String) (r : HttpRequest) (x : System) where
  -- The scheduler is one that a step of a client, or no step, leads to.
  abbrev Leads : Scheduler → Type 0
  Leads s = Reach api.env x (record x { scheduler = s })

  add-Leads :
      (t : Task) → Holds (λ a. Leads (reply_added api.libs a).0) (add now random t x.scheduler)
  add-Leads t = Holds-self {P = λ a. Leads (reply_added api.libs a).0} _ (λ a e.
      subst Leads (sym (reply_added-scheduler api.libs a))
        (later here (adds now random t a.1 a.2 e)))

  accept_task-Leads :
      (u : Owner) (o : Option String) (t : Task)
      → Holds (λ a. Leads a.0) (accept_task api.libs api.validators u o now random t x.scheduler)
  accept_task-Leads u o t = elim (Bool-cases (labels_valid t.labels)) [
    | inr bad ↦ rw bad here
    | inl valid ↦ elim (Option-cases t.action) [
      | inl missing ↦ rw (valid, missing) tt
      | inr (a, acts) ↦
          elim (Bool-cases
            (no_errors api.libs (validate_action api.libs.as_compose api.validators a))) [
              | inr refused ↦ rw (valid, acts, refused) here
              | inl clean ↦ elim (Bool-cases (not u.admin && has_filter o)) [
                | inl barred ↦ rw (valid, acts, clean, barred) here
                | inr free ↦
                    rw (valid, acts, clean, free)
                      (Holds-bind (λ b. Leads (reply_added api.libs b).0) (λ a. Leads a.0)
                        (add now random (record t { owner = owner_of api.libs u o }) x.scheduler) _
                        (add-Leads _) (λ b h. h))
              ]
            ]
    ]
  ]

  accept-Leads :
      (u : Owner) (o : Option String) (read : Result _ Task)
      → Holds (λ a. Leads a.0) (accept api.libs api.validators u o now random read x.scheduler)
  accept-Leads u o (err code) = here
  accept-Leads u o (ok t) = accept_task-Leads u o t

  delete-Leads :
      (u : Owner) (job : String) (wait_for : Bool)
      → Leads (delete_tasks api.env api.parse_id now u job wait_for x.scheduler).1
  unfolding delete_tasks
  delete-Leads u job wait_for = elim (Option-cases (api.parse_id job)) [
    | inl bad ↦ rw (bad, delete_tasks) here
    | inr (id, parsed) ↦
        rw (parsed, delete_tasks)
          (elim (Bool-cases wait_for) [
            | inl waits ↦ rw waits (later here (cancels now id))
            | inr goes ↦ rw goes here
          ])
  ]

  call-Leads :
      (endpoint : Endpoint) (u : Owner) (ctx : Context) (vars : Dict String)
      → Holds (λ out. Leads out.0) (call api now random endpoint u ctx vars r x.scheduler)
  unfolding call post_tasks
  call-Leads handle_get_tasks u ctx vars =
      Holds-bind_eq (λ out. Leads out.0)
        (get_tasks api.env u (Dict.lookup "owner" vars) r.query x.scheduler) _ (λ reply e. here)
  call-Leads handle_get_task u ctx vars = elim (Option-cases (Dict.lookup "uuid" vars)) [
    | inl missing ↦ rw (missing, call) here
    | inr (raw, there) ↦
        rw (there, call)
          (Holds-bind_eq (λ out. Leads out.0) (get_one api.env api.parse_id raw x.scheduler) _
            (λ reply e. here))
  ]
  call-Leads handle_post_tasks u ctx vars =
      Holds-bind (λ a. Leads a.0) (λ out. Leads out.0) _ _
        (accept-Leads u (Dict.lookup "owner" vars) (read_task api.libs now r.posted)) (λ a h. h)
  call-Leads handle_delete_tasks u ctx vars =
      delete-Leads u (or_empty (Dict.lookup "job" vars)) (has_key (Dict.lookup "wait_for" r.query))
  call-Leads handle_get_volumes u ctx vars = here

  guard-Leads :
      (reply : Auth.Reply) (route : Route) (vars : Dict String)
      → Holds (λ out. Leads out.0) (guard api now random reply route vars r x.scheduler)
  unfolding guard wrap_my_handler owner_from_ctx owner_to_ctx path_to_ctx
  guard-Leads unauthorized route vars = here
  guard-Leads bad_request route vars = here
  guard-Leads (next u p cookie) route vars =
      Holds-bind (λ out. Leads out.0) (λ out. Leads out.0) _
        (λ out. some (with_cookie api now random cookie out)) (call-Leads route.endpoint u _ vars)
        (λ out h. h)

  dispatch-Leads :
      (routing : Routing)
      → Holds (λ out. Leads out.0) (dispatch api now random routing r x.scheduler)
  dispatch-Leads not_found = here
  dispatch-Leads method_not_allowed = here
  dispatch-Leads (found route vars) = guard-Leads _ route vars

  -- A request that is answered takes the scheduler where a call of one of its operations by a
  -- client takes it, or leaves it.
  pub serve-Leads :
      {out : Outcome}
      → serve api now random r x.scheduler ≡ some out
      → Reach api.env x (record x { scheduler = out.0 })
  unfolding serve
  serve-Leads e = subst (Holds (λ out. Leads out.0)) e (dispatch-Leads (api.mux _ r.method r.path))
