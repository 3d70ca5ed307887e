-- ===== src/Handlers.antt =====
-- handlers/api/tasks.go and handlers/api/task.go: the requests that list, show and delete tasks.
-- A reply is the status and the body. `none` is a panic of the handler.
pub mod Ownership
pub mod Labelled
use batch_scheduler.Base.{
  ℕ, String, Bool, true, false, Option, none, some, List, [], ◌∷◌, if◌then◌else◌, ◌||◌, ◌&&◌, not,
  ltb, length,
}
use batch_scheduler.Base.Outcome.{Result, ok, err}
use batch_scheduler.Base.Dict.{Dict}
use batch_scheduler.Base.Dict
use batch_scheduler.Base.Sort.{◌>>=◌}
use batch_scheduler.Base.Int.{ℤ}
use batch_scheduler.Claims.{Owner}
use batch_scheduler.Task.{Task, Resp, to_task_resp}
use batch_scheduler.Scheduler.{Scheduler, Env, list, filter, cancel, delete, get_task}

pub data Body : Type 0 where
  no_body : Body
  tasks : List Resp → Body
  one_task : Resp → Body

-- A reply: the status 200 is the one that is sent where the handler sets none.
pub record Reply : Type 0 where
  pub code : ℕ
  pub body : Body

abbrev pub failed : ℕ → Reply
failed code = record { code = code; body = no_body }

-- The parameters of the query as labels: `ok none` is the refusal of a parameter with several
-- values, `none` the panic on one with no value.
unfoldable pub query_labels :
    List (String × List String) → Dict String → Option (Option (Dict String))
query_labels [] labels = some (some labels)
query_labels ((key, []) ∷ query) labels = none
query_labels ((key, value ∷ []) ∷ query) labels = query_labels query (Dict.insert key value labels)
query_labels ((key, _ ∷ _ ∷ _) ∷ query) labels = some none

-- `ToTaskResp` of each task
unfoldable pub to_send : List Task → Option (List Resp)
to_send [] = some []
to_send (t ∷ ts) = do r ← to_task_resp t; rs ← to_send ts; some (r ∷ rs)

abbrev pub has_filter : Option String → Bool
has_filter none = false
has_filter (some _) = true

-- A variable of the path, empty if it is missing.
abbrev pub or_empty : Option String → String
or_empty none = ""
or_empty (some o) = o

module _ (env : Env) where
  -- The choice between `Filter` and `List`.
  unfoldable pub wanted : Owner → Option String → Dict String → Scheduler → List Task
  wanted u o labels s =
      if u.admin
      then (if has_filter o || ltb 1 (length labels)
          then filter env (or_empty o) labels s
          else list env s)
      else filter env u.name labels s

  abbrev pub reply_tasks : List Task → Option Reply
  reply_tasks ts = do rs ← to_send ts; some (record { code = 200; body = tasks rs })

  abbrev pub get_with : Owner → Option String → Option (Dict String) → Scheduler → Option Reply
  get_with u o none s = some (failed 400)
  get_with u o (some labels) s = reply_tasks (wanted u o labels s)

  -- `HandleGetTasks`, with the owner of the path and the query.
  unfoldable pub get_tasks :
      Owner → Option String → List (String × List String) → Scheduler → Option Reply
  get_tasks u o query s =
      if not u.admin && has_filter o
      then some (failed 401)
      else do labels ← query_labels query []; get_with u o labels s

  -- `HandleGetTask`, once the router has found the path's `uuid`; `parse_id` is `uuid.Parse`. A
  -- task that is not found is dereferenced.
  unfoldable pub get_one : (String → Option String) → String → Scheduler → Option Reply
  get_one parse_id raw s = elim (parse_id raw) [
    | none ↦ some (failed 200)
    | some id ↦ elim (get_task env id s) [
      | err _ ↦ some (failed 200)
      | ok none ↦ none
      | ok (some t) ↦ do r ← to_task_resp t; some (record { code = 200; body = one_task r })
    ]
  ]

  abbrev pub cancel_reply : Option batch_scheduler.Scheduler.Error → ℕ
  cancel_reply none = 204
  cancel_reply (some _) = 500

  -- `HandleDeleteTasks`, with the ids that a goroutine will delete after the reply.
  unfoldable pub delete_tasks :
      (String → Option String)
      → ℤ
      → Owner
      → String
      → Bool
      → Scheduler
      → Reply × Scheduler × List String
  delete_tasks parse_id now u job wait_for s = elim (parse_id job) [
    | none ↦ (failed 500, s, [])
    | some id ↦
        if wait_for
        then (let (s', e) = cancel env now id s in (failed (cancel_reply e), s', []))
        else (failed 202, s, id ∷ [])
  ]

  -- The goroutines that delete.
  unfoldable pub delete_later : List String → Scheduler → Scheduler
  delete_later [] s = s
  delete_later (id ∷ ids) s = delete_later ids (delete env id s).0
