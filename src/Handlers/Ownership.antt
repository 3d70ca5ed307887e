-- ===== src/Handlers/Ownership.antt =====
-- Whose tasks a user sees and deletes.
use batch_scheduler.Base.{
  ℕ, subst, All-sift_test, String, true, false, Option, none, some, List, [], ◌∷◌, ◌≡◌, ◌≢◌, refl,
  ◌∙◌, arith, All, Option-cases, inl, inr, sym, ap,
}
use batch_scheduler.Base.Outcome.{ok}
use batch_scheduler.Base.Dict.{Dict}
use batch_scheduler.Base.Sort.{>>=-eq-some, ◌>>=◌, Holds}
use batch_scheduler.Base.Int.{ℤ}
use batch_scheduler.Claims.{Owner}
use batch_scheduler.Task.{Task, Resp, to_task_resp}
use batch_scheduler.Scheduler.{Scheduler, Env, list, filter, is_wanted, get_task, has_labels}
use batch_scheduler.Scheduler.Selecting.{select-sift}
use batch_scheduler.Scheduler.Outcomes.{get_task-delete}
use batch_scheduler.JsonStore.Reading.{readable}
use batch_scheduler.Handlers.{
  tasks, get_tasks, get_with, reply_tasks, to_send, wanted, query_labels, delete_tasks,
  delete_later,
}
use text.Mathlib.TextPositions.{eq_refl}
use text.Mathlib.TextEquality.{eq_iff}

to_task_resp-keeps :
    (t : Task) (r : Resp) → to_task_resp t ≡ some r → (r.owner ≡ t.owner) × (r.labels ≡ t.labels)
unfolding to_task_resp
to_task_resp-keeps t r e = elim (Option-cases t.run) [
  | inl absent ↦ absurd (ground (arith, absent, e))
  | inr (x, there) ↦ (ground (arith, there, e), ground (arith, there, e))
]

-- What holds of the owner and the labels of each task holds of those that are sent.
abbrev pub Statement : Type 1
Statement = String → Dict String → Type 0

to_send-All :
    (P : Statement) (ts : List Task) (rs : List Resp)
    → to_send ts ≡ some rs
    → All (λ t. P t.owner t.labels) ts
    → All (λ r. P r.owner r.labels) rs
unfolding to_send
to_send-All P [] [] e h = tt
to_send-All P [] (r ∷ rs) e h = cc
to_send-All P (t ∷ ts) rs e (h, hs) =
    let (r, sent, e1) = >>=-eq-some (to_task_resp t) _ e in
    let (rs', rest, e2) = >>=-eq-some (to_send ts) _ e1 in
    let (owner, labels) = to_task_resp-keeps t r sent in
    subst (Holds (λ l. All (λ x. P x.owner x.labels) l)) e2 (
      subst (λ o. P o r.labels) (sym owner) (subst (P t.owner) (sym labels) h),
      to_send-All P ts rs' rest hs,
    )

module _ (env : Env) where
  is_wanted-owner :
      (name : String) (labels : Dict String) (t : Task)
      → name ≢ ""
      → is_wanted env name labels t ≡ true
      → t.owner ≡ name
  unfolding is_wanted
  is_wanted-owner name labels t named e = ground (arith, eq_iff name "", eq_iff t.owner name, e)

  filter-All :
      (P : Statement) (name : String) (labels : Dict String) (s : Scheduler)
      → ((t : Task) → is_wanted env name labels t ≡ true → P t.owner t.labels)
      → All (λ t. P t.owner t.labels) (filter env name labels s)
  unfolding filter
  filter-All P name labels s h = rw (select-sift env (is_wanted env name labels) s) (
      All-sift_test (λ t. P t.owner t.labels) (is_wanted env name labels) h
        (readable env.registry s.tasks.kv))

  get_with-All :
      (P : Statement) (u : Owner) (labels : Option (Dict String)) (s : Scheduler) (code : ℕ)
      (rs : List Resp)
      → u.admin ≡ false
      → ((l : Dict String)
          → labels ≡ some l
          → (t : Task) → is_wanted env u.name l t ≡ true
          → P t.owner t.labels)
      → get_with env u none labels s ≡ some (record { code = code; body = tasks rs })
      → All (λ r. P r.owner r.labels) rs
  unfolding wanted
  get_with-All P u none s code rs plain h e = cc
  get_with-All P u (some labels) s code rs plain h e =
      let own : wanted env u none labels s ≡ filter env u.name labels s = rw (plain, wanted) refl in
      let (rs', sent, e1) = >>=-eq-some (to_send (wanted env u none labels s)) _ e in
      let same_tasks : rs' ≡ rs = ground (arith, e1) in
      subst (λ l. All (λ r. P r.owner r.labels) l) same_tasks
        (to_send-All P _ rs' sent (rw (own) (filter-All P u.name labels s (h labels refl))))

  -- A plain user is shown the tasks that `Filter` wants for their name and the labels of the query.
  pub get_tasks-All :
      (P : Statement) (u : Owner) (o : Option String) (query : List (String × List String))
      (s : Scheduler) (code : ℕ) (rs : List Resp)
      → u.admin ≡ false
      → ((l : Dict String)
          → query_labels query [] ≡ some (some l)
          → (t : Task) → is_wanted env u.name l t ≡ true
          → P t.owner t.labels)
      → get_tasks env u o query s ≡ some (record { code = code; body = tasks rs })
      → All (λ r. P r.owner r.labels) rs
  unfolding get_tasks wanted
  get_tasks-All P u (some o) query s code rs plain h e = absurd (ground (arith, plain, e))
  get_tasks-All P u none query s code rs plain h e =
      let e0 : (query_labels query [] >>= (λ labels. get_with env u none labels s))
          ≡ some (record { code = code; body = tasks rs }) =
        ground (arith, plain, e) in
      let (labels, read, e1) = >>=-eq-some (query_labels query []) _ e0 in
      get_with-All P u labels s code rs plain
        (λ l given t kept. h l (read ∙ ap (λ x. some x) given) t kept) e1

  -- A user who is not an administrator and has a name is shown no task but their own, whatever the
  -- path and the query ask for.
  pub get_tasks_own :
      (u : Owner) (o : Option String) (query : List (String × List String)) (s : Scheduler)
      (code : ℕ) (rs : List Resp)
      → u.admin ≡ false
      → u.name ≢ ""
      → get_tasks env u o query s ≡ some (record { code = code; body = tasks rs })
      → All (λ r. r.owner ≡ u.name) rs
  get_tasks_own u o query s code rs plain named e =
      get_tasks-All (λ owner _. owner ≡ u.name) u o query s code rs plain
        (λ l _ t kept. is_wanted-owner u.name l t named kept) e

  -- A user with an empty name who is not an administrator is shown the tasks of everybody, on a
  -- request without an owner and without labels.
  pub get_tasks_nameless :
      (u : Owner) (s : Scheduler)
      → u.admin ≡ false
      → u.name ≡ ""
      → get_tasks env u none [] s ≡ reply_tasks env (list env s)
  unfolding get_tasks wanted query_labels filter list is_wanted has_labels
  get_tasks_nameless u s plain nameless = rw (plain, get_tasks, wanted, nameless) refl

  -- Any user can delete any task: a request to delete a stored task is accepted whoever sends it,
  -- also if it is not the owner, and once the goroutine has run the task is not found. It assumes
  -- that the text of the path is the task's id.
  pub delete_tasks_other :
      (parse_id : String → Option String) (now : ℤ) (u : Owner) (job id : String) (t : Task)
      (s : Scheduler)
      → parse_id job ≡ some id
      → get_task env id s ≡ ok (some t)
      → ((delete_tasks env parse_id now u job false s).0.code ≡ 202)
        × (get_task env id (delete_later env (delete_tasks env parse_id now u job false s).2 s)
            ≡ ok none)
  unfolding delete_tasks delete_later
  delete_tasks_other parse_id now u job id t s parsed e =
      rw (parsed, delete_tasks) (refl, (get_task-delete env s id id t e).1 ∙ (rw (eq_refl id) refl))
