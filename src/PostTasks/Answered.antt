-- ===== src/PostTasks/Answered.antt =====
-- handlers/api/tasks.go: a posted task is answered.
use batch_scheduler.Base.{
  ℕ, String, Bool, Option, none, some, ◌&&◌, not, ◌≡◌, refl, subst, Bool-cases, Option-cases, inl,
  inr,
}
use batch_scheduler.Base.Outcome.{Result, ok, err}
use batch_scheduler.Base.Int.{ℤ}
use batch_scheduler.Base.Dict.{Dict}
use batch_scheduler.Base.Sort.{Holds}
use batch_scheduler.ActionValidator.{ActionValidator, validate_action}
use batch_scheduler.Claims.{Owner}
use batch_scheduler.Handlers.{has_filter}
use batch_scheduler.JsonStore
use batch_scheduler.PostTasks.{
  Posted, Libraries, Answer, labels_valid, read_task, no_errors, owner_of, accept_task, accept,
  post_tasks,
}
use batch_scheduler.PostTasks.Created.{IsPosted, post_tasks-Holds}
use batch_scheduler.Scheduler.{Scheduler, add, refusal, add_with_id, answer_add, wake, publish}
use batch_scheduler.Task.{Task, Action, uuid_nil}
use batch_scheduler.Todo.{Todo, ping}
use text.Mathlib.Text.{◌==◌}

-- The call returns a value.
abbrev Returns {ℓ} : {A : Type ℓ} → Option A → Type ℓ
Returns {A = A} o = (a : A) × (o ≡ some a)

add_with_id-Returns :
    (now : ℤ) (id : String) (t : Task) (s : Scheduler) {r : _}
    → ping s.todo ≡ some r
    → Returns (add_with_id now id t s)
unfolding add_with_id JsonStore.put wake
add_with_id-Returns now id t s e = elim (Bool-cases (id == uuid_nil)) [
  | inl nil ↦ rw nil (_, refl)
  | inr named ↦ rw (named, e) (_, refl)
]

add-Returns :
    (now : ℤ) (random : Option String) (t : Task) (s : Scheduler) {r : _}
    → ping s.todo ≡ some r
    → Returns (add now random t s)
unfolding add
add-Returns now random t s e = elim (Option-cases (refusal s t)) [
  | inr (e', refused) ↦ rw (refused, add) (_, refl)
  | inl fine ↦ rw (fine, add) (given random)
]
  where
    given :
        (o : Option String)
        → Returns {A = Scheduler × Task × Result batch_scheduler.Scheduler.Error String} (elim o [
          | none ↦ some (s, t, err batch_scheduler.Scheduler.no_random)
          | some id ↦ add_with_id now id t s
        ])
    given none = (_, refl)
    given (some id) = add_with_id-Returns now id t s e

-- A task that was read has an action.
abbrev pub HasAction : Result ℕ Task → Type 0
HasAction (err code) = Unit
HasAction (ok t) = (a : Action) × (t.action ≡ some a)

module _ (libs : Libraries) (validators : Dict ActionValidator) (u : Owner)
    (o : Option String) where
  accept_task-Returns :
      (now : ℤ) (random : Option String) (t : Task) (a : Action) (s : Scheduler) {r : _}
      → t.action ≡ some a
      → ping s.todo ≡ some r
      → Returns (accept_task libs validators u o now random t s)
  accept_task-Returns now random t a s acts e = elim (Bool-cases (labels_valid t.labels)) [
    | inr bad ↦ rw bad (_, refl)
    | inl valid ↦
        elim (Bool-cases (no_errors libs (validate_action libs.as_compose validators a))) [
          | inr refused ↦ rw (valid, acts, refused) (_, refl)
          | inl clean ↦ elim (Bool-cases (not u.admin && has_filter o)) [
            | inl barred ↦ rw (valid, acts, clean, barred) (_, refl)
            | inr free ↦
                let (added, e') =
                  add-Returns now random (record t { owner = owner_of libs u o }) s e in
                rw (valid, acts, clean, free, e') (_, refl)
          ]
        ]
  ]

  accept-Returns :
      (now : ℤ) (random : Option String) (read : Result ℕ Task) (s : Scheduler) {r : _}
      → HasAction read
      → ping s.todo ≡ some r
      → Returns (accept libs validators u o now random read s)
  accept-Returns now random (err code) s h e = (_, refl)
  accept-Returns now random (ok t) s (a, acts) e = accept_task-Returns now random t a s acts e

  -- The task that is read from the request, if one is, has an action, and the wake-up flag can be
  -- raised. Then the handler answers: either without a task and with the scheduler as it was, or
  -- with 201 and a task that waits, whose owner is the user, or for an administrator who names one
  -- the owner of the path, whose labels are all valid, and whose action the configured validators
  -- accept.
  pub post_tasks-IsPosted :
      (now : ℤ) (random : Option String) (posted : Posted) (s : Scheduler) (todo : Todo × Bool)
      → HasAction (read_task libs now posted)
      → ping s.todo ≡ some todo
      → (r : Scheduler × Answer) × (post_tasks libs validators u o now random posted s ≡ some r)
        × IsPosted libs validators u o s r
  unfolding post_tasks
  post_tasks-IsPosted now random posted s todo h e =
      let (r, e') = accept-Returns now random (read_task libs now posted) s h e in
      (
        r,
        e',
        subst (Holds (IsPosted libs validators u o s)) e'
            (post_tasks-Holds libs validators u o now random posted s),
      )
