-- ===== src/PostTasks/Created.antt =====
-- handlers/api/tasks.go: what a posted task is, and that a refused one changes nothing.
use batch_scheduler.Base.{
  ℕ, String, true, Option, none, some, List, [], ◌∷◌, ◌&&◌, not, ◌≡◌, refl, ap, ◌∙◌, arith,
  Bool-cases, Option-cases, inl, inr,
}
use batch_scheduler.Base.Outcome.{Result, ok, err}
use batch_scheduler.Base.Int.{ℤ}
use batch_scheduler.Base.Dict.{Dict}
use batch_scheduler.Base.Sort.{Holds, Holds-bind, Holds-bind_eq}
use batch_scheduler.ActionValidator.{ActionValidator, validate_action}
use batch_scheduler.Claims.{Owner}
use batch_scheduler.Handlers.{has_filter}
use batch_scheduler.JsonStore
use batch_scheduler.PostTasks.{
  Posted, Libraries, Answer, labels_valid, read_task, no_errors, owner_of, reply_added, accept_task,
  accept, post_tasks,
}
use batch_scheduler.Scheduler.{Scheduler, add, refusal, add_with_id, answer_add, wake, publish}
use batch_scheduler.Status.{waiting}
use batch_scheduler.Task.{Task, Action, uuid_nil}
use text.Mathlib.Text.{◌==◌}

-- What `Add` answers: an error with the scheduler as it was, or the task, which waits and is
-- otherwise as far as its owner, labels and action go.
abbrev IsAdded :
    Scheduler → Task → Scheduler × Task × Result batch_scheduler.Scheduler.Error String → Type 0
IsAdded s t (s', t', err e) = s' ≡ s
IsAdded s t (s', t', ok id) =
    (t'.owner ≡ t.owner) × (t'.labels ≡ t.labels) × (t'.action ≡ t.action) × (t'.status ≡ waiting)

add_with_id-IsAdded :
    (now : ℤ) (id : String) (t : Task) (s : Scheduler)
    → Holds (IsAdded s t) (add_with_id now id t s)
unfolding add_with_id JsonStore.put
add_with_id-IsAdded now id t s = elim (Bool-cases (id == uuid_nil)) [
  | inl nil ↦ rw nil refl
  | inr named ↦ rw named (Holds-bind_eq (IsAdded s t) (wake _) _ (λ s' _. (refl, refl, refl, refl)))
]

add-IsAdded :
    (now : ℤ) (random : Option String) (t : Task) (s : Scheduler)
    → Holds (IsAdded s t) (add now random t s)
unfolding add
add-IsAdded now random t s = elim (Option-cases (refusal s t)) [
  | inr (e, refused) ↦ rw (refused, add) refl
  | inl fine ↦ rw (fine, add) (given random)
]
  where
    given :
        (r : Option String)
        → Holds (IsAdded s t) (elim r [
          | none ↦ some (s, t, err batch_scheduler.Scheduler.no_random)
          | some id ↦ add_with_id now id t s
        ])
    given none = refl
    given (some id) = add_with_id-IsAdded now id t s

-- The answer to a posted task: a task that was created has the status 201, the owner that the user
-- may set, valid labels, and an action that the validators accept; any other answer leaves the
-- scheduler as it was.
abbrev pub IsPosted :
    Libraries
    → Dict ActionValidator
    → Owner
    → Option String
    → Scheduler
    → Scheduler × Answer
    → Type 0
IsPosted libs validators u o s (s', (code, none)) = s' ≡ s
IsPosted libs validators u o s (s', (code, some t)) =
    (code ≡ 201)
    × (t.status ≡ waiting)
    × (t.owner ≡ owner_of libs u o)
    × (labels_valid t.labels ≡ true)
    × ((a : Action) × (t.action ≡ some a) × (validate_action libs.as_compose validators a ≡ []))

no_errors-nil :
    (libs : Libraries) {A : Type 0} (errs : List A) → no_errors libs errs ≡ true → errs ≡ []
no_errors-nil libs [] e = refl
no_errors-nil libs (x ∷ xs) e = absurd (ground (arith, e))

module _ (libs : Libraries) (validators : Dict ActionValidator) (u : Owner)
    (o : Option String) where
  reply_added-IsPosted :
      (t : Task) (a : Action) (s : Scheduler)
      → labels_valid t.labels ≡ true
      → t.action ≡ some a
      → validate_action libs.as_compose validators a ≡ []
      → (r : Scheduler × Task × Result batch_scheduler.Scheduler.Error String)
      → IsAdded s (record t { owner = owner_of libs u o }) r
      → IsPosted libs validators u o s (reply_added libs r)
  reply_added-IsPosted t a s valid acts allowed (s', t', err e) h = h
  reply_added-IsPosted t a s valid acts allowed (s', t', ok id) (own, labels, action, waits) =
      (refl, waits, own, ap labels_valid labels ∙ valid, (a, action ∙ acts, allowed))

  accept_task-IsPosted :
      (now : ℤ) (random : Option String) (t : Task) (s : Scheduler)
      → Holds (IsPosted libs validators u o s) (accept_task libs validators u o now random t s)
  accept_task-IsPosted now random t s = elim (Bool-cases (labels_valid t.labels)) [
    | inr bad ↦ rw bad refl
    | inl valid ↦ elim (Option-cases t.action) [
      | inl none_set ↦ rw (valid, none_set) tt
      | inr (a, acts) ↦
          elim (Bool-cases (no_errors libs (validate_action libs.as_compose validators a))) [
            | inr refused ↦ rw (valid, acts, refused) refl
            | inl clean ↦ elim (Bool-cases (not u.admin && has_filter o)) [
              | inl barred ↦ rw (valid, acts, clean, barred) refl
              | inr free ↦
                  rw (valid, acts, clean, free)
                    (Holds-bind (IsAdded s (record t { owner = owner_of libs u o }))
                      (IsPosted libs validators u o s)
                      (add now random (record t { owner = owner_of libs u o }) s) _
                      (add-IsAdded now random (record t { owner = owner_of libs u o }) s)
                      (reply_added-IsPosted t a s valid acts (no_errors-nil libs _ clean)))
            ]
          ]
    ]
  ]

  accept-IsPosted :
      (now : ℤ) (random : Option String) (r : Result ℕ Task) (s : Scheduler)
      → Holds (IsPosted libs validators u o s) (accept libs validators u o now random r s)
  accept-IsPosted now random (err code) s = refl
  accept-IsPosted now random (ok t) s = accept_task-IsPosted now random t s

  -- Where the handler answers, it answers like that.
  pub post_tasks-Holds :
      (now : ℤ) (random : Option String) (posted : Posted) (s : Scheduler)
      → Holds (IsPosted libs validators u o s) (post_tasks libs validators u o now random posted s)
  unfolding post_tasks
  post_tasks-Holds now random posted s = accept-IsPosted now random (read_task libs now posted) s
