-- ===== src/Scheduler/Outcomes.antt =====
-- What the client operations and the end of a run leave in the store.
use batch_scheduler.Base.{
  ℕ, false, Option, none, some, List, ◌≡◌, ◌≢◌, refl, sym, ap, ◌∙◌, arith, subst, String,
  Option-cases, inl, inr, if◌then◌else◌,
}
use batch_scheduler.Base.Outcome.{ok}
use batch_scheduler.Base.Sort.{Holds, >>=-eq-some, ◌>>=◌}
use batch_scheduler.Base.Int.{ℤ}
use batch_scheduler.Status
use batch_scheduler.Status.{same}
use batch_scheduler.Store.{MemoryStore}
use batch_scheduler.Task.{Task, uuid_nil, down_and_mark_canceled}
use batch_scheduler.Task.Codec.{IsRegistered}
use batch_scheduler.JsonStore.{Doc}
use batch_scheduler.JsonStore
use batch_scheduler.JsonStore.Laws.{get-put, get-delete, put-nil, put-named}
use batch_scheduler.Scheduler.{
  Scheduler, Env, wake, refusal, answer_add, add_with_id, add, cancel, delete, get_task, Watcher,
  Claim, Run,
}
use batch_scheduler.Scheduler.Loop.{put, take_at, settle, finish, clean_up}
use batch_scheduler.Scheduler.Keeps.{wake_ind}
use text.Mathlib.Text.{◌==◌}
use text.Mathlib.TextPositions.{eq_refl}

wake-tasks : (s : Scheduler) → Holds (λ u. u.tasks ≡ s.tasks) (wake s)
wake-tasks s = wake_ind (λ u. u.tasks ≡ s.tasks) s (λ _. refl)

answer_add-ok :
    (id j : String) (s u : Scheduler) (p : Task × MemoryStore Doc × Option JsonStore.Error)
    (t : Task)
    → answer_add id s p ≡ some (u, t, ok j)
    → (u.tasks ≡ p.1) × (j ≡ id) × (p.2 ≡ none)
answer_add-ok id j s u (t0, tasks, some e) t h = cc
answer_add-ok id j s u (t0, tasks, none) t h =
    let (s', woken, e) = >>=-eq-some (wake (record s { tasks = tasks })) _ h in
    let kept =
      subst (Holds (λ v. v.tasks ≡ tasks)) woken (wake-tasks (record s { tasks = tasks })) in
    (ground (arith, kept, e), ground (arith, e), refl)

-- A task that is stored without an error can be read under its id.
get-stored :
    (env : Env) (now : ℤ) (t : Task) (store : MemoryStore Doc)
    → t.id ≢ uuid_nil
    → IsRegistered env.registry t
    → JsonStore.get env.registry (JsonStore.put now t store).1 t.id
      ≡ ok (some (record t { mtime = now; cancel = none }))
get-stored env now t store named reg =
    get-put env.registry now t store t.id named reg ∙ (rw (eq_refl t.id))

stored-named :
    (env : Env) (now : ℤ) (t : Task) (store : MemoryStore Doc)
    → (JsonStore.put now t store).2 ≡ none
    → t.id ≢ uuid_nil
stored-named env now t store e nil =
    let refused = ap (λ p. p.2) (put-nil env.registry now t store nil) in cc

-- A task that `Add` accepts, with an action and a run of registered types, passed the checks, and
-- can be read from the store under the random id that `Add` answers: it waits, has the time of the
-- call and no `Cancel`, and is otherwise as it was given.
pub get_task-add :
    (env : Env) (now : ℤ) (random : Option String) (t t' : Task) (s u : Scheduler) (id : String)
    → IsRegistered env.registry t
    → add now random t s ≡ some (u, t', ok id)
    → (refusal s t ≡ none)
      × (random ≡ some id)
      × (get_task env id u
          ≡ ok (some (record t { id = id; status = Status.waiting; mtime = now; cancel = none })))
unfolding add add_with_id get_task
get_task-add env now random t t' s u id reg e = elim (Option-cases (refusal s t)) [
  | inr (e0, refused) ↦ absurd (ground (arith, refused, e))
  | inl accepted ↦ elim (Option-cases random) [
    | inl absent ↦ absurd (ground (arith, accepted, absent, e))
    | inr (id', given) ↦
        let chosen : Task = record t { id = id'; status = Status.waiting; mtime = now } in
        let answered : answer_add id' s (JsonStore.put now chosen s.tasks) ≡ some (u, t', ok id) =
          ground (arith, accepted, given, e) in
        let (tasks, same_id, fine) = answer_add-ok id' id s u _ t' answered in
        let named = stored-named env now chosen s.tasks fine in
        let reg' : IsRegistered env.registry chosen = record {
          with_action = reg.with_action;
          with_run = reg.with_run;
        } in
        (
          accepted,
          given ∙ ap some (sym same_id),
          rw (tasks, same_id) (get-stored env now chosen s.tasks named reg'),
        )
  ]
]

bound :
    {A B : Type 0} {o : Option A} {x : A} (f : A → Option B) {y : Option B}
    → o ≡ some x
    → (o >>= f) ≡ y
    → f x ≡ y
bound f {y = y} e h = subst (λ o. (o >>= f) ≡ y) e h

cleaned :
    (c : Claim) (s u : Scheduler)
    → (wake s >>= (λ v. some (clean_up c v))) ≡ some u
    → u.tasks ≡ s.tasks
cleaned c s u e =
    let (s', woken, e1) = >>=-eq-some (wake s) _ e in
    let kept = subst (Holds (λ v. v.tasks ≡ s.tasks)) woken (wake-tasks s) in
    ground (arith, kept, e1)

module _ (env : Env) where
  -- `Delete` of a stored task succeeds and leaves nothing under its id; other ids are unaffected.
  pub get_task-delete :
      (s : Scheduler) (id j : String) (t : Task)
      → get_task env id s ≡ ok (some t)
      → ((delete env id s).1 ≡ none)
        × (get_task env j (delete env id s).0 ≡ (if id == j then ok none else get_task env j s))
  unfolding delete get_task
  get_task-delete s id j t e = ground (arith, e, get-delete env.registry s.tasks id j)

  -- `Cancel` of a task that waits, stored under its own id and with an action and a run of
  -- registered types, succeeds and leaves the task as it was but for its time: it still waits.
  pub cancel_waiting :
      (now : ℤ) (s : Scheduler) (id : String) (t : Task)
      → get_task env id s ≡ ok (some t)
      → t.id ≡ id
      → id ≢ uuid_nil
      → IsRegistered env.registry t
      → t.status ≡ Status.waiting
      → ((cancel env now id s).1 ≡ none)
        × (get_task env id (cancel env now id s).0
            ≡ ok (some (record t { mtime = now; cancel = none })))
  unfolding cancel get_task
  cancel_waiting now s id t e own named reg waiting =
      let t1 : Task = record t { cancel = some down_and_mark_canceled; mtime = now } in
      let reg1 : IsRegistered env.registry t1 = record {
        with_action = reg.with_action;
        with_run = reg.with_run;
      } in
      let here : t.id ≢ uuid_nil = λ nil. named (sym own ∙ nil) in
      let stored = get-stored env now t1 s.tasks here reg1 in
      let fine = put-named env.registry now t1 s.tasks here in
      let going : same t.status Status.canceled ≡ false = rw (waiting) refl in
      let idle : same t.status Status.running ≡ false = rw (waiting) refl in
      rw (e, cancel, going, idle, fine, sym own) (refl, stored)

  -- The end of a run stores the watcher's copy of the task, with its final status and with the run as
  -- `Wait` leaves it, under its id,
  -- whatever the store holds by then: also if the task has been deleted or cancelled while it ran.
  -- The task has an id, and its action and run are of registered types.
  pub get_task-finish :
      (now : ℤ) (i : ℕ) (status : Status.Status) (ended : Run) (s u : Scheduler) (w : Watcher)
      (rest : List Watcher)
      → take_at i s.watchers ≡ some (w, rest)
      → finish env now i status ended s ≡ some u
      → (settle env now status (record w.task { run = some ended })).id ≢ uuid_nil
      → IsRegistered env.registry (settle env now status (record w.task { run = some ended }))
      → get_task env (settle env now status (record w.task { run = some ended })).id u
        ≡ ok (
            some (record (settle env now status (record w.task { run = some ended })) {
              mtime = now;
              cancel = none;
            }))
  unfolding finish get_task put
  get_task-finish now i status ended s u w rest taken e named reg =
      let past = bound _ taken e in
      let kept = cleaned w.claim _ u past in
      rw (kept) (
        get-stored env now (settle env now status (record w.task { run = some ended })) s.tasks
          named reg)
