-- ===== src/Scheduler.antt =====
-- scheduler/scheduler.go: the scheduler's state and its client operations. The main loop is in
-- Scheduler/Loop, the start-up in Scheduler/Load.
--
-- The state holds, besides the fields of the Go record, what the scheduler's goroutines and timers
-- hold: `watchers` are the goroutines that wait for a run, `releasing` the resources of contexts
-- that are cancelled but not given back yet, `timers` the sleeps before a wake-up, `published` the
-- events sent to the subscribers, latest first. An operation reads the clock once, as `now`.
-- `none` as a result is a panic or a call that blocks for ever.
pub mod Loop
pub mod Load
pub mod Accounts
pub mod Selecting
pub mod Invariant
pub mod Keeps
pub mod LoopKeeps
pub mod LoadKeeps
pub mod Chosen
pub mod Locked
pub mod Restart
pub mod System
pub mod Capacity
pub mod Progress
pub mod Outcomes
use batch_scheduler.Base.{
  ℕ, suc, Bool, true, false, Option, none, some, List, [], ◌∷◌, ◌++◌, String, if◌then◌else◌, ◌≡◌,
  ◌&&◌, not,
}
use batch_scheduler.Base.Outcome.{Result, ok, err}
use batch_scheduler.Base.Dict.{Dict}
use mathlib.Core.Option
use batch_scheduler.Base.Dict
use batch_scheduler.Base.Sort.{◌>>=◌}
use batch_scheduler.Base.Int.{ℤ, pos, ltb_ℤ, leb_ℤ, ◌-ℤ◌, saturate}
use batch_scheduler.Status.{Status, same}
use batch_scheduler.Status
use batch_scheduler.Store.{MemoryStore}
use batch_scheduler.Todo.{Todo, fresh, ping}
use batch_scheduler.Task.{
  Task, Run, Formats, CancelFunc, mark_canceled, down_and_mark_canceled, uuid_nil,
}
use batch_scheduler.Task.Codec.{Registry}
use batch_scheduler.Resources.{Resources, check}
use batch_scheduler.JsonStore.{Doc}
use batch_scheduler.JsonStore
use batch_scheduler.Resources
use text.Mathlib.Text.{◌==◌}

-- What the scheduler finds outside of itself: the registries, the formats of texts, and what
-- `Down` leaves of a run.
pub record Env : Type 0 where
  pub registry : Registry
  pub formats : Formats
  pub down : Run → Run

pub record Claim : Type 0 where
  pub cpu : ℤ
  pub ram : ℤ

-- A goroutine that waits for a run; it holds its own copy of the task.
pub record Watcher : Type 0 where
  pub task : Task
  pub run : Run
  pub claim : Claim

pub record Event : Type 0 where
  pub action : String
  pub id : String

pub record Scheduler : Type 0 where
  pub resources : Resources
  pub tasks : MemoryStore Doc
  pub todo : Todo
  pub started : Bool
  pub watchers : List Watcher
  pub releasing : List Claim
  pub timers : List ℤ
  pub published : List Event

pub data Error : Type 0 where
  not_started chosen_id max_time_not_positive no_random unknown_id started_already : Error
  resources : Resources.Error → Error
  store : JsonStore.Error → Error

-- `New`
unfoldable pub new : Resources → MemoryStore Doc → Scheduler
new r tasks = record {
  resources = r;
  tasks = tasks;
  todo = fresh;
  started = false;
  watchers = [];
  releasing = [];
  timers = [];
  published = [];
}

-- `s.Pubsub.Publish`
abbrev pub publish : String → String → Scheduler → Scheduler
publish action id s = record s { published = record { action = action; id = id } ∷ s.published }

-- `s.somethingNewHappened.Ping()`
unfoldable pub wake : Scheduler → Option Scheduler
wake s = do (todo, _) ← ping s.todo; some (record s { todo = todo })

-- The tests at the head of `Add`, in their order.
unfoldable pub refusal : Scheduler → Task → Option Error
refusal s t =
    if not s.started
    then some not_started
    else if not (t.id == uuid_nil)
    then some chosen_id
    else (elim (check s.resources t.cpu t.ram) [
      | some e ↦ some (resources e)
      | none ↦ if leb_ℤ t.max_exection_time (pos 0) then some max_time_not_positive else none
    ])

-- The end of `Add`, after `Put` has answered.
abbrev pub answer_add :
    String
    → Scheduler
    → Task × MemoryStore Doc × Option JsonStore.Error
    → Option (Scheduler × Task × Result Error String)
answer_add id s (t, tasks, some e) = some (record s { tasks = tasks }, t, err (store e))
answer_add id s (t, tasks, none) = do
  s' ← wake (record s { tasks = tasks })
  some (publish "added" id s', record t { cancel = some mark_canceled }, ok id)

-- `Add` once the task has its id.
unfoldable pub add_with_id :
    ℤ → String → Task → Scheduler → Option (Scheduler × Task × Result Error String)
add_with_id now id t s =
    answer_add id s
      (JsonStore.put now (record t { id = id; status = Status.waiting; mtime = now }) s.tasks)

-- `Add`, with the scheduler, the caller's task and the answer. `random` is what `uuid.NewRandom`
-- gives.
unfoldable pub add :
    ℤ → Option String → Task → Scheduler → Option (Scheduler × Task × Result Error String)
add now random t s = elim (refusal s t) [
  | some e ↦ some (s, t, err e)
  | none ↦ elim random [ none ↦ some (s, t, err no_random) | some id ↦ add_with_id now id t s ]
]

-- `Length`
unfoldable pub size : Scheduler → ℕ
size s = JsonStore.size s.tasks

-- The test of `Flush` on one task.
unfoldable pub is_old : ℤ → ℤ → Task → Bool
is_old now age t =
    not (same t.status Status.running)
    && not (same t.status Status.waiting)
    && ltb_ℤ age (saturate (now -ℤ t.mtime))

module _ (env : Env) where
  -- `GetTask`
  unfoldable pub get_task : String → Scheduler → Result JsonStore.Error (Option Task)
  get_task id s = JsonStore.get env.registry s.tasks id

  -- The closure that `Cancel` makes and calls on a running task.
  unfoldable pub call_cancel : Task → Task
  call_cancel t = record t { run = Option.map env.down t.run; status = Status.canceled }

  -- The call of the closure by `Cancel`, for a running task only.
  abbrev pub cancel_if : Bool → Task → Task
  cancel_if true t = call_cancel t
  cancel_if false t = t

  -- `Cancel`
  unfoldable pub cancel : ℤ → String → Scheduler → Scheduler × Option Error
  cancel now id s = elim (JsonStore.get env.registry s.tasks id) [
    | err e ↦ (s, some (store e))
    | ok none ↦ (s, some unknown_id)
    | ok (some t) ↦
        if same t.status Status.canceled
        then (s, none)
        else let t1 = record t { cancel = some down_and_mark_canceled } in
          let t2 = cancel_if (same t.status Status.running) t1 in
          let (_, tasks, failed) = JsonStore.put now (record t2 { mtime = now }) s.tasks in
          (record s { tasks = tasks }, Option.map store failed)
  ]

  -- `Delete`. The `Down` of a running task changes nothing that is kept.
  unfoldable pub delete : String → Scheduler → Scheduler × Option Error
  delete id s = elim (JsonStore.get env.registry s.tasks id) [
    | err e ↦ (s, some (store e))
    | ok none ↦ (s, some unknown_id)
    | ok (some t) ↦ (record s { tasks = JsonStore.delete s.tasks id }, none)
  ]

  -- The calls of the clause that answer true, which `Flush` counts.
  unfoldable pub count_old : (Task → Bool) → Dict Doc → ℕ
  count_old fn [] = 0
  count_old fn ((_, doc) ∷ kv) =
      let rest = count_old fn kv in
      elim (JsonStore.clause env.registry fn doc) [ some true ↦ suc rest | _ ↦ rest ]

  -- `Flush`; `none` is the panic on a stored value that cannot be read.
  unfoldable pub flush : ℤ → ℤ → Scheduler → Option (Scheduler × ℕ)
  flush now age s = do
    tasks ← JsonStore.delete_with_clause env.registry (is_old now age) s.tasks
    some (record s { tasks = tasks }, count_old (is_old now age) s.tasks.kv)

  -- One round of the loops of `List` and `Filter`: the tasks that pass, in the order of the store.
  unfoldable pub collect : (Task → Bool) → List Task → Task → List Task × Option JsonStore.Error
  collect keep ts t = (if keep t then ts ++ t ∷ [] else ts, none)

  -- The tasks of the store that pass a test, up to the first value that cannot be read.
  unfoldable pub select : (Task → Bool) → Scheduler → List Task
  select keep s = (JsonStore.for_each env.registry (λ e. e) (collect keep) [] s.tasks.kv).0

  -- `List`
  unfoldable pub list : Scheduler → List Task
  list s = select (λ _. true) s

  -- Every wanted label stands on the task, with the wanted value.
  unfoldable pub has_labels : Dict String → Dict String → Bool
  has_labels [] own = true
  has_labels ((key, value) ∷ wanted) own =
      (elim (Dict.lookup key own) [ none ↦ false | some v ↦ v == value ]) && has_labels wanted own

  -- The test of `Filter` on one task.
  unfoldable pub is_wanted : String → Dict String → Task → Bool
  is_wanted owner labels t =
      if not (owner == "") && not (t.owner == owner) then false else has_labels labels t.labels

  -- `Filter`
  unfoldable pub filter : String → Dict String → Scheduler → List Task
  filter owner labels s = select (is_wanted owner labels) s
