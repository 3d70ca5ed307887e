-- ===== src/Scheduler/Load.antt =====
-- scheduler/scheduler.go: `Load` and `Start`, with the run states of task/run/status.go.
use batch_scheduler.Base.{
  Bool, true, false, Option, none, some, List, [], ◌∷◌, ◌++◌, if◌then◌else◌, ◌&&◌, not, ◌==◌,
}
use batch_scheduler.Base.Sort.{◌>>=◌}
use batch_scheduler.Base.Int.{ℤ, pos, negsuc}
use batch_scheduler.Status.{Status, same}
use batch_scheduler.Task.{Task, Run, has_cron, prepare_reschedule}
use batch_scheduler.Runner.{Outcome}
use batch_scheduler.JsonStore
use batch_scheduler.Scheduler.{Env, Scheduler}
use batch_scheduler.Scheduler as S
use batch_scheduler.Scheduler.Loop.{exec_task, one_loop}

-- `run.Status`
pub data RunStatus : Type 0 where
  running paused restarting exited dead unkown : RunStatus

-- Why the loop over the stored tasks ends early.
pub data Stop : Type 0 where
  failed : S.Error → Stop
  status_failed panics : Stop

-- What the loop over the stored tasks carries along.
pub record Loading : Type 0 where
  pub scheduler : Scheduler
  pub garbage : List Task
  pub update : List Task

-- `t.Run.Status()` for each run: the state and the exit code, or an error.
abbrev pub Probe : Type 0
Probe = Run → Option (RunStatus × ℤ)

-- The state of a task's run; a task with no run has an unknown one.
unfoldable pub run_status : Probe → Task → Option (RunStatus × ℤ)
run_status probe t = elim t.run [ none ↦ some (unkown, pos 0) | some r ↦ probe r ]

abbrev pub is_zero : ℤ → Bool
is_zero (pos n) = n == 0
is_zero (negsuc n) = false

-- The fresh status by the `switch`; where it is not assigned it is the zero value, `Waiting`.
unfoldable pub fresh_status : RunStatus → ℤ → Status
fresh_status running exit = Status.running
fresh_status dead exit = Status.error
fresh_status exited exit = if is_zero exit then Status.done else Status.error
fresh_status _ exit = Status.waiting

-- The lists that the `switch` puts the task on.
unfoldable pub sort_out : RunStatus → Task → Loading → Loading
sort_out running t l = l
sort_out dead t l = l
sort_out exited t l = l
sort_out unkown t l = record l { update = l.update ++ t ∷ [] }
sort_out _ t l = record l { garbage = l.garbage ++ t ∷ [] }

module _ (env : Env) (now : ℤ) (probe : Probe) (outcome : Task → Outcome) (locks : Bool) where
  -- A running task is started again, so that a goroutine watches it. This stores the task from inside
  -- the range over the stored tasks: where the store locks, its `Put` waits for that range to end, and
  -- `none` is this deadlock, or the panic of `execTask`.
  unfoldable pub watch : RunStatus → Task → Scheduler → Option (Scheduler × Task)
  watch running t s = if locks then none else exec_task env now (outcome t) t s
  watch _ t s = some (s, t)

  -- The comparison of the old status with the fresh one, after the `switch`. The entries of the
  -- two lists are pointers to the task, so each of them is the task as this leaves it.
  unfoldable pub compare_status : Status → Status → Task → Task × Bool
  compare_status old fresh t =
      if not (same old fresh)
      then (record t { status = fresh }, true)
      else if has_cron t && not (same t.status Status.running)
      then (prepare_reschedule env.registry.cron now (record t { status = Status.waiting }), true)
      else (t, false)

  abbrev pub push_update : Bool → Task → Loading → Loading
  push_update true t l = record l { update = l.update ++ t ∷ [] }
  push_update false t l = l

  -- The callback of `Load` for one task.
  unfoldable pub load_task : Loading → Task → Loading × Option Stop
  load_task l t = elim (run_status probe t) [
    | none ↦ (l, some status_failed)
    | some (status, exit) ↦ elim (watch status t l.scheduler) [
      | none ↦ (l, some panics)
      | some (s', t1) ↦
          let (t2, again) = compare_status t.status (fresh_status status exit) t1 in
          (push_update again t2 (sort_out status t2 (record l { scheduler = s' })), none)
    ]
  ]

  -- The loop that deletes the garbage.
  unfoldable pub delete_all : List Task → Scheduler → Scheduler
  delete_all [] s = s
  delete_all (t ∷ ts) s = delete_all ts (record s { tasks = JsonStore.delete s.tasks t.id })

  -- The loop that stores the updated tasks; it ends at the first error.
  unfoldable pub put_all : List Task → Scheduler → Scheduler × Option S.Error
  put_all [] s = (s, none)
  put_all (t ∷ ts) s =
      let (_, tasks, refused) = JsonStore.put now t s.tasks in
      let s' = record s { tasks = tasks } in
      elim refused [ none ↦ put_all ts s' | some e ↦ (s', some (S.store e)) ]

  -- The loop over the stored tasks: it visits the store as it was before the loop.
  unfoldable pub load_tasks : Scheduler → Loading × Option Stop
  load_tasks s =
      JsonStore.for_each env.registry (λ e. failed (S.store e)) load_task
        (record { scheduler = s; garbage = []; update = [] }) s.tasks.kv

  -- `Load` after the loop over the stored tasks.
  unfoldable pub store_loaded : Outcome → Loading → Option (Scheduler × Option Stop)
  store_loaded first l =
      let (s', e) = put_all l.update (delete_all l.garbage l.scheduler) in
      elim e [
        | some e ↦ some (s', some (failed e))
        | none ↦ do s'' ← one_loop env now first s'; some (s'', none)
      ]

  -- `Load`; `first` is what the runner answers in its call of `oneLoop`.
  unfoldable pub load : Outcome → Scheduler → Option (Scheduler × Option Stop)
  load first s =
      if s.started
      then some (s, some (failed S.started_already))
      else (let (l, stop) = load_tasks s in
          elim stop [
            | none ↦ store_loaded first l
            | some panics ↦ none
            | some e ↦ some (l.scheduler, some e)
          ])

-- `Start`; `none` is the panic of a second start.
unfoldable pub start : Scheduler → Option Scheduler
start s = if s.started then none else some (record s { started = true })

-- The end of the main loop, by `stop` or by its context.
unfoldable pub stop : Scheduler → Scheduler
stop s = record s { started = false }
