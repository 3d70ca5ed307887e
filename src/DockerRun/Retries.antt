-- ===== src/DockerRun/Retries.antt =====
-- A container that fails, seen by the scheduler: compose/run.go together with scheduler/scheduler.go.
use batch_scheduler.Base.{
  ℕ, String, Bool, true, false, none, some, List, ◌∷◌, ◌≡◌, ◌≢◌, ◌⊎◌, refl, arith, sym, subst, ◌∙◌,
}
use batch_scheduler.Base.Outcome.{ok}
use batch_scheduler.Base.Int.{ℤ, pos, ◌<ℤ◌}
use batch_scheduler.Status.{Status}
use batch_scheduler.Task.{Task, has_cron, uuid_nil}
use batch_scheduler.Task.Codec.{IsRegistered}
use batch_scheduler.Resources.{Resources, is_doable}
use batch_scheduler.Scheduler.{Env, Scheduler, Watcher, get_task}
use batch_scheduler.Scheduler.Loop.{take_at, finish, settle, is_ready}
use batch_scheduler.Scheduler.Outcomes.{get_task-finish}
use batch_scheduler.DockerRun.{DockerRun, Message, wait, as_run}
use batch_scheduler.DockerRun.Endings.{wait_stopped}

module _ (env : Env) where
  settle_plain :
      (now : ℤ) (status : Status) (t : Task)
      → has_cron t ≡ false
      → settle env now status t ≡ record t { status = status }
  unfolding settle has_cron
  settle_plain now status t e = ground (arith, e)

  -- The container of the run that a watcher waits for stops by itself, and is then found in another
  -- state than `exited` or with another code than 0, and `Wait` returns. The task has no schedule, has
  -- an id, and its action and its run, as `Wait` leaves it, are of registered types. Once the
  -- scheduler has finished with this status and this run, the task is stored under its id as it was,
  -- but with the end of the run, and waiting again; so at any time after its start at which resources
  -- suffice, it is ready to be run again.
  pub failed_run_waits :
      (encode : DockerRun → String) (messages : List Message) (kills : Bool) (state : String)
      (code now later : ℤ) (i : ℕ) (d d' : DockerRun) (status : Status) (fine : Bool)
      (s u : Scheduler) (w : Watcher) (rest : List Watcher) (r : Resources)
      → (state ≢ "exited") ⊎ (code ≢ pos 0)
      → take_at i s.watchers ≡ some (w, rest)
      → w.run ≡ as_run encode d
      → wait true (Message.stopped ∷ messages) kills (some (state, code)) now d
        ≡ some (d', status, fine)
      → has_cron w.task ≡ false
      → w.task.id ≢ uuid_nil
      → IsRegistered env.registry (record w.task { run = some (as_run encode d') })
      → finish env now i status (as_run encode d') s ≡ some u
      → w.task.start <ℤ later
      → is_doable r w.task.cpu w.task.ram ≡ true
      → (t : Task) × (get_task env w.task.id u ≡ ok (some t))
        × (t ≡ record w.task {
          run = some (as_run encode d');
          status = Status.waiting;
          mtime = now;
          cancel = none;
        })
        × (d' ≡ record d { running = false; finish = now; exit_code = code })
        × (is_ready env later r t ≡ true)
  unfolding is_ready has_cron
  failed_run_waits encode messages kills state code now later i d d' status fine s u w rest r failed
        taken held waited once named reg ended early room =
      let before : Task = record w.task { run = some (as_run encode d') } in
      let outcome = wait_stopped messages kills state code now d failed in
      let waits : status ≡ Status.waiting = ground (arith, outcome, waited) in
      let left : d' ≡ record d { running = false; finish = now; exit_code = code } =
        cc (sym waited ∙ outcome) in
      let settled = settle_plain now status before once in
      let reg' : IsRegistered env.registry (settle env now status before) =
        subst (IsRegistered env.registry) (sym settled)
          (record { with_action = reg.with_action; with_run = reg.with_run }) in
      let stored =
        get_task-finish env now i status (as_run encode d') s u w rest taken ended
          (subst (λ (x : Task). x.id ≢ uuid_nil) (sym settled) named) reg' in
      let read =
        subst
          (λ (x : Task). get_task env x.id u ≡ ok (some (record x { mtime = now; cancel = none })))
          settled stored in
      (
        record before { status = Status.waiting; mtime = now; cancel = none },
        rw waits at read,
        refl,
        left,
        ground (arith, early, room),
      )
