-- ===== src/Scheduler/Loop.antt =====
-- scheduler/scheduler.go: the main loop (`oneLoop`, `readyToGo`, `next`, `execTask`) and what the
-- goroutines and timers that it starts do later.
use batch_scheduler.Base.{
  ℕ, zero, suc, Bool, true, Option, none, some, List, [], ◌∷◌, if◌then◌else◌, ◌&&◌, ◌==◌,
}
use batch_scheduler.Base.Sort.{◌>>=◌}
use batch_scheduler.Base.Int.{ℤ, ltb_ℤ, ◌-ℤ◌, saturate}
use batch_scheduler.Status.{same}
use batch_scheduler.Status
use batch_scheduler.Status.Codec
use batch_scheduler.Todo
use batch_scheduler.Task.{Task, Run, add_run_to_history, has_cron, prepare_reschedule}
use batch_scheduler.Task.Order.{sort_by_start, sort_by_karma}
use batch_scheduler.Runner.{Outcome}
use batch_scheduler.Runner
use batch_scheduler.Resources.{Resources, consume, release, is_doable}
use batch_scheduler.JsonStore
use batch_scheduler.Scheduler.{Env, Claim, Scheduler, publish, wake, select}

-- `s.tasks.Put`, where the caller drops the error.
unfoldable pub put : ℤ → Task → Scheduler → Scheduler × Task
put now t s = let (t', tasks, _) = JsonStore.put now t s.tasks in (record s { tasks = tasks }, t')

-- The list without its entry at a place, and that entry.
unfoldable pub take_at {ℓ} : {A : Type ℓ} → ℕ → List A → Option (A × List A)
take_at i [] = none
take_at zero (x ∷ xs) = some (x, xs)
take_at (suc i) (x ∷ xs) = do (y, ys) ← take_at i xs; some (y, x ∷ ys)

-- `execTask` up to the call of the runner.
unfoldable pub take_resources : Task → Scheduler → Scheduler
take_resources chosen s = record s { resources = consume s.resources chosen.cpu chosen.ram }

abbrev pub claim_of : Task → Claim
claim_of t = record { cpu = t.cpu; ram = t.ram }

-- `execTask` after an error of the runner: the resources go back.
unfoldable pub exec_failed : ℤ → Claim → Task → Scheduler → Scheduler × Task
exec_failed now claim t s =
    put now (record t { status = Status.error }) (record s { releasing = claim ∷ s.releasing })

-- `execTask` after the runner has started the task: a goroutine waits for the run.
unfoldable pub exec_started : ℤ → Claim → Run → Task → Scheduler → Scheduler × Task
exec_started now claim run t s =
    let (s', t') = put now (record t { status = Status.running; start = now; run = some run }) s in
    (
      publish (Codec.string t'.status) t'.id
          (record s' { watchers = record { task = t'; run = run; claim = claim } ∷ s'.watchers }),
      t',
    )

-- The branch of `execTask` on the error of the runner. A runner without an error gives a run.
unfoldable pub exec_result : ℤ → Claim → Task × Option Run × Bool → Scheduler → Scheduler × Task
exec_result now claim (t, some run, true) s =
    exec_started now claim run (add_run_to_history (some run) t) s
exec_result now claim (t, run, _) s = exec_failed now claim (add_run_to_history run t) s

-- A timer for the waiting task that starts first, if there is one.
abbrev pub arm : ℤ → Option Task → Scheduler → Scheduler
arm now none s = s
arm now (some t) s = record s { timers = saturate (t.start -ℤ now) ∷ s.timers }

-- The deferred `cleanup`: the context of the resources is cancelled.
abbrev pub clean_up : Claim → Scheduler → Scheduler
clean_up c s = record s { releasing = c ∷ s.releasing }

abbrev pub first : List Task → Option Task
first [] = none
first (t ∷ _) = some t

abbrev pub clear_todo : Scheduler → Scheduler
clear_todo s = record s { todo = Todo.done s.todo }

module _ (env : Env) where
  -- `execTask`, with the scheduler and the task that it leaves.
  unfoldable pub exec_task : ℤ → Outcome → Task → Scheduler → Option (Scheduler × Task)
  exec_task now outcome chosen s = do
    result ← Runner.up env.formats now outcome chosen
    some (exec_result now (claim_of chosen) result (take_resources chosen s))

  -- The test of `readyToGo` on one task.
  unfoldable pub is_ready : ℤ → Resources → Task → Bool
  is_ready now r t = ltb_ℤ t.start now && (same t.status Status.waiting && is_doable r t.cpu t.ram)

  -- `readyToGo`
  unfoldable pub ready_to_go : ℤ → Scheduler → Option (List Task)
  ready_to_go now s = sort_by_karma (select env (is_ready now s.resources) s)

  unfoldable pub is_waiting : Task → Bool
  is_waiting t = same t.status Status.waiting

  -- `next`
  unfoldable pub next : Scheduler → Option (Option Task)
  next s =
      if JsonStore.size s.tasks == 0
      then some none
      else do ts ← sort_by_start (select env is_waiting s); some (first ts)

  -- `oneLoop` once it has a task to start.
  unfoldable pub exec_and_wake : ℤ → Outcome → Task → Scheduler → Option Scheduler
  exec_and_wake now outcome t s = do (s', _) ← exec_task now outcome t s; wake s'

  -- `oneLoop` where nothing is ready.
  unfoldable pub sleep : ℤ → Scheduler → Option Scheduler
  sleep now s = do n ← next s; some (arm now n s)

  abbrev pub dispatch : ℤ → Outcome → List Task → Scheduler → Option Scheduler
  dispatch now outcome [] s = sleep now s
  dispatch now outcome (t ∷ _) s = exec_and_wake now outcome t s

  -- `oneLoop`
  unfoldable pub one_loop : ℤ → Outcome → Scheduler → Option Scheduler
  one_loop now outcome s = do
    let s1 = clear_todo s
    todos ← ready_to_go now s1
    dispatch now outcome todos s1

  -- The task of a watcher once its run has ended with a status.
  unfoldable pub settle : ℤ → Status.Status → Task → Task
  settle now status t =
      let t' = record t { status = status } in
      if has_cron t'
      then prepare_reschedule env.registry.cron now (record t' { status = Status.waiting })
      else t'

  -- The goroutine of `execTask` after `run.Wait` has returned `status`: it stores the task, tells
  -- the subscribers, wakes the loop and cleans up. The task points to the run, which `Wait` may have
  -- changed: `ended` is the run as `Wait` leaves it.
  unfoldable pub finish : ℤ → ℕ → Status.Status → Run → Scheduler → Option Scheduler
  finish now i status ended s = do
    (w, watchers) ← take_at i s.watchers
    let (s', t') =
        put now (settle now status (record w.task { run = some ended }))
          (record s { watchers = watchers })
    s'' ← wake (publish (Codec.string t'.status) t'.id s')
    some (clean_up w.claim s'')

-- The goroutine of `Consume` after its context is cancelled.
unfoldable pub give_back : ℕ → Scheduler → Option Scheduler
give_back i s = do
  (c, rest) ← take_at i s.releasing
  some (record s { resources = release s.resources c.cpu c.ram; releasing = rest })

-- A timer runs out.
unfoldable pub ring : ℕ → Scheduler → Option Scheduler
ring i s = do (_, rest) ← take_at i s.timers; wake (record s { timers = rest })
