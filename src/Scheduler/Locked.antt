-- ===== src/Scheduler/Locked.antt =====
-- scheduler/scheduler.go with store/memory.go: `Load` over a store whose ranges lock it.
use batch_scheduler.Base.{true, Option, some, [], ◌∷◌, ◌≡◌, ◌⊎◌, String}
use batch_scheduler.Base.Int.{ℤ}
use batch_scheduler.Base.Dict.{Dict}
use batch_scheduler.Base.Outcome.{ok}
use batch_scheduler.JsonStore
use batch_scheduler.JsonStore.{Doc, parse_task}
use batch_scheduler.Store
use batch_scheduler.Runner.{Outcome}
use batch_scheduler.Scheduler.{Env, Scheduler}
use batch_scheduler.Scheduler as S
use batch_scheduler.Scheduler.Load.{
  RunStatus, running, Probe, Loading, run_status, load_task, Stop, failed,
}
use batch_scheduler.Task.{Task}
use batch_scheduler.Task.Codec.{Registry}

-- The stored value is a task, and its run tells its state.
abbrev pub IsHeard : Registry → Probe → String × Doc → Type 0
IsHeard reg probe (k, doc) =
    (t : Task) × (status : RunStatus) × (exit : ℤ) × (parse_task reg doc ≡ ok t)
    × (run_status probe t ≡ some (status, exit))

-- The stored value is a task whose run is found running.
abbrev pub IsRunning : Registry → Probe → String × Doc → Type 0
IsRunning reg probe (k, doc) =
    (t : Task) × (exit : ℤ) × (parse_task reg doc ≡ ok t)
    × (run_status probe t ≡ some (running, exit))

abbrev pub HasRunning : Registry → Probe → Dict Doc → Type 0
HasRunning reg probe [] = ⊥
HasRunning reg probe (entry ∷ kv) = IsRunning reg probe entry ⊎ HasRunning reg probe kv

module _ (env : Env) (now : ℤ) (probe : Probe) (outcome : Task → Outcome) where
  abbrev locked_task : Loading → Task → Loading × Option Stop
  locked_task = load_task env now probe outcome true

  abbrev each : Loading → Dict Doc → Loading × Option Stop
  each l kv = JsonStore.for_each env.registry (λ e. failed (S.store e)) locked_task l kv
