-- ===== src/Runner.antt =====
-- runner/runner.go: `Up` prepares a task and starts its action. What the file system, the
-- recomposator and the action answer is the argument `outcome`.
use batch_scheduler.Base.{Bool, true, false, Option, none, some}
use batch_scheduler.Base.Int.{ℤ, pos, ◌+ℤ◌, int64}
use batch_scheduler.Base.Sort.{◌>>=◌}
use batch_scheduler.Task.{Task, Run, Formats, inject_predefined_env}

pub data Outcome : Type 0 where
  mkdir_fails recompose_fails : Outcome
  up_fails : Option Run → Outcome
  comes_up : Run → Outcome

-- `Up`: the task as it leaves it, the run, and whether there is no error; `none` is the panic on
-- a task with no action.
unfoldable pub up : Formats → ℤ → Outcome → Task → Option (Task × Option Run × Bool)
up formats now mkdir_fails t = some (t, none, false)
up formats now recompose_fails t = elim t.action [ none ↦ none | some _ ↦ some (t, none, false) ]
up formats now (up_fails r) t = do
  t' ← inject_predefined_env formats now (record t { run_counter = int64 (t.run_counter +ℤ pos 1) })
  some (t', r, false)
up formats now (comes_up r) t = do
  t' ← inject_predefined_env formats now (record t { run_counter = int64 (t.run_counter +ℤ pos 1) })
  some (t', some r, true)
