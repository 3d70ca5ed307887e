-- ===== src/Scheduler/Selecting.antt =====
-- The loops over the stored tasks in `List`, `Filter`, `readyToGo` and `next` against their meaning:
-- the readable tasks of the store that pass a test.
use batch_scheduler.Base.{Bool, [], ◌≡◌, refl, sift}
use batch_scheduler.Task.{Task}
use batch_scheduler.JsonStore.Reading.{readable}
use batch_scheduler.JsonStore.Laws.{for_each-collect}
use batch_scheduler.Scheduler.{Env, Scheduler, select, collect}

module _ (env : Env) where
  -- The loop over the stored tasks selects the tasks that pass the test, in the order of the store,
  -- out of those before the first stored value that cannot be read.
  pub select-sift :
      (keep : Task → Bool) (s : Scheduler)
      → select env keep s ≡ sift keep (readable env.registry s.tasks.kv)
  unfolding select collect
  select-sift keep s =
      for_each-collect env.registry (λ e. e) keep (collect env keep) (λ ts t. refl) s.tasks.kv []
