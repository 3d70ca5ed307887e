-- ===== src/Scheduler/Progress.antt =====
-- What the main loop of scheduler/scheduler.go chooses, and how it goes on.
use batch_scheduler.Base.{
  true, false, some, List, [], ◌∷◌, ◌≡◌, refl, All, arith, subst, sift, ◌==◌, All-map, All-sift,
  ◌∙◌, length,
}
use batch_scheduler.Base.Dict.{Dict}
use batch_scheduler.Base.Sort.{sort_total, sort-perm, sort-IsSorted, KeyLe, IsSorted}
use batch_scheduler.Base.Int.{ℤ}
use batch_scheduler.Task.{Task}
use batch_scheduler.Task.Order.{sort_by_karma, karma, karma_total, sort_by_start, start_key}
use batch_scheduler.JsonStore.Reading.{IsSoundDoc, IsSound, readable, readable-IsSound}
use batch_scheduler.Scheduler.{Env, Scheduler, select}
use batch_scheduler.Scheduler.Loop.{ready_to_go, is_ready, is_waiting, next, sleep, arm}
use batch_scheduler.Scheduler.Selecting.{select-sift}
use mathlib.Core.List.{Perm}
use mathlib.Core.List.Perm
use batch_scheduler.Base.Sort.{sort}
use batch_scheduler.JsonStore
use batch_scheduler.Store

module _ (env : Env) where
  abbrev pub stored_tasks : Scheduler → List Task
  stored_tasks s = readable env.registry s.tasks.kv

  -- Where `readyToGo` gives a task, it gives the stored tasks that can start, each as often as it is
  -- stored, and one of smallest karma first.
  pub ready_to_go-perm :
      (now : ℤ) (s : Scheduler) (t : Task) (ts : List Task)
      → ready_to_go env now s ≡ some (t ∷ ts)
      → Perm (t ∷ ts) (sift (is_ready env now s.resources) (stored_tasks s))
        × All (KeyLe karma t) ts
  unfolding ready_to_go sort_by_karma
  ready_to_go-perm now s t ts e = (
    subst (Perm (t ∷ ts)) (select-sift env (is_ready env now s.resources) s)
        (sort-perm karma (select env (is_ready env now s.resources) s) e),
    (sort-IsSorted karma (select env (is_ready env now s.resources) s) e).0,
  )

  -- On a store whose tasks all ask for a positive CPU, RAM and execution time, `readyToGo` answers:
  -- the comparison of karmas in its sort never divides by zero.
  pub ready_to_go_total :
      (now : ℤ) (s : Scheduler)
      → All IsSoundDoc s.tasks.kv
      → (ts : List Task) × (ready_to_go env now s ≡ some ts)
  unfolding ready_to_go sort_by_karma
  ready_to_go_total now s h = sort_total karma (select env (is_ready env now s.resources) s) (
      rw (select-sift env (is_ready env now s.resources) s) (
        All-map (λ t. IsSound t × (is_ready env now s.resources t ≡ true)) _
          (λ t (sound, _). karma_total t sound.needs_time) _
          (All-sift IsSound (is_ready env now s.resources) _
            (readable-IsSound env.registry s.tasks.kv h))))

  start-HasKeys : (ts : List Task) → All (λ t. (k : ℤ) × (start_key t ≡ some k)) ts
  unfolding start_key
  start-HasKeys [] = tt
  start-HasKeys (t ∷ ts) = ((t.start, refl), start-HasKeys ts)

  size-pos :
      (s : Scheduler) (w : Task) (ws : List Task)
      → sift (is_waiting env) (stored_tasks s) ≡ w ∷ ws
      → (JsonStore.size s.tasks == 0) ≡ false
  unfolding JsonStore.size Store.size
  size-pos s w ws e = stored s.tasks.kv e
    where
      stored :
          (kv : Dict JsonStore.Doc)
          → sift (is_waiting env) (readable env.registry kv) ≡ w ∷ ws
          → (length kv == 0) ≡ false
      stored [] e = unfold readable sift in cc e
      stored (x ∷ kv) e = ground arith

  -- Where a stored task waits, the branch of the main loop that starts no task does not panic and
  -- arms a timer for a waiting task with the earliest start.
  pub sleep_arms :
      (now : ℤ) (s : Scheduler) (w : Task) (ws : List Task)
      → sift (is_waiting env) (stored_tasks s) ≡ w ∷ ws
      → (t : Task) × (others : List Task) × Perm (t ∷ others) (w ∷ ws)
        × All (KeyLe start_key t) others
        × (sleep env now s ≡ some (arm now (some t) s))
  unfolding sleep next sort_by_start
  sleep_arms now s w ws e =
      let (ts, sorted) = sort_total start_key (select env (is_waiting env) s) (start-HasKeys _) in
      let listed = select-sift env (is_waiting env) s ∙ e in
      let order = sort-IsSorted start_key _ sorted in
      let same = subst (Perm ts) listed (sort-perm start_key _ sorted) in
      earliest_first ts sorted order same
    where
      earliest_first :
          (ts : List Task)
          → sort start_key (select env (is_waiting env) s) ≡ some ts
          → IsSorted start_key ts
          → Perm ts (w ∷ ws)
          → (t : Task) × (others : List Task) × Perm (t ∷ others) (w ∷ ws)
            × All (KeyLe start_key t) others
            × (sleep env now s ≡ some (arm now (some t) s))
      earliest_first [] sorted order same = cc (Perm.nil-eq same)
      earliest_first (t ∷ ts) sorted order same = (
        t,
        ts,
        same,
        order.0,
        rw (size-pos s w ws e) (rw sorted (λ i. some (arm now (some t) s))),
      )
