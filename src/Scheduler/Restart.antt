-- ===== src/Scheduler/Restart.antt =====
-- scheduler/scheduler.go: a scheduler that loads the tasks of an earlier one, is started, and runs.
use batch_scheduler.Base.{
  ℕ, Option, none, some, List, [], ◌∷◌, ◌≡◌, All, ◌≤◌, ◌<◌, ◌^◌, subst, Bool-cases, inl, inr, arith,
  if◌then◌else◌, Bool, true, false,
}
use batch_scheduler.Base.Int.{ℤ, pos, pos_part}
use batch_scheduler.Base.Sort.{Holds, Holds-bind, Holds-bind_eq, ◌>>=◌}
use batch_scheduler.JsonStore.{Doc}
use batch_scheduler.JsonStore
use batch_scheduler.Store.{MemoryStore}
use batch_scheduler.JsonStore.Reading.{IsSound, IsSoundDoc, readable, put-IsSound, delete-IsSound}
use batch_scheduler.Resources.{new_resources}
use batch_scheduler.Runner.{Outcome}
use batch_scheduler.Scheduler.{Env, Scheduler, new}
use batch_scheduler.Scheduler as S
use batch_scheduler.Scheduler.Capacity.{
  ready_to_go-Fits, AddsUp, new_resources-Books, IsSafe-AddsUp, Reach-IsSafe,
}
use batch_scheduler.Scheduler.Invariant.{Books, Inv, Fits, WithTotals, Held}
use batch_scheduler.Scheduler.Load.{
  Probe, Loading, Stop, delete_all, put_all, load_tasks, store_loaded, load, start, failed, panics,
  status_failed,
}
use batch_scheduler.Scheduler.LoadKeeps.{claimed, IsLoading, load_each-IsLoading, Goes}
use batch_scheduler.Scheduler.Loop.{clear_todo, ready_to_go, one_loop, dispatch}
use batch_scheduler.Scheduler.LoopKeeps.{exec_and_wake-Inv, sleep-Inv}
use batch_scheduler.Scheduler.System.{System, Reach, idle}
use batch_scheduler.Task.{Task}

else_branch :
    {A : Type 0} (b : Bool) (x y : A) {z : A} → b ≡ false → (if b then x else y) ≡ z → y ≡ z
else_branch true x y h e = cc
else_branch false x y h e = e

pub start-Inv : {P : Held} (s : Scheduler) {s' : Scheduler} → start s ≡ some s' → Inv P s → Inv P s'
unfolding start
start-Inv {P} s e h = elim (Bool-cases s.started) [
  | inl already ↦ absurd (ground (arith, already, e))
  | inr stopped ↦
      subst (Holds (Inv P)) (rw (stopped) at e) (record { books = h.books; stored = h.stored })
]

module _ (env : Env) (now : ℤ) (probe : Probe) (outcome : Task → Outcome) (locks : Bool)
    (c m : ℤ) where
  delete_all-Inv :
      (ts : List Task) (s : Scheduler)
      → Inv (WithTotals c m Books) s
      → Inv (WithTotals c m Books) (delete_all env now probe outcome locks ts s)
  unfolding delete_all
  delete_all-Inv [] s h = h
  delete_all-Inv (t ∷ ts) s h =
      delete_all-Inv ts (record s { tasks = JsonStore.delete s.tasks t.id })
        (record { books = h.books; stored = delete-IsSound s.tasks t.id h.stored })

  -- One round of the loop that stores the tasks.
  put_next :
      (ts : List Task) (s : Scheduler) (refused : Option JsonStore.Error)
      → Inv (WithTotals c m Books) s
      → (Inv (WithTotals c m Books) s
          → Inv (WithTotals c m Books) (put_all env now probe outcome locks ts s).0)
      → let r : Scheduler × Option S.Error = elim refused [
        | none ↦ put_all env now probe outcome locks ts s
        | some e ↦ (s, some (S.store e))
      ] in
        Inv (WithTotals c m Books) r.0
  put_next ts s none h k = k h
  put_next ts s (some e) h k = h

  put_all-Inv :
      (ts : List Task) (s : Scheduler)
      → All IsSound ts
      → Inv (WithTotals c m Books) s
      → Inv (WithTotals c m Books) (put_all env now probe outcome locks ts s).0
  unfolding put_all
  put_all-Inv [] s all h = h
  put_all-Inv (t ∷ ts) s all h =
      put_next ts (record s { tasks = (JsonStore.put now t s.tasks).1 })
        (JsonStore.put now t s.tasks).2
        (record { books = h.books; stored = (put-IsSound now t s.tasks all.0 h.stored).0 })
        (λ k. put_all-Inv ts _ all.1 k)

  dispatch-Inv :
      (first : Outcome) (ts : List Task) (s : Scheduler)
      → Inv (WithTotals c m Books) s
      → All (λ t. IsSound t × Fits t s.resources) ts
      → Holds (Inv (WithTotals c m Books)) (dispatch env now first ts s)
  dispatch-Inv first [] s h fit = sleep-Inv env now s h
  dispatch-Inv first (t ∷ ts) s h fit =
      exec_and_wake-Inv env c m now first t s (record {
        books = ((h.books.0, fit.0.0, fit.0.1), h.books.1, h.books.2);
        stored = h.stored;
      })

  -- An iteration of the main loop keeps the books.
  one_loop-Inv :
      (first : Outcome) (s : Scheduler)
      → Inv (WithTotals c m Books) s
      → Holds (Inv (WithTotals c m Books)) (one_loop env now first s)
  unfolding one_loop
  one_loop-Inv first s h =
      let s1 = clear_todo s in
      let h1 : Inv (WithTotals c m Books) s1 = record { books = h.books; stored = h.stored } in
      Holds-bind_eq (Inv (WithTotals c m Books)) (ready_to_go env now s1) _
        (λ ts found. dispatch-Inv first ts s1 h1 (ready_to_go-Fits env now s1 h1.stored found))

  store_loaded-Inv :
      (first : Outcome) (l : Loading)
      → IsLoading c m probe [] l
      → Holds
          (λ r. Inv (WithTotals c m Books) r.0)
          (store_loaded env now probe outcome locks first l)
  unfolding store_loaded
  store_loaded-Inv first l h =
      finished
        (put_all env now probe outcome locks l.update
          (delete_all env now probe outcome locks l.garbage l.scheduler))
        (put_all-Inv l.update _ h.update (delete_all-Inv l.garbage l.scheduler h.room.inv))
    where
      finished :
          (r : Scheduler × Option S.Error)
          → Inv (WithTotals c m Books) r.0
          → Holds {A = Scheduler × Option Stop}
              (λ r. Inv (WithTotals c m Books) r.0)
              (elim r.1 [
                | some e ↦ some (r.0, some (failed e))
                | none ↦ do s'' ← one_loop env now first r.0; some (s'', none)
              ])
      finished (s, some e) k = k
      finished (s, none) k =
          Holds-bind (Inv (WithTotals c m Books)) (λ r. Inv (WithTotals c m Books) r.0)
            (one_loop env now first s) _ (one_loop-Inv first s k) (λ u h. h)

  pub load-Inv :
      (first : Outcome) (s : Scheduler)
      → Inv (WithTotals c m Books) s
      → claimed (λ t. t.cpu) probe (readable env.registry s.tasks.kv) ≤ pos_part s.resources.cpu
      → claimed (λ t. t.ram) probe (readable env.registry s.tasks.kv) ≤ pos_part s.resources.ram
      → {s' : Scheduler} → load env now probe outcome locks first s ≡ some (s', none)
      → Inv (WithTotals c m Books) s'
  unfolding load load_tasks
  load-Inv first s h cpu ram {s'} e = elim (Bool-cases s.started) [
    | inl already ↦ absurd (ground (arith, already, e))
    | inr fresh ↦
        loaded (load_tasks env now probe outcome locks s)
          (load_each-IsLoading env now probe outcome locks c m s.tasks.kv _ h.stored
            (record { room = record { inv = h; cpu = cpu; ram = ram }; update = tt }))
          (else_branch s.started _ _ fresh e)
  ]
    where
      loaded :
          (r : Loading × Option Stop)
          → Goes env now probe outcome locks c m [] r
          → ◌≡◌ {A = Option (Scheduler × Option Stop)}
              (elim r.1 [
                | none ↦ store_loaded env now probe outcome locks first r.0
                | some panics ↦ none
                | some e ↦ some (r.0.scheduler, some e)
              ])
              (some (s', none))
          → Inv (WithTotals c m Books) s'
      loaded (l, none) k e =
          subst (Holds (λ r. Inv (WithTotals c m Books) r.0)) e (store_loaded-Inv first l k)
      loaded (l, some panics) k e = cc
      loaded (l, some (failed f)) k e = absurd (ground arith)
      loaded (l, some status_failed) k e = absurd (ground arith)

module _ (env : Env) (now : ℤ) (probe : Probe) (outcome : Task → Outcome) (locks : Bool) where
  -- A new scheduler has totals that are 64-bit numbers and at least 0, on a store whose tasks all
  -- ask for a positive CPU, RAM and execution time; and the stored tasks whose runs `Load` finds
  -- running ask together for no more than the totals. Where `Load` succeeds, whatever the runner
  -- answers and whether or not the store locks, and the scheduler is then started, in every state that clients, the main loop, its
  -- goroutines and timers can reach the CPU held by running and ending tasks and the free CPU add up
  -- to the total, and the free CPU is not negative; and so for the RAM.
  pub Reach-capacity_loaded :
      (first : Outcome) (cpu ram : ℕ) (tasks : MemoryStore Doc)
      → cpu < 2 ^ 63
      → ram < 2 ^ 63
      → All IsSoundDoc tasks.kv
      → claimed (λ t. t.cpu) probe (readable env.registry tasks.kv) ≤ cpu
      → claimed (λ t. t.ram) probe (readable env.registry tasks.kv) ≤ ram
      → {loaded started : Scheduler}
      → load env now probe outcome locks first (new (new_resources (pos cpu) (pos ram)) tasks)
        ≡ some (loaded, none)
      → start loaded ≡ some started
      → {y : System} → Reach env (record { scheduler = started; place = idle }) y
      → AddsUp cpu ram y.scheduler
  unfolding new new_resources
  Reach-capacity_loaded first cpu ram tasks c m sound fits_cpu fits_ram {loaded} {started} e f {y}
        reach =
      IsSafe-AddsUp env cpu ram y (
        Reach-IsSafe env (pos cpu) (pos ram)
          (start-Inv loaded f (
            load-Inv env now probe outcome locks (pos cpu) (pos ram) first _ fresh fits_cpu fits_ram
              e))
          reach)
    where
      fresh :
          Inv (WithTotals (pos cpu) (pos ram) Books) (new (new_resources (pos cpu) (pos ram)) tasks)
      fresh = record { books = new_resources-Books env cpu ram c m; stored = sound }
