-- ===== src/Scheduler/Capacity.antt =====
-- What the running tasks hold of the resources, in every reachable state of scheduler/scheduler.go.
use batch_scheduler.Base.{
  ℕ, ◌+◌, Bool, true, some, List, [], ◌≡◌, refl, All, arith, subst, ◌<◌, ◌^◌, ap,
}
use batch_scheduler.Base.Sort.{Holds}
use batch_scheduler.Base.Int.{ℤ, pos, pos_part, neg_part}
use batch_scheduler.Store.{MemoryStore}
use batch_scheduler.Task.{Task}
use batch_scheduler.Task.Order.{sort_by_karma, karma}
use batch_scheduler.Resources.{Resources, new_resources, is_doable}
use batch_scheduler.JsonStore.{Doc}
use batch_scheduler.JsonStore.Reading.{IsSoundDoc, IsSound, readable-IsSound}
use batch_scheduler.Scheduler.{Env, Scheduler, select, Watcher, new, Claim}
use batch_scheduler.Scheduler.Loop.{ready_to_go, is_ready, clear_todo}
use batch_scheduler.Scheduler.Load.{stop}
use batch_scheduler.Scheduler.Accounts.{total}
use batch_scheduler.Scheduler.Invariant.{
  Held, Inv, IsStable, Books, BooksFor, Books-IsStable, BooksFor-IsStable, held_cpu, held_ram, Fits,
  WithTotals, WithTotals-IsStable,
}
use batch_scheduler.Base.Sort.{All-sort}
use batch_scheduler.Scheduler.Selecting.{select-sift}
use batch_scheduler.Base.{All-map, All-sift}
use batch_scheduler.Scheduler.Keeps.{add-Inv, cancel-Inv, delete-Inv, flush-Inv}
use batch_scheduler.Scheduler.LoopKeeps.{
  exec_and_wake-Inv, sleep-Inv, finish-Inv, give_back-Inv, ring-Inv,
}
use batch_scheduler.Scheduler.System.{
  System, Place, idle, awake, chosen, started_system, Step, adds, cancels, deletes, flushes, wakes,
  chooses, rests, execs, finishes, gives_back, rings, stops, Reach, here, later,
}

-- What holds of the books at a place of the main loop: a chosen task fits.
abbrev pub AtPlace : Place → Held
AtPlace idle = Books
AtPlace awake = Books
AtPlace (chosen t) = BooksFor t

AtPlace-IsStable : (p : Place) → IsStable (AtPlace p)
AtPlace-IsStable idle = Books-IsStable
AtPlace-IsStable awake = Books-IsStable
AtPlace-IsStable (chosen t) = BooksFor-IsStable t

-- The same with the totals.
abbrev pub KnownAt : ℤ → ℤ → Place → Held
KnownAt cpu ram p = WithTotals cpu ram (AtPlace p)

KnownAt-IsStable : (cpu ram : ℤ) (p : Place) → IsStable (KnownAt cpu ram p)
KnownAt-IsStable cpu ram p = WithTotals-IsStable cpu ram (AtPlace-IsStable p)

abbrev pub IsSafe : ℤ → ℤ → System → Type 0
IsSafe cpu ram x = Inv (KnownAt cpu ram x.place) x.scheduler

is_ready-Fits :
    (env : Env) (now : ℤ) (r : Resources) (t : Task) → is_ready env now r t ≡ true → Fits t r
unfolding is_ready is_doable
is_ready-Fits env now r t e = ground arith

-- Free and held resources add up to the totals, and what is free is not negative.
abbrev pub AddsUp : ℕ → ℕ → Scheduler → Type 0
AddsUp cpu ram s =
    let r = s.resources in
    (pos_part r.cpu + held_cpu s.watchers s.releasing ≡ cpu)
    × (neg_part r.cpu ≡ 0)
    × (pos_part r.ram + held_ram s.watchers s.releasing ≡ ram)
    × (neg_part r.ram ≡ 0)

module _ (env : Env) where
  -- On a store whose tasks all ask for a positive CPU, RAM and execution time, every task that
  -- `readyToGo` gives does so too, and there is room for it in the free resources.
  pub ready_to_go-Fits :
      (now : ℤ) (s : Scheduler) {ts : List Task}
      → All IsSoundDoc s.tasks.kv
      → ready_to_go env now s ≡ some ts
      → All (λ t. IsSound t × Fits t s.resources) ts
  unfolding ready_to_go sort_by_karma
  ready_to_go-Fits now s h e =
      All-sort (λ t. IsSound t × Fits t s.resources) karma (select env ready s) e
        (rw (select-sift env ready s) (
          All-map (λ t. IsSound t × (ready t ≡ true)) (λ t. IsSound t × Fits t s.resources)
            (λ t (sound, kept). (sound, ready-Fits t kept)) _
            (All-sift IsSound ready _ (readable-IsSound env.registry s.tasks.kv h))))
    where
      ready : Task → Bool
      ready = is_ready env now s.resources

      ready-Fits : (t : Task) → is_ready env now s.resources t ≡ true → Fits t s.resources
      ready-Fits t kept = is_ready-Fits env now s.resources t kept

  Step-IsSafe : (cpu ram : ℤ) {x y : System} → Step env x y → IsSafe cpu ram x → IsSafe cpu ram y
  Step-IsSafe cpu ram {x} (adds now random t t' answer e) h =
      subst (Holds (λ r. Inv (KnownAt cpu ram x.place) r.0)) e (add-Inv now random t x.scheduler h)
  Step-IsSafe cpu ram {x} (cancels now id) h = cancel-Inv env now id x.scheduler h
  Step-IsSafe cpu ram {x} (deletes id) h = delete-Inv env id x.scheduler h
  Step-IsSafe cpu ram {x} (flushes now age n e) h =
      subst (Holds (λ r. Inv (KnownAt cpu ram x.place) r.0)) e (flush-Inv env now age x.scheduler h)
  Step-IsSafe cpu ram {x} (wakes p e) h =
      let b = rw p at h.books in record { books = b; stored = h.stored }
  Step-IsSafe cpu ram {x} (chooses now t ts p e) h =
      let b = rw p at h.books in
      let (sound, fits) = (ready_to_go-Fits now (clear_todo x.scheduler) h.stored e).0 in
      record { books = ((b.0, sound, fits), b.1, b.2); stored = h.stored }
  Step-IsSafe cpu ram {x} (rests now p e f) h =
      let b = rw p at h.books in
      subst (Holds (Inv (WithTotals cpu ram Books))) f
        (sleep-Inv env now (clear_todo x.scheduler) (record { books = b; stored = h.stored }))
  Step-IsSafe cpu ram {x} (execs now outcome t p e) h =
      let b = rw p at h.books in
      subst (Holds (Inv (WithTotals cpu ram Books))) e (
        exec_and_wake-Inv env cpu ram now outcome t x.scheduler
          (record { books = b; stored = h.stored }))
  Step-IsSafe cpu ram {x} (finishes now i status ended e) h =
      subst (Holds (Inv (KnownAt cpu ram x.place))) e
        (finish-Inv env (KnownAt-IsStable cpu ram x.place) now i status ended x.scheduler h)
  Step-IsSafe cpu ram {x} (gives_back i e) h =
      subst (Holds (Inv (KnownAt cpu ram x.place))) e
        (give_back-Inv (KnownAt-IsStable cpu ram x.place) i x.scheduler h)
  Step-IsSafe cpu ram {x} (rings i e) h =
      subst (Holds (Inv (KnownAt cpu ram x.place))) e (ring-Inv i x.scheduler h)
  Step-IsSafe cpu ram {x} (stops p) h = unfold stop in record { books = h.books; stored = h.stored }

  pub Reach-IsSafe :
      (cpu ram : ℤ) {x y : System} → IsSafe cpu ram x → Reach env x y → IsSafe cpu ram y
  Reach-IsSafe cpu ram h here = h
  Reach-IsSafe cpu ram h (later r s) = Step-IsSafe cpu ram s (Reach-IsSafe cpu ram h r)

  AtPlace-Books :
      (p : Place) (r : Resources) (ws : List Watcher) (cs : List Claim)
      → AtPlace p r ws cs
      → Books r ws cs
  AtPlace-Books idle r ws cs b = b
  AtPlace-Books awake r ws cs b = b
  AtPlace-Books (chosen t) r ws cs b = b.0

  pub IsSafe-AddsUp :
      (cpu ram : ℕ) (y : System) → IsSafe (pos cpu) (pos ram) y → AddsUp cpu ram y.scheduler
  IsSafe-AddsUp cpu ram y h =
      let b = AtPlace-Books y.place _ _ _ h.books.0 in
      let (_, c, m) = h.books in
      (
        omega (arith, b.cpu.sums, ap pos_part c),
        b.cpu.nonnegative,
        omega (arith, b.ram.sums, ap pos_part m),
        b.ram.nonnegative,
      )

  pub new_resources-Books :
      (cpu ram : ℕ)
      → cpu < 2 ^ 63
      → ram < 2 ^ 63
      → WithTotals (pos cpu) (pos ram) Books (new_resources (pos cpu) (pos ram)) [] []
  unfolding new_resources total
  new_resources-Books cpu ram c m = (
    record {
      cpu = record { sums = omega arith; nonnegative = refl; representable = c };
      ram = record { sums = omega arith; nonnegative = refl; representable = m };
      watching = tt;
      releasing = tt;
    },
    refl,
    refl,
  )

  -- A scheduler starts on totals that are 64-bit numbers and at least 0, on a store whose tasks all
  -- ask for a positive CPU, RAM and execution time. Then in every state that clients, the main
  -- loop, its goroutines and timers can reach, in any interleaving and whatever the runner answers,
  -- the CPU held by running and ending tasks and the free CPU add up to this total, the free CPU is
  -- not negative, so that no more is held than there is; and so for the RAM.
  pub Reach-capacity :
      (cpu ram : ℕ) (tasks : MemoryStore Doc)
      → cpu < 2 ^ 63
      → ram < 2 ^ 63
      → All IsSoundDoc tasks.kv
      → {y : System} → Reach env (started_system (new_resources (pos cpu) (pos ram)) tasks) y
      → AddsUp cpu ram y.scheduler
  unfolding new
  Reach-capacity cpu ram tasks c m sound {y} reach = IsSafe-AddsUp cpu ram y (
      Reach-IsSafe (pos cpu) (pos ram)
        (record { books = new_resources-Books cpu ram c m; stored = sound }) reach)
