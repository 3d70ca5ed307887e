-- ===== src/Scheduler/System.antt =====
-- The scheduler under its clients, its main loop, its goroutines and its timers, as steps in any
-- order. One iteration of the main loop is three steps: it receives a message, it looks for a task
-- (`oneLoop` up to `readyToGo`), and it starts the task that it has chosen. Clients, goroutines and
-- timers may come in between.
use batch_scheduler.Base.{ℕ, true, Option, some, List, [], ◌∷◌, ◌≡◌, String}
use batch_scheduler.Base.Outcome.{Result}
use batch_scheduler.Base.Int.{ℤ}
use batch_scheduler.Status.{Status}
use batch_scheduler.Todo.{Todo, receive}
use batch_scheduler.Store.{MemoryStore}
use batch_scheduler.JsonStore.{Doc}
use batch_scheduler.Task.{Task}
use batch_scheduler.Resources.{Resources}
use batch_scheduler.Runner.{Outcome}
use batch_scheduler.Scheduler.{Env, Scheduler, Error, new, add, cancel, delete, flush, Run}
use batch_scheduler.Scheduler.Loop.{
  clear_todo, ready_to_go, sleep, exec_and_wake, finish, give_back, ring,
}
use batch_scheduler.Scheduler.Load.{stop}

-- Where the main loop is.
pub data Place : Type 0 where
  idle awake : Place
  chosen : Task → Place

pub record System : Type 0 where
  pub scheduler : Scheduler
  pub place : Place

-- A scheduler that has been started on resources and a store.
abbrev pub started_system : Resources → MemoryStore Doc → System
started_system r tasks = record {
  scheduler = record (new r tasks) { started = true };
  place = idle;
}

module _ (env : Env) where
  pub data Step (x : System) : System → Type 0 where
    adds :
        (now : ℤ) (random : Option String) (t t' : Task) (answer : Result Error String)
        {s : Scheduler}
        → add now random t x.scheduler ≡ some (s, t', answer)
        → Step x (record x { scheduler = s })
    cancels :
        (now : ℤ) (id : String)
        → Step x (record x { scheduler = (cancel env now id x.scheduler).0 })
    deletes : (id : String) → Step x (record x { scheduler = (delete env id x.scheduler).0 })
    flushes :
        (now age : ℤ) (n : ℕ) {s : Scheduler}
        → flush env now age x.scheduler ≡ some (s, n)
        → Step x (record x { scheduler = s })
    wakes :
        {todo : Todo}
        → x.place ≡ idle
        → receive x.scheduler.todo ≡ some todo
        → Step x (record { scheduler = record x.scheduler { todo = todo }; place = awake })
    chooses :
        (now : ℤ) (t : Task) (ts : List Task)
        → x.place ≡ awake
        → ready_to_go env now (clear_todo x.scheduler) ≡ some (t ∷ ts)
        → Step x (record { scheduler = clear_todo x.scheduler; place = chosen t })
    rests :
        (now : ℤ) {s : Scheduler}
        → x.place ≡ awake
        → ready_to_go env now (clear_todo x.scheduler) ≡ some []
        → sleep env now (clear_todo x.scheduler) ≡ some s
        → Step x (record { scheduler = s; place = idle })
    execs :
        (now : ℤ) (outcome : Outcome) (t : Task) {s : Scheduler}
        → x.place ≡ chosen t
        → exec_and_wake env now outcome t x.scheduler ≡ some s
        → Step x (record { scheduler = s; place = idle })
    finishes :
        (now : ℤ) (i : ℕ) (status : Status) (ended : Run) {s : Scheduler}
        → finish env now i status ended x.scheduler ≡ some s
        → Step x (record x { scheduler = s })
    gives_back :
        (i : ℕ) {s : Scheduler}
        → give_back i x.scheduler ≡ some s
        → Step x (record x { scheduler = s })
    rings :
        (i : ℕ) {s : Scheduler} → ring i x.scheduler ≡ some s → Step x (record x { scheduler = s })
    stops : x.place ≡ idle → Step x (record x { scheduler = stop x.scheduler })

  pub data Reach (x : System) : System → Type 0 where
    here : Reach x x
    later : {y z : System} → Reach x y → Step y z → Reach x z
