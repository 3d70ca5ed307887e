-- ===== src/Scheduler/LoopKeeps.antt =====
-- The main loop of scheduler/scheduler.go, its goroutines and its timers, and the invariant of the
-- books.
use batch_scheduler.Base.{ℕ, Bool, true, false, Option, none, some, ◌∷◌, ◌≡◌, refl, All, arith}
use batch_scheduler.Base.Sort.{Holds, Holds-bind, Holds-bind_eq}
use batch_scheduler.Base.Int.{ℤ}
use batch_scheduler.Status
use batch_scheduler.Resources.{Resources, consume}
use batch_scheduler.Status.{same}
use batch_scheduler.Task.{
  Task, Run, Formats, add_run_to_history, has_cron, prepare_reschedule, inject_predefined_env,
}
use batch_scheduler.JsonStore.Reading.{IsSound, IsSoundDoc, put-IsSound}
use batch_scheduler.Runner.{Outcome, mkdir_fails, recompose_fails, up_fails, comes_up}
use batch_scheduler.Runner
use batch_scheduler.Scheduler.{Claim, Scheduler, Env}
use batch_scheduler.Scheduler.Loop.{
  put, take_at, take_resources, claim_of, exec_failed, exec_started, exec_result, exec_task,
  exec_and_wake, settle, finish, give_back, ring, sleep, next, arm, clean_up,
}
use batch_scheduler.Scheduler.Invariant.{
  Books, Inv, take-Books, watch-Books, BooksFor, Held, IsStable, WithTotals, consumed-WithTotals,
}
use batch_scheduler.Scheduler.Keeps.{wake-Inv, wake_ind}

-- Two tasks with the same demands.
abbrev pub SameDemands : Task → Task → Type 0
SameDemands t u = (u.cpu ≡ t.cpu) × (u.ram ≡ t.ram) × (u.max_exection_time ≡ t.max_exection_time)

pub same-IsSound : (t u : Task) → SameDemands t u → IsSound t → IsSound u
same-IsSound t u (e1, e2, e3) h = record {
  needs_cpu = rw e1 h.needs_cpu;
  needs_ram = rw e2 h.needs_ram;
  needs_time = rw e3 h.needs_time;
}

inject-SameDemands :
    (formats : Formats) (now : ℤ) (t : Task)
    → Holds (SameDemands t) (inject_predefined_env formats now t)
unfolding inject_predefined_env
inject-SameDemands formats now t = ground arith

up-SameDemands :
    (formats : Formats) (now : ℤ) (outcome : Outcome) (t : Task)
    → Holds (λ r. SameDemands t r.0) (Runner.up formats now outcome t)
unfolding Runner.up inject_predefined_env
up-SameDemands formats now mkdir_fails t = (refl, refl, refl)
up-SameDemands formats now recompose_fails t = ground arith
up-SameDemands formats now (up_fails r) t = ground arith
up-SameDemands formats now (comes_up r) t = ground arith

history-SameDemands : (r : Option Run) (t : Task) → SameDemands t (add_run_to_history r t)
unfolding add_run_to_history
history-SameDemands none t = (refl, refl, refl)
history-SameDemands (some r) t = (refl, refl, refl)

settle-SameDemands :
    (env : Env) (now : ℤ) (status : Status.Status) (t : Task)
    → SameDemands t (settle env now status t)
unfolding settle has_cron prepare_reschedule
settle-SameDemands env now status t = ground arith

-- The books while a task that has been given resources is started.
abbrev Owing : Held → Claim → Scheduler → Type 0
Owing P c s = P s.resources s.watchers (c ∷ s.releasing) × All IsSoundDoc s.tasks.kv

-- What a start leaves: the books are kept, the task is sound, and the resources are as they were
-- when it was given its own.
abbrev pub IsStarted : Resources → Scheduler × Task → Type 0
IsStarted res r = Inv Books r.0 × IsSound r.1 × (r.0.resources ≡ res)

exec_failed-IsStarted :
    (now : ℤ) (c : Claim) (t : Task) (s : Scheduler)
    → Owing Books c s
    → IsSound t
    → IsStarted s.resources (exec_failed now c t s)
unfolding exec_failed put
exec_failed-IsStarted now c t s (b, all) h =
    let (stored, sound) = put-IsSound now _ s.tasks (same-IsSound t _ (refl, refl, refl) h) all in
    (record { books = b; stored = stored }, sound, refl)

exec_started-IsStarted :
    (now : ℤ) (c : Claim) (run : Run) (t : Task) (s : Scheduler)
    → Owing Books c s
    → IsSound t
    → IsStarted s.resources (exec_started now c run t s)
unfolding exec_started put
exec_started-IsStarted now c run t s (b, all) h =
    let (stored, sound) = put-IsSound now _ s.tasks (same-IsSound t _ (refl, refl, refl) h) all in
    (
      record { books = watch-Books s.resources s.watchers s.releasing _ b sound; stored = stored },
      sound,
      refl,
    )

exec_result-IsStarted :
    (now : ℤ) (c : Claim) (r : Task × Option Run × Bool) (s : Scheduler)
    → Owing Books c s
    → IsSound r.0
    → IsStarted s.resources (exec_result now c r s)
unfolding exec_result
exec_result-IsStarted now c (t, some run, true) s o h =
    exec_started-IsStarted now c run _ s o (same-IsSound t _ (history-SameDemands (some run) t) h)
exec_result-IsStarted now c (t, some run, false) s o h =
    exec_failed-IsStarted now c _ s o (same-IsSound t _ (history-SameDemands (some run) t) h)
exec_result-IsStarted now c (t, none, b) s o h =
    exec_failed-IsStarted now c _ s o (same-IsSound t _ (history-SameDemands none t) h)

module _ (env : Env) where
  -- Starting a task that fits keeps the books, whatever the runner answers.
  pub exec_task-IsStarted :
      (now : ℤ) (outcome : Outcome) (t : Task) (s : Scheduler)
      → Inv (BooksFor t) s
      → Holds (IsStarted (consume s.resources t.cpu t.ram)) (exec_task env now outcome t s)
  unfolding exec_task take_resources
  exec_task-IsStarted now outcome t s h =
      let (books, sound, fits) = h.books in
      Holds-bind (λ r. SameDemands t r.0) (IsStarted (consume s.resources t.cpu t.ram)) _ _
        (up-SameDemands env.formats now outcome t)
        (λ r same.
          exec_result-IsStarted now (claim_of t) r _
            (
              take-Books s.resources s.watchers s.releasing (claim_of t) books
                  (sound.needs_cpu, sound.needs_ram) fits,
              h.stored,
            )
            (same-IsSound t r.0 same sound))

  pub exec_and_wake-Inv :
      (cpu ram : ℤ) (now : ℤ) (outcome : Outcome) (t : Task) (s : Scheduler)
      → Inv (WithTotals cpu ram (BooksFor t)) s
      → Holds (Inv (WithTotals cpu ram Books)) (exec_and_wake env now outcome t s)
  unfolding exec_and_wake
  exec_and_wake-Inv cpu ram now outcome t s h =
      Holds-bind (IsStarted (consume s.resources t.cpu t.ram)) (Inv (WithTotals cpu ram Books)) _ _
        (exec_task-IsStarted now outcome t s (record { books = h.books.0; stored = h.stored }))
        (λ r (inv, _, taken). wake-Inv r.0 (record {
          books =
              consumed-WithTotals Books cpu ram s.resources r.0.resources t r.0.watchers
                r.0.releasing taken (h.books.1, h.books.2) inv.books;
          stored = inv.stored;
        }))

module _ {P : Held} (env : Env) where
  pub sleep-Inv : (now : ℤ) (s : Scheduler) → Inv P s → Holds (Inv P) (sleep env now s)
  unfolding sleep
  sleep-Inv now s h = Holds-bind_eq (Inv P) (next env s) _ (λ n _. asleep n)
    where
      asleep : (n : Option Task) → Inv P (arm now n s)
      asleep none = h
      asleep (some t) = record { books = h.books; stored = h.stored }

  -- The end of a run keeps the books: its claim waits to be given back.
  pub finish-Inv :
      IsStable P
      → (now : ℤ) (i : ℕ) (status : Status.Status) (ended : Run) (s : Scheduler) → Inv P s
      → Holds (Inv P) (finish env now i status ended s)
  unfolding finish put
  finish-Inv stable now i status ended s h =
      Holds-bind_eq (Inv P) (take_at i s.watchers) _ λ (w, rest) taken.
        let (b, sound) = stable.ends s.resources s.watchers rest s.releasing i w taken h.books in
        let kept =
          put-IsSound now _ s.tasks
            (same-IsSound w.task _
              (settle-SameDemands env now status (record w.task { run = some ended })) sound)
            h.stored in
        Holds-bind (Owing P w.claim) (Inv P) _ (λ u. some (clean_up w.claim u))
          (wake_ind (Owing P w.claim) _ (λ _. (b, kept.0)))
          (λ u o. record { books = o.0; stored = o.1 })

module _ {P : Held} where
  pub give_back-Inv : IsStable P → (i : ℕ) (s : Scheduler) → Inv P s → Holds (Inv P) (give_back i s)
  unfolding give_back
  give_back-Inv stable i s h = Holds-bind_eq (Inv P) (take_at i s.releasing) _ λ (c, rest) taken.
      record {
        books = stable.gives s.resources s.watchers s.releasing rest i c taken h.books;
        stored = h.stored;
      }

  pub ring-Inv : (i : ℕ) (s : Scheduler) → Inv P s → Holds (Inv P) (ring i s)
  unfolding ring
  ring-Inv i s h = Holds-bind_eq (Inv P) (take_at i s.timers) _ λ (_, rest) taken.
      wake-Inv (record s { timers = rest }) (record { books = h.books; stored = h.stored })
