-- ===== src/Scheduler/Keeps.antt =====
-- The client operations of scheduler/scheduler.go and the invariant of the books.
use batch_scheduler.Base.{
  Bool, true, false, Option, none, some, ◌≡◌, All, arith, String, Bool-cases, Option-cases, inl,
  inr,
}
use batch_scheduler.Base.Outcome.{Result-cases}
use batch_scheduler.Base.Sort.{Holds, Holds-bind, ◌>>=◌}
use batch_scheduler.Base.Int.{ℤ, pos, ◌<ℤ◌}
use batch_scheduler.Status
use batch_scheduler.Status.{same}
use batch_scheduler.Task.{Task}
use batch_scheduler.Resources.{check, check-eq-none}
use batch_scheduler.JsonStore
use batch_scheduler.JsonStore.Reading.{
  IsSound, IsSoundDoc, put-IsSound, delete-IsSound, get-IsSound, delete_with_clause-IsSound,
}
use batch_scheduler.Scheduler.{
  Scheduler, Env, wake, refusal, add_with_id, add, cancel, delete, flush, call_cancel, MemoryStore,
  Todo, ping, answer_add, cancel_if, is_old, CancelFunc, down_and_mark_canceled,
}
use batch_scheduler.Scheduler.Invariant.{Inv, Held}
use batch_scheduler.JsonStore.{Doc}

wake_result :
    (P : Scheduler → Type 0) (s : Scheduler) (r : Option (Todo × Bool))
    → ((todo : Todo) → P (record s { todo = todo }))
    → Holds P (r >>= λ (todo, _). some (record s { todo = todo }))
wake_result P s none h = tt
wake_result P s (some (todo, _)) h = h todo

-- A wake-up changes the flag only.
pub wake_ind :
    (P : Scheduler → Type 0) (s : Scheduler)
    → ((todo : Todo) → P (record s { todo = todo }))
    → Holds P (wake s)
unfolding wake
wake_ind P s h = wake_result P s (ping s.todo) h

refusal_parts :
    (s : Scheduler) (t : Task)
    → refusal s t ≡ none
    → (check s.resources t.cpu t.ram ≡ none) × (pos 0 <ℤ t.max_exection_time)
unfolding refusal
refusal_parts s t e = ground arith

-- What `Add` accepts is sound.
pub refusal-IsSound : (s : Scheduler) (t : Task) → refusal s t ≡ none → IsSound t
refusal-IsSound s t e =
    let (accepted, time) = refusal_parts s t e in
    let (cpu, _, ram, _) = (check-eq-none s.resources t.cpu t.ram).0 accepted in
    record { needs_cpu = cpu; needs_ram = ram; needs_time = time }

module _ {P : Held} where
  pub wake-Inv : (s : Scheduler) → Inv P s → Holds (Inv P) (wake s)
  wake-Inv s h = wake_ind (Inv P) s (λ _. record { books = h.books; stored = h.stored })

  answer_add-Inv :
      (id : String) (s : Scheduler) (p : Task × MemoryStore Doc × Option JsonStore.Error)
      → Inv P s
      → All IsSoundDoc p.1.kv
      → Holds (λ r. Inv P r.0) (answer_add id s p)
  answer_add-Inv id s (t, tasks, some e) h all = record { books = h.books; stored = all }
  answer_add-Inv id s (t, tasks, none) h all =
      Holds-bind (Inv P) (λ r. Inv P r.0) (wake (record s { tasks = tasks })) _
        (wake-Inv _ (record { books = h.books; stored = all }))
        (λ u hu. record { books = hu.books; stored = hu.stored })

  pub add-Inv :
      (now : ℤ) (random : Option String) (t : Task) (s : Scheduler)
      → Inv P s
      → Holds (λ r. Inv P r.0) (add now random t s)
  unfolding add add_with_id
  add-Inv now random t s h = elim (Option-cases (refusal s t)) [
    | inr (e, refused) ↦ rw (refused, add) h
    | inl accepted ↦ elim (Option-cases random) [
      | inl none_left ↦ rw (accepted, add) (rw (none_left, add) h)
      | inr (id, given) ↦
          rw (accepted, add)
            (rw (given, add)
              (answer_add-Inv id s
                (JsonStore.put now (record t { id = id; status = Status.waiting; mtime = now })
                  s.tasks)
                h (put-IsSound now _ s.tasks (restatus (refusal-IsSound s t accepted)) h.stored).0))
    ]
  ]
    where
      restatus :
          {id : String}
          → IsSound t
          → IsSound (record t { id = id; status = Status.waiting; mtime = now })
      restatus k = record {
        needs_cpu = k.needs_cpu;
        needs_ram = k.needs_ram;
        needs_time = k.needs_time;
      }

module _ (env : Env) where
  called-IsSound :
      (t : Task) (b : Bool) (c : CancelFunc) (now : ℤ)
      → IsSound t
      → IsSound (record (cancel_if env b (record t { cancel = some c })) { mtime = now })
  unfolding call_cancel
  called-IsSound t true c now h = record {
    needs_cpu = h.needs_cpu;
    needs_ram = h.needs_ram;
    needs_time = h.needs_time;
  }
  called-IsSound t false c now h = record {
    needs_cpu = h.needs_cpu;
    needs_ram = h.needs_ram;
    needs_time = h.needs_time;
  }

module _ {P : Held} (env : Env) where
  pub cancel-Inv : (now : ℤ) (id : String) (s : Scheduler) → Inv P s → Inv P (cancel env now id s).0
  unfolding cancel
  cancel-Inv now id s h = elim (Result-cases (JsonStore.get env.registry s.tasks id)) [
    | inr (e, failed) ↦ rw (failed, cancel) h
    | inl (found, read) ↦ elim (Option-cases found) [
      | inl missing ↦ rw (read, cancel) (rw (missing, cancel) h)
      | inr (t, here) ↦
          let sound = get-IsSound env.registry s.tasks id t h.stored (rw here at read) in
          rw (read, cancel)
            (rw (here, cancel)
              (elim (Bool-cases (same t.status Status.canceled)) [
                | inl over ↦ rw over h
                | inr live ↦ rw live (record {
                  books = h.books;
                  stored =
                      (put-IsSound now _ s.tasks
                        (called-IsSound env t _ down_and_mark_canceled now sound) h.stored).0;
                })
              ]))
    ]
  ]

  pub delete-Inv : (id : String) (s : Scheduler) → Inv P s → Inv P (delete env id s).0
  unfolding delete
  delete-Inv id s h = elim (Result-cases (JsonStore.get env.registry s.tasks id)) [
    | inr (e, failed) ↦ rw (failed, delete) h
    | inl (found, read) ↦ elim (Option-cases found) [
      | inl missing ↦ rw (read, delete) (rw (missing, delete) h)
      | inr (t, here) ↦
          rw (read, delete)
            (rw (here, delete)
              (record { books = h.books; stored = delete-IsSound s.tasks id h.stored }))
    ]
  ]

  pub flush-Inv :
      (now age : ℤ) (s : Scheduler) → Inv P s → Holds (λ r. Inv P r.0) (flush env now age s)
  unfolding flush
  flush-Inv now age s h =
      Holds-bind (λ tasks. All IsSoundDoc tasks.kv) (λ r. Inv P r.0)
        (JsonStore.delete_with_clause env.registry (is_old now age) s.tasks) _
        (delete_with_clause-IsSound env.registry (is_old now age) s.tasks h.stored)
        (λ tasks all. record { books = h.books; stored = all })
