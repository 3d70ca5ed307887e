-- ===== src/Scheduler/LoadKeeps.antt =====
-- `Load` of scheduler/scheduler.go and the invariant of the books.
use batch_scheduler.JsonStore
use batch_scheduler.Store
use batch_scheduler.Scheduler as S
use batch_scheduler.Base.Outcome.{Result-cases}
use batch_scheduler.JsonStore.Laws.{for_each-round, for_each-unread}
use batch_scheduler.JsonStore.{Doc}
use batch_scheduler.Base.Dict.{Dict}
use batch_scheduler.Scheduler.Loop.{exec_task}
use batch_scheduler.Base.Sort.{Holds, Holds-map}
use batch_scheduler.Resources.{consume}
use batch_scheduler.Base.{
  ℕ, ◌+◌, Bool, true, false, Option, none, some, List, [], ◌∷◌, ◌≡◌, refl, All, sift, ◌≤◌,
  All-append, arith, Bool-cases, inr, inl, ◌&&◌, not, subst, sym, ap, Option-cases, if◌then◌else◌,
}
use batch_scheduler.Base.Int.{ℤ, pos_part}
use batch_scheduler.JsonStore.Reading.{IsSound, IsSoundDoc, readable, parse_task-IsSound}
use batch_scheduler.Scheduler.{Env, Scheduler}
use batch_scheduler.Scheduler.Accounts.{total, take-IsBalanced}
use batch_scheduler.Scheduler.Load.{
  RunStatus, running, paused, restarting, exited, dead, unkown, Probe, run_status, Loading,
  load_task, sort_out, compare_status, watch, push_update, Stop, panics, fresh_status, failed,
}
use batch_scheduler.Scheduler.LoopKeeps.{SameDemands, same-IsSound, exec_task-IsStarted, IsStarted}
use batch_scheduler.Status
use batch_scheduler.Status.{same}
use batch_scheduler.Scheduler.Invariant.{Books, Inv, Fits, WithTotals, consumed-WithTotals}
use batch_scheduler.Task.{Task, prepare_reschedule, CronParser, has_cron}
use batch_scheduler.Runner.{Outcome}

abbrev alive : Option (RunStatus × ℤ) → Bool
alive none = false
alive (some (running, exit)) = true
alive (some (_, exit)) = false

-- The task's run is found to be running.
abbrev pub is_alive : Probe → Task → Bool
is_alive probe t = alive (run_status probe t)

-- What the tasks with a running run ask for, of one resource.
abbrev pub claimed : (Task → ℤ) → Probe → List Task → ℕ
claimed amount probe ts = total amount (sift (is_alive probe) ts)

-- What is free covers the tasks that still have to be watched, and the books are kept.
pub record HasRoom (c m : ℤ) (probe : Probe) (ts : List Task) (s : Scheduler) : Type 0 where
  pub inv : Inv (WithTotals c m Books) s
  pub cpu : claimed (λ t. t.cpu) probe ts ≤ pos_part s.resources.cpu
  pub ram : claimed (λ t. t.ram) probe ts ≤ pos_part s.resources.ram

-- What holds between two rounds of the loop over the stored tasks.
pub record IsLoading (c m : ℤ) (probe : Probe) (ts : List Task) (l : Loading) : Type 0 where
  pub room : HasRoom c m probe ts l.scheduler
  pub update : All IsSound l.update

sort_out-IsSound :
    (status : RunStatus) (t : Task) (l : Loading)
    → IsSound t
    → All IsSound l.update
    → All IsSound (sort_out status t l).update × ((sort_out status t l).scheduler ≡ l.scheduler)
unfolding sort_out
sort_out-IsSound running t l h all = (all, refl)
sort_out-IsSound dead t l h all = (all, refl)
sort_out-IsSound exited t l h all = (all, refl)
sort_out-IsSound unkown t l h all = (All-append IsSound l.update (t ∷ []) all (h, tt), refl)
sort_out-IsSound paused t l h all = (all, refl)
sort_out-IsSound restarting t l h all = (all, refl)

prepare_reschedule-SameDemands :
    (parser : CronParser) (now : ℤ) (t : Task) → SameDemands t (prepare_reschedule parser now t)
unfolding prepare_reschedule
prepare_reschedule-SameDemands parser now t = ground arith

module _ (env : Env) (now : ℤ) (probe : Probe) (outcome : Task → Outcome) (locks : Bool)
    (c m : ℤ) where
  compare_status-SameDemands :
      (old fresh : Status.Status) (t : Task)
      → SameDemands t (compare_status env now probe outcome locks old fresh t).0
  unfolding compare_status
  compare_status-SameDemands old fresh t = elim (Bool-cases (same old fresh)) [
    | inr differs ↦ rw (differs, compare_status) (refl, refl, refl)
    | inl agrees ↦ elim (Bool-cases (has_cron t && not (same t.status Status.running))) [
      | inl again ↦
          rw (agrees, compare_status)
            (rw (again) (
              prepare_reschedule-SameDemands env.registry.cron now
                (record t { status = Status.waiting })))
      | inr rests ↦ rw (agrees, compare_status) (rw (rests) (refl, refl, refl))
    ]
  ]

  push_update-IsLoading :
      (again : Bool) (ts : List Task) (t : Task) (l : Loading)
      → IsSound t
      → IsLoading c m probe ts l
      → IsLoading c m probe ts (push_update env now probe outcome locks again t l)
  push_update-IsLoading true ts t l h k = record {
    room = k.room;
    update = All-append IsSound l.update (t ∷ []) k.update (h, tt);
  }
  push_update-IsLoading false ts t l h k = k

  -- The callback behind the `switch`, for a task that was watched where it had to be.
  abbrev sorted : RunStatus → Task → Task × Bool → Loading → Loading
  sorted status t (t2, again) l =
      push_update env now probe outcome locks again t2 (sort_out status t2 l)

  sorted-IsLoading :
      (status : RunStatus) (old fresh : Status.Status) (t : Task) (ts : List Task) (l : Loading)
      → IsSound t
      → IsLoading c m probe ts l
      → IsLoading c m probe ts
          (sorted status t (compare_status env now probe outcome locks old fresh t) l)
  sorted-IsLoading status old fresh t ts l h k =
      let r = compare_status env now probe outcome locks old fresh t in
      let sound = same-IsSound t r.0 (compare_status-SameDemands old fresh t) h in
      let (all, keeps) = sort_out-IsSound status r.0 l sound k.update in
      push_update-IsLoading r.1 ts r.0 (sort_out status r.0 l) sound
        (record { room = subst (HasRoom c m probe ts) (sym keeps) k.room; update = all })

  -- A running task finds its room.
  room_for :
      (t : Task) (ts : List Task) (s : Scheduler)
      → IsSound t
      → is_alive probe t ≡ true
      → HasRoom c m probe (t ∷ ts) s
      → Fits t s.resources
        × (pos_part t.cpu + claimed (λ u. u.cpu) probe ts ≤ pos_part s.resources.cpu)
        × (pos_part t.ram + claimed (λ u. u.ram) probe ts ≤ pos_part s.resources.ram)
  unfolding sift total
  room_for t ts s h e k =
      let by_cpu : pos_part t.cpu + claimed (λ u. u.cpu) probe ts ≤ pos_part s.resources.cpu =
        rw (e) at k.cpu in
      let by_ram : pos_part t.ram + claimed (λ u. u.ram) probe ts ≤ pos_part s.resources.ram =
        rw (e) at k.ram in
      (
        (
          omega (arith, by_cpu, k.inv.books.0.cpu.nonnegative, h.needs_cpu),
          omega (arith, by_ram, k.inv.books.0.ram.nonnegative, h.needs_ram),
        ),
        by_cpu,
        by_ram,
      )

  -- A task that has its run already watched, or is not watched, leaves the room to the others.
  left_alone :
      (t : Task) (ts : List Task) (s : Scheduler)
      → is_alive probe t ≡ false
      → HasRoom c m probe (t ∷ ts) s
      → HasRoom c m probe ts s
  unfolding sift
  left_alone t ts s e k = record { inv = k.inv; cpu = rw (e) at k.cpu; ram = rw (e) at k.ram }

  watched-HasRoom :
      (t : Task) (ts : List Task) (s : Scheduler) (r : Scheduler × Task)
      → IsSound t
      → is_alive probe t ≡ true
      → HasRoom c m probe (t ∷ ts) s
      → IsStarted (consume s.resources t.cpu t.ram) r
      → HasRoom c m probe ts r.0 × IsSound r.1
  unfolding consume
  watched-HasRoom t ts s r h e k (inv, sound, same_resources) =
      let (fits, by_cpu, by_ram) = room_for t ts s h e k in
      let cpu = take-IsBalanced _ s.resources.cpu t.cpu _ k.inv.books.0.cpu h.needs_cpu fits.0 in
      let ram = take-IsBalanced _ s.resources.ram t.ram _ k.inv.books.0.ram h.needs_ram fits.1 in
      (
        record {
          inv = record {
            books =
                consumed-WithTotals Books c m s.resources r.0.resources t r.0.watchers r.0.releasing
                  same_resources (k.inv.books.1, k.inv.books.2) inv.books;
            stored = inv.stored;
          };
          cpu = rw (same_resources) (omega (arith, by_cpu, cpu.sums, k.inv.books.0.cpu.sums));
          ram = rw (same_resources) (omega (arith, by_ram, ram.sums, k.inv.books.0.ram.sums));
        },
        sound,
      )

  unless_locked :
      {A : Type 0} (P : A → Type 0) (b : Bool) (o : Option A)
      → Holds P o
      → Holds P (if b then none else o)
  unless_locked P true o h = tt
  unless_locked P false o h = h

  watch-HasRoom :
      (status : RunStatus) (exit : ℤ) (t : Task) (ts : List Task) (s : Scheduler)
      → run_status probe t ≡ some (status, exit)
      → IsSound t
      → HasRoom c m probe (t ∷ ts) s
      → Holds
          (λ r. HasRoom c m probe ts r.0 × IsSound r.1)
          (watch env now probe outcome locks status t s)
  unfolding watch
  watch-HasRoom running exit t ts s e h k =
      let (fits, _, _) = room_for t ts s h (ap alive e) k in
      unless_locked (λ r. HasRoom c m probe ts r.0 × IsSound r.1) locks _
        (Holds-map (exec_task env now (outcome t) t s)
          (exec_task-IsStarted env now (outcome t) t s
            (record { books = (k.inv.books.0, h, fits); stored = k.inv.stored }))
          (λ r started. watched-HasRoom t ts s r h (ap alive e) k started))
  watch-HasRoom dead exit t ts s e h k = (left_alone t ts s (ap alive e) k, h)
  watch-HasRoom exited exit t ts s e h k = (left_alone t ts s (ap alive e) k, h)
  watch-HasRoom unkown exit t ts s e h k = (left_alone t ts s (ap alive e) k, h)
  watch-HasRoom paused exit t ts s e h k = (left_alone t ts s (ap alive e) k, h)
  watch-HasRoom restarting exit t ts s e h k = (left_alone t ts s (ap alive e) k, h)

  -- What the callback leaves, where it does not end the loop.
  abbrev pub Goes : List Task → Loading × Option Stop → Type 0
  Goes ts (l, none) = IsLoading c m probe ts l
  Goes ts (l, some stop) = Unit

  load_task-Goes :
      (t : Task) (ts : List Task) (l : Loading)
      → IsSound t
      → IsLoading c m probe (t ∷ ts) l
      → Goes ts (load_task env now probe outcome locks l t)
  unfolding load_task
  load_task-Goes t ts l h k = elim (Option-cases (run_status probe t)) [
    | inl silent ↦ rw (silent, load_task) tt
    | inr ((status, exit), found) ↦
        rw (found, load_task)
          (watched status exit (watch env now probe outcome locks status t l.scheduler)
            (watch-HasRoom status exit t ts l.scheduler found h k.room))
  ]
    where
      watched :
          (status : RunStatus) (exit : ℤ) (o : Option (Scheduler × Task))
          → Holds (λ r. HasRoom c m probe ts r.0 × IsSound r.1) o
          → Goes ts (elim o [
            | none ↦ (l, some panics)
            | some (s', t1) ↦
                let (t2, again) =
                  compare_status env now probe outcome locks t.status
                    (fresh_status status exit)
                    t1 in
                (
                  push_update env now probe outcome locks again t2
                      (sort_out status t2 (record l { scheduler = s' })),
                  none,
                )
          ])
      watched status exit none held = tt
      watched status exit (some (s', t1)) (room, sound) =
          sorted-IsLoading status t.status (fresh_status status exit) t1 ts
            (record l { scheduler = s' }) sound (record { room = room; update = k.update })

  after_round :
      (ts : List Task) (r : Loading × Option Stop) (rest : Loading → Loading × Option Stop)
      → Goes ts r
      → ((l : Loading) → IsLoading c m probe ts l → Goes [] (rest l))
      → Goes [] (Store.unless_failed r rest)
  after_round ts (l, none) rest h k = k l h
  after_round ts (l, some stop) rest h k = tt

  pub load_each-IsLoading :
      (kv : Dict Doc) (l : Loading)
      → All IsSoundDoc kv
      → IsLoading c m probe (readable env.registry kv) l
      → Goes [] (
          JsonStore.for_each env.registry
            (λ e. failed (S.store e))
            (load_task env now probe outcome locks)
            l
            kv)
  unfolding readable JsonStore.for_each Store.for_each
  load_each-IsLoading [] l all h = h
  load_each-IsLoading ((k, doc) ∷ kv) l all h =
      elim (Result-cases (JsonStore.parse_task env.registry doc)) [
        | inr (f, unread) ↦ rw (for_each-unread env.registry _ _ l k doc kv f unread) tt
        | inl (t, read) ↦ rw (for_each-round env.registry _ _ l k doc kv t read) (
            after_round (readable env.registry kv) (load_task env now probe outcome locks l t) _
              (load_task-Goes t _ l (parse_task-IsSound env.registry k doc t all.0 read)
                (rw (read, readable) at h))
              (λ l' h'. load_each-IsLoading kv l' all.1 h'))
      ]
