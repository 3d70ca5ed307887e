-- ===== src/Scheduler/Chosen.antt =====
-- No task that can start is passed over by `readyToGo` of scheduler/scheduler.go.
use batch_scheduler.Base.{
  String, Bool, true, some, List, [], ◌∷◌, ◌≡◌, sym, ap, arith, All, sift, subst, Bool-cases,
  Option-cases, inl, inr, ◌∙◌,
}
use batch_scheduler.Base.Dict.{Dict}
use batch_scheduler.Base.Dict
use batch_scheduler.Base.Int.{ℤ, ◌<ℤ◌}
use batch_scheduler.Base.Outcome.{ok, Result-cases}
use batch_scheduler.Base.Sort.{sort-perm}
use batch_scheduler.JsonStore.{Doc, get, parse_task}
use batch_scheduler.JsonStore.Reading.{IsSoundDoc, readable}
use batch_scheduler.Resources.{is_doable}
use batch_scheduler.Scheduler.{Env, Scheduler, get_task}
use batch_scheduler.Scheduler.Invariant.{Fits}
use batch_scheduler.Scheduler.Loop.{ready_to_go, is_ready}
use batch_scheduler.Scheduler.Progress.{ready_to_go_total}
use batch_scheduler.Scheduler.Selecting.{select-sift}
use batch_scheduler.Status
use batch_scheduler.Status.{same, same_iff}
use batch_scheduler.Store
use batch_scheduler.Task.{Task}
use batch_scheduler.Task.Codec.{Registry}
use batch_scheduler.Task.Order.{sort_by_karma, karma}
use mathlib.Core.List.{Mem, mem-cons_self, mem-cons_of_mem}
use mathlib.Core.List.Perm
use text.Mathlib.Text.{◌==◌}

-- The stored value can be read as a task.
abbrev pub IsReadable : Registry → String × Doc → Type 0
IsReadable reg (k, doc) = (t : Task) × (parse_task reg doc ≡ ok t)

mem-sift_cons :
    (keep : Task → Bool) (t u : Task) (ts : List Task)
    → Mem t (sift keep ts)
    → Mem t (sift keep (u ∷ ts))
unfolding sift
mem-sift_cons keep t u ts m = elim (Bool-cases (keep u)) [
  | inl kept ↦ rw (kept, sift) (mem-cons_of_mem u m)
  | inr dropped ↦ rw (dropped, sift) m
]

-- A task that is found under its id, and passes a test, is among the readable tasks that pass it.
mem-sift-readable :
    (reg : Registry) (keep : Task → Bool) (id : String) (kv : Dict Doc) (doc : Doc) (t : Task)
    → All (IsReadable reg) kv
    → Dict.lookup id kv ≡ some doc
    → parse_task reg doc ≡ ok t
    → keep t ≡ true
    → Mem t (sift keep (readable reg kv))
unfolding Dict.lookup readable
mem-sift-readable reg keep id [] doc t h e f kept = cc
mem-sift-readable reg keep id ((k, d) ∷ kv) doc t ((u, parsed), hs) e f kept =
    elim (Bool-cases (k == id)) [
      | inl hit ↦
          let same_doc : d ≡ doc = ground (arith, hit, e) in
          let found : parse_task reg d ≡ ok t = ap (parse_task reg) same_doc ∙ f in
          rw (found, readable) (unfold sift in rw (kept, sift) mem-cons_self)
      | inr miss ↦
          let later : Dict.lookup id kv ≡ some doc = ground (arith, miss, e) in
          rw (parsed, readable)
            (mem-sift_cons keep t u (readable reg kv)
              (mem-sift-readable reg keep id kv doc t hs later f kept))
    ]

get-eq-ok :
    (reg : Registry) (s : Scheduler) (id : String) (t : Task)
    → get reg s.tasks id ≡ ok (some t)
    → (doc : Doc) × (Dict.lookup id s.tasks.kv ≡ some doc) × (parse_task reg doc ≡ ok t)
unfolding get Store.get
get-eq-ok reg s id t e = elim (Option-cases (Dict.lookup id s.tasks.kv)) [
  | inl missing ↦ absurd (ground (arith, missing, e))
  | inr (doc, found) ↦ elim (Result-cases (parse_task reg doc)) [
    | inr (f, unread) ↦ absurd (ground (arith, found, unread, e))
    | inl (u, read) ↦ (doc, found, read ∙ ground (arith, found, read, e))
  ]
]

ready :
    (env : Env) (now : ℤ) (s : Scheduler) (t : Task)
    → t.start <ℤ now
    → t.status ≡ Status.waiting
    → Fits t s.resources
    → is_ready env now s.resources t ≡ true
unfolding is_ready is_doable
ready env now s t due waits fits =
    let waiting : same t.status Status.waiting ≡ true =
      (same_iff t.status Status.waiting).1 waits in
    ground (arith, waiting)

-- On a store whose values can all be read, and whose tasks all ask for a positive CPU, RAM and
-- execution time, `readyToGo` answers; and each task that is found under an id, waits, has its start
-- in the past and fits into the free resources is in its answer.
pub ready_to_go-mem :
    (env : Env) (now : ℤ) (s : Scheduler) (id : String) (t : Task)
    → All IsSoundDoc s.tasks.kv
    → All (IsReadable env.registry) s.tasks.kv
    → get_task env id s ≡ ok (some t)
    → t.start <ℤ now
    → t.status ≡ Status.waiting
    → Fits t s.resources
    → (ts : List Task) × (ready_to_go env now s ≡ some ts) × Mem t ts
unfolding ready_to_go sort_by_karma get_task
ready_to_go-mem env now s id t sound readable_all e due waits fits =
    let (ts, answered) = ready_to_go_total env now s sound in
    let (doc, found, read) = get-eq-ok env.registry s id t e in
    let stored =
      mem-sift-readable env.registry (is_ready env now s.resources) id s.tasks.kv doc t readable_all
        found read (ready env now s t due waits fits) in
    (
      ts,
      answered,
      (Perm.mem_iff (sort-perm karma _ answered)).1
          (subst (Mem t) (sym (select-sift env (is_ready env now s.resources) s)) stored),
    )
