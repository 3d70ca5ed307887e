-- ===== src/Samples/Examples.antt =====
-- The flag, the stores, the JSON forms and the scheduler at concrete inputs.
use batch_scheduler.Scheduler.Chosen.{ready_to_go-mem}
use mathlib.Core.List.{Mem}
use batch_scheduler.Base.{
  ℕ, Option, none, some, List, [], ◌∷◌, ◌≡◌, ◌≢◌, ◌≤◌, ◌⊎◌, refl, String, Bool, true, false, All,
  arith, subst, sift, if◌then◌else◌,
}
use batch_scheduler.Base.Int.{pos, ltb_ℤ}
use batch_scheduler.Base.Outcome.{ok, err}
use batch_scheduler.Base.Sort.{KeyLe}
use batch_scheduler.Base.Dict.{Dict, NodupKeys}
use batch_scheduler.Base.Dict
use batch_scheduler.Status.{waiting, done}
use batch_scheduler.Todo.{Todo, fresh, ping, receive}
use batch_scheduler.Todo.Wakeups.{start, ping_wakes}
use batch_scheduler.Store.{MemoryStore}
use batch_scheduler.Store
use batch_scheduler.JsonStore.{Doc}
use batch_scheduler.JsonStore
use batch_scheduler.JsonStore.Reading.{readable}
use batch_scheduler.Task.Duration.{Clock, unmarshal_task, marshal_task, unmarshal_task-marshal_task}
use batch_scheduler.Task.{Task, uuid_nil, zero_task}
use batch_scheduler.Task.Codec.{IsRegistered, marshal}
use batch_scheduler.Task.Codec as TaskCodec
use batch_scheduler.Resources.{Resources, check, check-eq-none}
use batch_scheduler.Scheduler.{Env, Scheduler}
use batch_scheduler.Scheduler.Loop.{
  ready_to_go, is_ready, is_waiting, arm, sleep, finish, settle, take_at,
}
use batch_scheduler.Samples.{
  act, run, registry, env, fresh_task, stored_task, scheduler, watcher, busy, free,
}
use batch_scheduler.Base.{◌↔◌, Option-cases, inl, inr, sym, ◌∙◌, if◌then◌else◌}
use mathlib.Core.List.{Perm}
use batch_scheduler.Scheduler.{select, add, refusal, get_task, delete, cancel, list}
use batch_scheduler.Scheduler.Progress.{stored_tasks, ready_to_go-perm, sleep_arms}
use batch_scheduler.Scheduler.Outcomes.{get_task-add, cancel_waiting, get_task-finish}
use batch_scheduler.Task.Order.{start_key}
use batch_scheduler.Task.{Resp}
use text.Mathlib.Text.{◌==◌}
use text.Mathlib.TextEquality.{eq_iff}

ready : ready_to_go env (pos 9) scheduler ≡ some (stored_task ∷ [])
unfolding ready_to_go batch_scheduler.Task.Order.sort_by_karma batch_scheduler.Base.Sort.sort select
    JsonStore.for_each Store.for_each JsonStore.visit JsonStore.parse_task TaskCodec.unmarshal
    marshal batch_scheduler.Scheduler.collect is_ready batch_scheduler.Resources.is_doable
ready = refl

ping_wakes_example :
    (u : Todo) × (answer : Bool) × (ping fresh ≡ some (u, answer))
    × ((false ≡ true) ⊎ ((v : Todo) × (receive u ≡ some v)))
ping_wakes_example = ping_wakes start

pub registered : (t : Task) → t.action ≡ some act → t.run ≡ some run → IsRegistered registry t
registered t a r = record {
  with_action = λ b e. (_, refl, sym a ∙ e);
  with_run = λ b e. (_, refl, sym r ∙ e);
}

ready_to_go-perm_example :
    Perm (stored_task ∷ []) (sift (is_ready env (pos 9) free) (stored_tasks env scheduler))
    × Unit {0}
ready_to_go-perm_example = ready_to_go-perm env (pos 9) scheduler stored_task [] ready

waiting_tasks : sift (is_waiting env) (stored_tasks env scheduler) ≡ stored_task ∷ []
unfolding sift readable JsonStore.parse_task TaskCodec.unmarshal marshal is_waiting
waiting_tasks = refl

sleep_arms_example :
    (t : Task) × (others : List Task) × Perm (t ∷ others) (stored_task ∷ [])
    × All (KeyLe start_key t) others
    × (sleep env (pos 4) scheduler ≡ some (arm (pos 4) (some t) scheduler))
sleep_arms_example = sleep_arms env (pos 4) scheduler stored_task [] waiting_tasks

added :
    (u : Scheduler) × (t : Task) × (add (pos 3) (some "b") fresh_task scheduler
      ≡ some (u, t, ok "b"))
unfolding add refusal check batch_scheduler.Scheduler.add_with_id JsonStore.put
    batch_scheduler.Scheduler.wake ping
added = (_, _, refl)

get_task-add_example :
    (refusal scheduler fresh_task ≡ none)
    × (◌≡◌ {A = Option String} (some "b") (some "b"))
    × (get_task env "b" added.0
        ≡ ok
            (some (record fresh_task { id = "b"; status = waiting; mtime = pos 3; cancel = none })))
get_task-add_example =
    get_task-add env (pos 3) (some "b") fresh_task added.1 scheduler added.0 "b"
      (registered fresh_task refl refl) added.2

pub found : get_task env "a" scheduler ≡ ok (some stored_task)
unfolding get_task JsonStore.get Store.get Dict.lookup JsonStore.parse_task TaskCodec.unmarshal
    marshal
found = refl

pub a_is_an_id : ◌≢◌ {A = String} "a" uuid_nil
a_is_an_id = ground (arith, eq_iff "a" uuid_nil)

cancel_waiting_example :
    ((cancel env (pos 8) "a" scheduler).1 ≡ none)
    × (get_task env "a" (cancel env (pos 8) "a" scheduler).0
        ≡ ok (some (record stored_task { mtime = pos 8; cancel = none })))
cancel_waiting_example =
    cancel_waiting env (pos 8) scheduler "a" stored_task found refl a_is_an_id
      (registered stored_task refl refl) refl

finished : (u : Scheduler) × (finish env (pos 70) 0 done watcher.run busy ≡ some u)
unfolding finish take_at batch_scheduler.Scheduler.wake ping batch_scheduler.Scheduler.Loop.put
finished = (_, refl)

get_task-finish_example :
    get_task env
      (settle env (pos 70) done (record watcher.task { run = some watcher.run })).id
      finished.0
    ≡ ok (
        some (record (settle env (pos 70) done (record watcher.task { run = some watcher.run })) {
          mtime = pos 70;
          cancel = none;
        }))
unfolding take_at settle batch_scheduler.Task.has_cron
get_task-finish_example =
    get_task-finish env (pos 70) 0 done watcher.run busy finished.0 watcher [] refl finished.1
      a_is_an_id
      (registered (settle env (pos 70) done (record watcher.task { run = some watcher.run })) refl
        refl)

-- The sample's durations are nothing and 60 nanoseconds.
abbrev clock : Clock ℕ
clock = record {
  format = λ d. if ltb_ℤ (pos 0) d then "60ns" else "0s";
  parse = λ text. some (if text == "60ns" then pos 60 else pos 0);
  truncate = λ x. pos x;
}

unmarshal_task-marshal_task_example :
    unmarshal_task clock registry zero_task (marshal_task clock stored_task)
    ≡ ok (record stored_task { cancel = none })
unmarshal_task-marshal_task_example =
    unmarshal_task-marshal_task clock registry stored_task (registered stored_task refl refl) refl
      refl

unmarshal-ne-bad_cron_example :
    TaskCodec.unmarshal registry zero_task
      (record (marshal stored_task) { cron = "every blue moon" })
    ≢ err TaskCodec.bad_cron
unmarshal-ne-bad_cron_example =
    TaskCodec.unmarshal-ne-bad_cron registry
      (record (marshal stored_task) { cron = "every blue moon" })

ready_to_go-mem_example :
    (ts : List Task) × (ready_to_go env (pos 9) scheduler ≡ some ts) × Mem stored_task ts
unfolding marshal JsonStore.parse_task TaskCodec.unmarshal
ready_to_go-mem_example =
    ready_to_go-mem env (pos 9) scheduler "a" stored_task
      ((omega arith, omega arith, omega arith), tt) ((stored_task, refl), tt) found (omega arith)
      refl (omega arith, omega arith)
