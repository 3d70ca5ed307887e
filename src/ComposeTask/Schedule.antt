-- ===== src/ComposeTask/Schedule.antt =====
-- input/compose/compose.go: the schedule of a task that was made from a compose file.
use batch_scheduler.Base.{
  String, true, false, Option, none, some, not, ◌&&◌, ◌≡◌, ◌⊎◌, refl, arith, inl, inr, Bool-cases,
  Option-cases, ◌∙◌, subst,
}
use batch_scheduler.Base.Outcome.{Result, ok, err, ◌>>=◌}
use batch_scheduler.Base.Int.{ℤ, pos, ltb_ℤ}
use batch_scheduler.Base.Dict.{Dict}
use batch_scheduler.Base.Dict
use batch_scheduler.Compose.{Compose, Setting, words, number, other}
use batch_scheduler.Task.{Task, Action, CronParser, new, prepare_reschedule}
use batch_scheduler.ComposeTask.{
  Error, DurationParser, read_retry, read_max_time, read_every, read_cron, check_exclusive,
  read_options, task_from_compose, is_zero, text_of,
}
use text.Mathlib.Text.{◌==◌}
use text.Mathlib.TextEquality.{eq_iff}

-- A task with no cron text, or one that the parser takes.
abbrev pub HasGoodCron : CronParser → Task → Type 0
HasGoodCron parser t = ((t.cron == "") ≡ true) ⊎ ((next : ℤ → ℤ) × (parser t.cron ≡ some next))

-- Both schedules are not set at once.
abbrev pub HasOneSchedule : Task → Type 0
HasOneSchedule t = (not (is_zero t.every) && not (t.cron == "")) ≡ false

-- What holds of each success holds of the result.
abbrev Ensures : (Task → Type 0) → Result Error Task → Type 0
Ensures P (err e) = Unit
Ensures P (ok t) = P t

Ensures-bind :
    (P Q : Task → Type 0) (r : Result Error Task) (f : Task → Result Error Task)
    → Ensures P r
    → ((t : Task) → P t → Ensures Q (f t))
    → Ensures Q (r >>= f)
Ensures-bind P Q (err e) f h k = tt
Ensures-bind P Q (ok t) f h k = k t h

-- A task as `New` makes it, as far as its action, status and cron text go.
abbrev IsPlain : Option Action → Task → Type 0
IsPlain a t = (t.action ≡ a) × (t.status ≡ batch_scheduler.Status.waiting) × (t.cron ≡ "")

retry-IsPlain :
    (a : Option Action) (o : Option Setting) (t : Task)
    → IsPlain a t
    → Ensures (IsPlain a) (read_retry o t)
retry-IsPlain a none t h = h
retry-IsPlain a (some (number n)) t h = h
retry-IsPlain a (some (words s)) t h = tt
retry-IsPlain a (some other) t h = tt

max_time-IsPlain :
    (parse : DurationParser) (a : Option Action) (o : Option String) (t : Task)
    → IsPlain a t
    → Ensures (IsPlain a) (read_max_time parse o t)
max_time-IsPlain parse a none t h = h
max_time-IsPlain parse a (some s) t h = elim (Option-cases (parse s)) [
  | inl bad ↦ rw (bad, read_max_time) tt
  | inr (d, good) ↦ rw (good, read_max_time) h
]

every-IsPlain :
    (parse : DurationParser) (a : Option Action) (o : Option String) (t : Task)
    → IsPlain a t
    → Ensures (IsPlain a) (read_every parse o t)
every-IsPlain parse a none t h = h
every-IsPlain parse a (some s) t h = elim (Option-cases (parse s)) [
  | inl bad ↦ rw (bad, read_every) tt
  | inr (d, good) ↦ rw (good, read_every) h
]

-- A task that waits with the action, and has a cron text that the parser takes or none.
abbrev IsWaitingWith : CronParser → Option Action → Task → Type 0
IsWaitingWith parser a t =
    (t.action ≡ a) × (t.status ≡ batch_scheduler.Status.waiting) × HasGoodCron parser t

cron_good :
    (parser : CronParser) (a : Option Action) (o : Option String) (t : Task)
    → IsPlain a t
    → Ensures (IsWaitingWith parser a) (read_cron parser o t)
cron_good parser a none t (acts, waits, no_cron) = (acts, waits, inl ((eq_iff t.cron "").1 no_cron))
cron_good parser a (some s) t (acts, waits, no_cron) = elim (Option-cases (parser s)) [
  | inl bad ↦ rw (bad, read_cron) tt
  | inr (next, good) ↦ rw (good, read_cron) (acts, waits, inr (next, good))
]

abbrev pub IsSchedulable : CronParser → Option Action → Task → Type 0
IsSchedulable parser a t = IsWaitingWith parser a t × HasOneSchedule t

exclusive_good :
    (parser : CronParser) (a : Option Action) (t : Task)
    → IsWaitingWith parser a t
    → Ensures (IsSchedulable parser a) (check_exclusive t)
exclusive_good parser a t h = elim (Bool-cases (not (is_zero t.every) && not (t.cron == ""))) [
  | inl both ↦ rw both tt
  | inr one ↦ rw one (h, one)
]

options_good :
    (parse : DurationParser) (parser : CronParser) (a : Option Action) (cfg : Dict Setting)
    (t : Task)
    → IsPlain a t
    → Ensures (IsSchedulable parser a) (read_options parse parser cfg t)
options_good parse parser a cfg t h =
    Ensures-bind (IsPlain a) _ (read_retry (Dict.lookup "retry" cfg) t) _
      (retry-IsPlain a (Dict.lookup "retry" cfg) t h)
      (λ t1 h1.
        let max = text_of (Dict.lookup "max_execution_time" cfg) in
        Ensures-bind (IsPlain a) _ (read_max_time parse max t1) _
          (max_time-IsPlain parse a max t1 h1)
          (λ t2 h2.
            let every = text_of (Dict.lookup "every" cfg) in
            Ensures-bind (IsPlain a) _ (read_every parse every t2) _
              (every-IsPlain parse a every t2 h2)
              (λ t3 h3.
                let cron = text_of (Dict.lookup "cron" cfg) in
                Ensures-bind (IsWaitingWith parser a) _ (read_cron parser cron t3) _
                  (cron_good parser a cron t3 h3) (λ t4 h4. exclusive_good parser a t4 h4))))

-- A cron text that the parser takes lets a reschedule keep the status.
prepare_reschedule-status :
    (parser : CronParser) (now : ℤ) (t : Task)
    → HasGoodCron parser t
    → (prepare_reschedule parser now t).status ≡ t.status
unfolding prepare_reschedule
prepare_reschedule-status parser now t (inl no_cron) = elim (Bool-cases (ltb_ℤ (pos 0) t.every)) [
  | inl periodic ↦ rw (periodic, no_cron) refl
  | inr once ↦ rw (once, no_cron) refl
]
prepare_reschedule-status parser now t (inr (next, good)) =
    elim (Bool-cases (ltb_ℤ (pos 0) t.every)) [
      | inl periodic ↦ elim (Bool-cases (t.cron == "")) [
        | inl empty ↦ rw (periodic, empty) refl
        | inr set ↦ ground (arith, periodic, set, good)
      ]
      | inr once ↦ elim (Bool-cases (t.cron == "")) [
        | inl empty ↦ rw (once, empty) refl
        | inr set ↦ ground (arith, once, set, good)
      ]
    ]

-- A task that `TaskFromCompose` makes has the compose file as its action, waits, has not both a
-- period and a cron text, and its cron text, if it has one, is one that the parser takes; so a
-- reschedule at any time leaves its status as it is, and never sets it to `Error`.
pub task_from_compose-IsSchedulable :
    (parse : DurationParser) (parser : CronParser) (as_action : Compose → Action) (now : ℤ)
    (c : Compose) (t : Task)
    → task_from_compose parse parser as_action now c ≡ ok t
    → IsSchedulable parser (some (as_action c)) t
      × ((later : ℤ) → (prepare_reschedule parser later t).status ≡ batch_scheduler.Status.waiting)
unfolding task_from_compose new
task_from_compose-IsSchedulable parse parser as_action now c t e =
    elim (Option-cases (Dict.lookup "x-batch" c.x)) [
      | inl missing ↦ absurd (ground (arith, missing, e))
      | inr (cfg, there) ↦
          let a = some (as_action c) in
          let start : Task = record (new now) { action = a } in
          let h : Ensures (IsSchedulable parser a) (read_options parse parser cfg start) =
            options_good parse parser a cfg start (refl, refl, refl) in
          let made : read_options parse parser cfg start ≡ ok t = ground (arith, there, e) in
          let good : IsSchedulable parser a t = subst (Ensures (IsSchedulable parser a)) made h in
          (good, λ later. prepare_reschedule-status parser later t good.0.2 ∙ good.0.1)
    ]
