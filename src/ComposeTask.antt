-- ===== src/ComposeTask.antt =====
-- input/compose/compose.go: the task that a compose file asks for under `x-batch`.
--
-- The durations and the cron texts are read by libraries, which are parameters; so is the JSON text
-- of the file, by which the task's action is seen.
pub mod Schedule
use batch_scheduler.Base.{
  String, Bool, true, false, Option, none, some, not, ◌&&◌, if◌then◌else◌, ◌+◌,
}
use batch_scheduler.Base.Outcome.{Result, ok, err, ◌>>=◌}
use batch_scheduler.Base.Int.{ℤ, pos, pos_part, neg_part}
use batch_scheduler.Base.Dict.{Dict}
use batch_scheduler.Base.Dict
use batch_scheduler.Compose.{Compose, Setting, words, number, other}
use batch_scheduler.Task.{Task, Action, CronParser, new}
use text.Mathlib.Text.{◌==◌}

pub data Error : Type 0 where
  no_batch bad_retry bad_duration bad_cron exclusive : Error

abbrev pub DurationParser : Type 0
DurationParser = String → Option ℤ

-- The option `retry`, which may be missing but not of another type.
abbrev pub read_retry : Option Setting → Task → Result Error Task
read_retry none t = ok t
read_retry (some (number n)) t = ok (record t { retry = n })
read_retry (some (words s)) t = err bad_retry
read_retry (some other) t = err bad_retry

-- A text among the options; one of another type is passed over.
abbrev pub text_of : Option Setting → Option String
text_of (some (words s)) = some s
text_of (some (number n)) = none
text_of (some other) = none
text_of none = none

abbrev pub read_max_time : DurationParser → Option String → Task → Result Error Task
read_max_time parse none t = ok t
read_max_time parse (some s) t = elim (parse s) [
  | none ↦ err bad_duration
  | some d ↦ ok (record t { max_exection_time = d })
]

abbrev pub read_every : DurationParser → Option String → Task → Result Error Task
read_every parse none t = ok t
read_every parse (some s) t = elim (parse s) [
  | none ↦ err bad_duration
  | some d ↦ ok (record t { every = d })
]

abbrev pub read_cron : CronParser → Option String → Task → Result Error Task
read_cron parser none t = ok t
read_cron parser (some s) t = elim (parser s) [
  | none ↦ err bad_cron
  | some _ ↦ ok (record t { cron = s })
]

abbrev pub is_zero : ℤ → Bool
is_zero z = batch_scheduler.Base.◌==◌ (pos_part z + neg_part z) 0

abbrev pub check_exclusive : Task → Result Error Task
check_exclusive t = if not (is_zero t.every) && not (t.cron == "") then err exclusive else ok t

abbrev pub read_options : DurationParser → CronParser → Dict Setting → Task → Result Error Task
read_options parse parser cfg t = do
  t1 ← read_retry (Dict.lookup "retry" cfg) t
  t2 ← read_max_time parse (text_of (Dict.lookup "max_execution_time" cfg)) t1
  t3 ← read_every parse (text_of (Dict.lookup "every" cfg)) t2
  t4 ← read_cron parser (text_of (Dict.lookup "cron" cfg)) t3
  check_exclusive t4

-- `TaskFromCompose`, at a time.
unfoldable pub task_from_compose :
    DurationParser → CronParser → (Compose → Action) → ℤ → Compose → Result Error Task
task_from_compose parse parser as_action now c = elim (Dict.lookup "x-batch" c.x) [
  | none ↦ err no_batch
  | some cfg ↦
      let t = new now in read_options parse parser cfg (record t { action = some (as_action c) })
]
