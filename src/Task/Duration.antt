-- ===== src/Task/Duration.antt =====
-- task/task.go: `Duration`, the JSON form of the two durations of a task that are written as text.
--
-- How the package time writes and reads a duration, and how Go turns a float64 into one, are
-- parameters. The other fields of the JSON object are those of `RawTask`.
use batch_scheduler.Base.{String, Option, none, some, ◌≡◌}
use batch_scheduler.Base.Int.{ℤ, pos}
use batch_scheduler.Base.Outcome.{Result, ok, err, ◌>>=◌}
use batch_scheduler.Task.{Task, zero_task}
use batch_scheduler.Task.Codec.{
  RawTask, Registry, Error, not_a_task, marshal, unmarshal, IsRegistered, unmarshal-marshal,
}

-- A JSON value as `json.Unmarshal` gives it to a variable of any type; `other` is null, a Boolean,
-- a list or an object.
pub data Json (F : Type 0) : Type 0 where
  number : F → Json F
  text : String → Json F
  other : Json F

-- The JSON object of a task: the values of its two durations, where it has them, and the rest.
pub record WireTask (F : Type 0) : Type 0 where
  pub rest : RawTask
  pub max_wait_time : Option (Json F)
  pub max_exection_time : Option (Json F)

pub record Clock (F : Type 0) : Type 0 where
  pub format : ℤ → String
  pub parse : String → Option ℤ
  pub truncate : F → ℤ

module _ {F : Type 0} (clock : Clock F) where
  -- `MarshalJSON` of a duration.
  unfoldable pub marshal_duration : ℤ → Json F
  marshal_duration d = text (clock.format d)

  -- `UnmarshalJSON` of a duration; `none` is its error.
  unfoldable pub unmarshal_duration : Json F → Option ℤ
  unmarshal_duration (number x) = some (clock.truncate x)
  unmarshal_duration (text t) = clock.parse t
  unmarshal_duration other = none

  -- A field that is missing stays zero.
  abbrev pub read_field : Option (Json F) → Option ℤ
  read_field none = some (pos 0)
  read_field (some json) = unmarshal_duration json

  -- `json.Marshal` and `json.Unmarshal` of a `RawTask`.
  unfoldable pub write_raw : RawTask → WireTask F
  write_raw raw = record {
    rest = raw;
    max_wait_time = some (marshal_duration raw.max_wait_time);
    max_exection_time = some (marshal_duration raw.max_exection_time);
  }

  abbrev pub with_durations : RawTask → Option ℤ → Option ℤ → Result Error RawTask
  with_durations raw none d = err not_a_task
  with_durations raw (some w) none = err not_a_task
  with_durations raw (some w) (some d) =
      ok (record raw { max_wait_time = w; max_exection_time = d })

  unfoldable pub read_raw : WireTask F → Result Error RawTask
  read_raw wire =
      with_durations wire.rest (read_field wire.max_wait_time) (read_field wire.max_exection_time)

  -- `MarshalJSON` and `UnmarshalJSON` of a task.
  unfoldable pub marshal_task : Task → WireTask F
  marshal_task t = write_raw (marshal t)

  unfoldable pub unmarshal_task : Registry → Task → WireTask F → Result Error Task
  unmarshal_task reg t wire = do raw ← read_raw wire; unmarshal reg t raw

  -- A task whose action and run are of registered types, and whose two durations are read back from
  -- their texts as they were, is read back from its JSON object as it was, but for the field
  -- `Cancel`, which is lost.
  pub unmarshal_task-marshal_task :
      (reg : Registry) (t : Task)
      → IsRegistered reg t
      → clock.parse (clock.format t.max_wait_time) ≡ some t.max_wait_time
      → clock.parse (clock.format t.max_exection_time) ≡ some t.max_exection_time
      → unmarshal_task reg zero_task (marshal_task t) ≡ ok (record t { cancel = none })
  unfolding unmarshal_task marshal_task read_raw write_raw marshal_duration unmarshal_duration
      marshal unmarshal
  unmarshal_task-marshal_task reg t h waits runs = rw (waits, runs) (unmarshal-marshal reg t h)
