-- ===== src/DockerRun.antt =====
-- compose/run.go: `DockerRun`, a run in a container. What docker answers is an argument of each
-- operation: whether the client connects, how many containers are listed, whether a kill succeeds,
-- and the state and the exit code of an inspection, `none` for an error. The messages that
-- `Wait` receives are a list in the order of their arrival.
pub mod Endings
pub mod Retries
use batch_scheduler.Base.{
  ℕ, zero, suc, String, Bool, true, false, Option, none, some, List, [], ◌∷◌, if◌then◌else◌, ◌&&◌,
  not,
}
use batch_scheduler.Base.Sort.{◌>>=◌}
use batch_scheduler.Base.Int.{ℤ, pos, negsuc}
use batch_scheduler.Base
use batch_scheduler.Status.{Status, same}
use batch_scheduler.Status
use batch_scheduler.Task.{RunData, Run}
use batch_scheduler.Scheduler.Load.{RunStatus}
use batch_scheduler.Scheduler.Load
use text.Mathlib.Text.{◌==◌}

pub record DockerRun : Type 0 where
  pub path : String
  pub rid : String
  pub id : ℤ
  pub start : ℤ
  pub finish : ℤ
  pub exit_code : ℤ
  pub running : Bool

-- `Data`
unfoldable pub run_data : DockerRun → RunData
run_data d = record {
  start = d.start;
  finish = d.finish;
  id = d.id;
  exit_code = d.exit_code;
  runner = "compose";
  is_running = d.running;
}

-- The run as its task holds it, with its JSON text.
abbrev pub as_run : (DockerRun → String) → DockerRun → Run
as_run encode d = record { registered_name = "compose"; content = encode d; run_data = run_data d }

-- The `switch` of `Status` on the state of the container.
unfoldable pub status_of_state : String → RunStatus
status_of_state state =
    if state == "created"
    then Load.running
    else if state == "running"
    then Load.running
    else if state == "restarting"
    then Load.running
    else if state == "paused"
    then Load.paused
    else if state == "removing"
    then Load.exited
    else if state == "exited"
    then Load.exited
    else if state == "dead"
    then Load.dead
    else Load.unkown

abbrev pub inspected : Option (String × ℤ) → Option (RunStatus × ℤ)
inspected none = none
inspected (some (state, code)) = some (status_of_state state, code)

abbrev pub listed : ℕ → Option (String × ℤ) → Option (RunStatus × ℤ)
listed zero inspect = some (Load.unkown, pos 0)
listed (suc n) inspect = inspected inspect

-- `Status`; `none` is an error.
unfoldable pub status : Bool → Option ℕ → Option (String × ℤ) → Option (RunStatus × ℤ)
status false listing inspect = none
status true none inspect = none
status true (some n) inspect = listed n inspect

-- `RunnerID`; `none` is an error.
unfoldable pub runner_id : DockerRun → Option String
runner_id d = if d.rid == "" then none else some d.rid

-- `Down`, with whether docker-compose answers an error.
unfoldable pub down : DockerRun → DockerRun
down d = record d { running = false }

-- A case of the `select` of `Wait`: the context is done, the container has stopped, or docker sends
-- an error, which may be nil.
pub data Message : Type 0 where
  ctx_canceled ctx_deadline stopped failed no_error : Message

-- The loop of `Wait`, with the status that it leaves; `none` is a loop that still waits. A status
-- that is not assigned is the zero value, `Waiting`.
unfoldable pub wait_loop : List Message → Option Status
wait_loop [] = none
wait_loop (ctx_canceled ∷ _) = some Status.canceled
wait_loop (ctx_deadline ∷ _) = some Status.timeout
wait_loop (stopped ∷ _) = some Status.waiting
wait_loop (failed ∷ _) = some Status.error
wait_loop (no_error ∷ messages) = wait_loop messages

abbrev pub is_zero : ℤ → Bool
is_zero (pos n) = Base.◌==◌ n 0
is_zero (negsuc n) = false

-- The end of `Wait`, after the inspection: the run, the status, and whether there is no error.
abbrev pub conclude : Option (String × ℤ) → Status → DockerRun → DockerRun × Status × Bool
conclude none s d = (d, Status.error, false)
conclude (some (state, code)) s d = (
  record d { exit_code = code },
  if state == "exited" && is_zero code then Status.done else s,
  true,
)

-- `Wait` once the loop has ended with a status.
unfoldable pub finish_wait :
    Bool → Option (String × ℤ) → ℤ → Status → DockerRun → DockerRun × Status × Bool
finish_wait kills inspect now s d =
    let d' = record d { running = false; finish = now } in
    if not (same s Status.waiting) && not kills
    then (d', Status.error, false)
    else conclude inspect s d'

-- `Wait`
unfoldable pub wait :
    Bool
    → List Message
    → Bool
    → Option (String × ℤ)
    → ℤ
    → DockerRun
    → Option (DockerRun × Status × Bool)
wait false messages kills inspect now d = some (d, Status.error, false)
wait true messages kills inspect now d = do
  s ← wait_loop messages
  some (finish_wait kills inspect now s d)
