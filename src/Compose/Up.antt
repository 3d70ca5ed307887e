-- ===== src/Compose/Up.antt =====
-- compose/compose.go: `Up`, which writes the files of a run and starts its containers.
--
-- The text that the YAML package writes for a file, and that `fmt` writes for a variable, are
-- parameters, as lists of bytes; so are the answers of the operating system and of docker.
pub mod Written
use batch_scheduler.Base.{
  ℕ, ◌≤◌, ◌<◌, String, Bool, true, false, Option, none, some, List, [], ◌∷◌, ◌++◌, length,
  if◌then◌else◌, not, ◌≡◌, ◌≢◌, refl, ap, arith, inl, inr, Bool-cases, Option-cases,
}
use batch_scheduler.Base.Outcome.{Result, ok, err}
use batch_scheduler.Base.Int.{ℤ, pos}
use batch_scheduler.Base.Dict.{Dict}
use batch_scheduler.Compose.{Compose, guess_main_container}
use batch_scheduler.Compose
use batch_scheduler.DockerRun.{DockerRun}

abbrev pub Bytes : Type 0
Bytes = List ℕ

-- The answers that `Up` gets: whether the program docker-compose is there, whether the two files can
-- be opened, whether `docker-compose up` succeeds, whether the docker client connects, and the ids
-- of the running containers of a service, `none` for an error.
pub record World : Type 0 where
  pub has_bin : Bool
  pub opens_compose : Bool
  pub opens_env : Bool
  pub comes_up : Bool
  pub connects : Bool
  pub containers : String → Option (List String)

-- The two files of a working directory; a file that is not there is empty.
pub record Files : Type 0 where
  pub compose_yml : Bytes
  pub env : Bytes

pub data Error : Type 0 where
  no_bin not_opened not_up no_client not_listed : Error
  main_container : Compose.Error → Error

-- A write from the start of a file that was opened without being truncated.
unfoldable pub write : Bytes → Bytes → Bytes
write [] old = old
write (b ∷ bytes) [] = b ∷ bytes
write (b ∷ bytes) (_ ∷ old) = b ∷ write bytes old

-- The lines of the variables.
unfoldable pub env_text : (String → String → Bytes) → Dict String → Bytes
env_text line [] = []
env_text line ((k, v) ∷ environments) = line k v ++ env_text line environments

abbrev pub started : String → ℤ → ℤ → Option (List String) → Option (Result Error DockerRun)
started path run_id now none = some (err not_listed)
started path run_id now (some []) = none
started path run_id now (some (rid ∷ _)) = some (
    ok (record {
      path = path;
      rid = rid;
      id = run_id;
      start = now;
      finish = pos 0;
      exit_code = pos 0;
      running = true;
    }))

-- `Up` behind the guess of the main container, with the files that it leaves; `none` is the panic of
-- an empty list of containers.
abbrev pub up_main :
    (Compose → Bytes)
    → (String → String → Bytes)
    → World
    → ℤ
    → String
    → Dict String
    → ℤ
    → Compose
    → Files
    → String
    → Option (Files × Result Error DockerRun)
up_main encode line w now path environments run_id c f main =
    if not w.opens_compose
    then some (f, err not_opened)
    else let f1 = record f { compose_yml = write (encode c) f.compose_yml } in
      if not w.opens_env
      then some (f1, err not_opened)
      else let f2 = record f1 { env = write (env_text line environments) f.env } in
        if not w.comes_up
        then some (f2, err not_up)
        else if not w.connects
        then some (f2, err no_client)
        else elim (started path run_id now (w.containers main)) [
          | none ↦ none
          | some r ↦ some (f2, r)
        ]

-- `Up`, at a time.
unfoldable pub up :
    (Compose → Bytes)
    → (String → String → Bytes)
    → World
    → ℤ
    → String
    → Dict String
    → ℤ
    → Compose
    → Files
    → Option (Files × Result Error DockerRun)
up encode line w now path environments run_id c f =
    if not w.has_bin then some (f, err no_bin) else elim (guess_main_container c) [
      | err e ↦ some (f, err (main_container e))
      | ok main ↦ up_main encode line w now path environments run_id c f main
    ]
