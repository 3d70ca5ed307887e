-- ===== src/Compose/Check.antt =====
-- compose/compose.go and compose/bin.go: `Validate`, which lets docker-compose read a file, and the
-- search for the program, which is remembered once it has succeeded.
--
-- What the host answers is an argument: whether `which` finds the program, the name that
-- `ioutil.TempFile` makes, what the YAML package writes for the nodes of a file, and what `docker-compose config` says of the
-- content of a file, `none` where it accepts it. Nothing else touches the directory of the files.
pub mod Verdict
use batch_scheduler.Base.{
  ℕ, String, Bool, true, false, Option, none, some, List, [], ◌∷◌, if◌then◌else◌, not,
}
use batch_scheduler.Base.Dict.{Dict}
use batch_scheduler.Base.Dict
use batch_scheduler.Base.Outcome.{Result, ok, err}
use batch_scheduler.Compose.{Compose}
use batch_scheduler.Compose.Up.{Bytes}
use batch_scheduler.Compose.Yaml.{Node, marshal_yaml}

pub record Host : Type 0 where
  pub finds_bin : Bool
  pub temp_file : Dict Bytes → Option String
  pub write_yaml : List (String × Node) → Result Bytes Bytes
  pub config : Option Bytes → Option String

-- The global flag, and the files in the directory `validator`.
pub record Checker : Type 0 where
  pub compose_is_here : Bool
  pub files : Dict Bytes

pub data Error : Type 0 where
  no_bin no_temp_file not_encoded : Error
  refused : String → Error

-- `EnsureBin`
abbrev pub ensure_bin : Host → Option Error
ensure_bin h = if h.finds_bin then none else some no_bin

-- `lazyEnsureBin`
unfoldable pub lazy_ensure_bin : Host → Checker → Checker × Option Error
lazy_ensure_bin h k = if k.compose_is_here then (k, none) else elim (ensure_bin h) [
  | some e ↦ (k, some e)
  | none ↦ (record k { compose_is_here = true }, none)
]

abbrev pub refusal : Option String → Option Error
refusal none = none
refusal (some stderr) = some (refused stderr)

-- `Validate` behind the encoder, which may have written a part when it fails; the file is removed on
-- the way out.
abbrev pub check_encoded : Host → String → Result Bytes Bytes → Checker → Checker × Option Error
check_encoded h name (err part) k =
    let written = Dict.insert name part k.files in
    (record k { files = Dict.erase name written }, some not_encoded)
check_encoded h name (ok text) k =
    let written = Dict.insert name text k.files in
    (record k { files = Dict.erase name written }, refusal (h.config (Dict.lookup name written)))

-- `Validate` behind the search for the program.
abbrev pub check_in : Host → Compose → Option String → Checker → Checker × Option Error
check_in h c none k = (k, some no_temp_file)
check_in h c (some name) k = check_encoded h name (h.write_yaml (marshal_yaml c)) k

abbrev pub check : Host → Compose → Checker × Option Error → Checker × Option Error
check h c (k, some e) = (k, some e)
check h c (k, none) = check_in h c (h.temp_file k.files) k

-- `Validate`
unfoldable pub validate : Host → Compose → Checker → Checker × Option Error
validate h c k = check h c (lazy_ensure_bin h k)
