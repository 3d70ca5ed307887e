-- ===== src/Validator/Config.antt =====
-- compose/validator.go: the validator that is made from names.
--
-- `unicode.ToUpper` is a parameter. The configuration is a list in the order of the range over it.
use Prim.Native.Char.{Char, code}
use batch_scheduler.Base.{
  String, Bool, true, false, Option, none, some, List, [], ◌∷◌, ◌++◌, if◌then◌else◌, ◌==◌,
}
use batch_scheduler.Base.Outcome.{Result, ok, err}
use batch_scheduler.Base.Int.{ℤ, pos, negsuc}
use batch_scheduler.Base.Dict.{Dict}
use batch_scheduler.Base.Dict
use batch_scheduler.Compose.{Setting, words, number, other}
use batch_scheduler.Validator.{
  ComposeValidator, VolumeValidator, validate_volume_inplace, validate_no_dot_dot,
  validate_not_as_deep, too_deep,
}
use text.Mathlib.Text.{starts_with}
use text.Mathlib.Text

pub data Error : Type 0 where
  not_a_number unknown_validator : String → Error

-- `k[2:]`, for a text that starts with two characters of one byte.
abbrev pub without_no : String → String
without_no (String.◌∷◌ a (String.◌∷◌ b s)) = s
without_no s = ""

-- The depth may be negative; then every path is too deep.
abbrev pub not_as_deep : ℤ → VolumeValidator
not_as_deep (pos deep) = validate_not_as_deep deep
not_as_deep (negsuc deep) = λ src dest ro. some (too_deep src)

abbrev pub use_volume_validator : VolumeValidator → ComposeValidator → ComposeValidator
use_volume_validator v cv = record cv { volume_validators = cv.volume_validators ++ v ∷ [] }

abbrev pub use_depth : Setting → ComposeValidator → Result Error ComposeValidator
use_depth (number deep) cv = ok (use_volume_validator (not_as_deep deep) cv)
use_depth (words s) cv = err (not_a_number "NotAsDeep")
use_depth other cv = err (not_a_number "NotAsDeep")

abbrev pub use_bad_config :
    String → Option String → ComposeValidator → Result Error ComposeValidator
use_bad_config k none cv = err (unknown_validator k)
use_bad_config k (some c) cv = ok (record cv { bad_config = cv.bad_config ++ c ∷ [] })

module _ (to_upper : Char → Char) where
  -- The loop of `SnakeToCamel`, with whether the next letter is to be raised.
  unfoldable pub camel_from : Bool → String → String
  camel_from up String.[] = ""
  camel_from up (String.◌∷◌ a txt) =
      let raised = camel_from true txt in
      let plain = camel_from false txt in
      if code a == b'_'
      then raised
      else if up
      then String.◌∷◌ (to_upper a) plain
      else String.◌∷◌ a plain

  -- `SnakeToCamel`
  unfoldable pub snake_to_camel : String → String
  snake_to_camel txt = camel_from true txt

  -- The loop of `init` that fills `badConfig`.
  unfoldable pub fill_bad_config : List String → Dict String → Dict String
  fill_bad_config [] bad = bad
  fill_bad_config (config ∷ configs) bad =
      fill_bad_config configs (Dict.insert (snake_to_camel config) config bad)

  -- One key of the configuration.
  unfoldable pub use_key :
      Dict String → String → Setting → ComposeValidator → Result Error ComposeValidator
  use_key bad k v cv =
      if Text.◌==◌ k "VolumeInplace"
      then ok (use_volume_validator validate_volume_inplace cv)
      else if Text.◌==◌ k "NoDotDot"
      then ok (use_volume_validator validate_no_dot_dot cv)
      else if Text.◌==◌ k "NotAsDeep"
      then use_depth v cv
      else if starts_with k "No"
      then use_bad_config k (Dict.lookup (without_no k) bad) cv
      else err (unknown_validator k)

  -- The loop of `NewComposeValidtor`.
  unfoldable pub use_keys :
      Dict String → Dict Setting → ComposeValidator → Result Error ComposeValidator
  use_keys bad [] cv = ok cv
  use_keys bad ((k, v) ∷ cfg) cv = elim (use_key bad k v cv) [
    | err e ↦ err e
    | ok cv' ↦ use_keys bad cfg cv'
  ]

  -- `NewComposeValidtor`
  unfoldable pub new_compose_validator : Dict String → Dict Setting → Result Error ComposeValidator
  new_compose_validator bad cfg =
      use_keys bad cfg (record { volume_validators = []; service_validators = []; bad_config = [] })
