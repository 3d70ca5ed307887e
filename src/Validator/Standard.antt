-- ===== src/Validator/Standard.antt =====
-- compose/validator.go: `init`, which makes the standard configuration, with the registries of
-- validators that task/validator.go and task/compose/compose.go fill.
--
-- `unicode.ToUpper` is a parameter. The maps are lists in the order in which they are filled; a range
-- may visit them in another, so that the server takes any list that is the same map.
use Prim.Native.Char.{Char}
use Prim.Native.String
use batch_scheduler.Base.{String, Option, none, some, List, [], ◌∷◌, ◌≡◌, refl, ap, All, ◌∙◌}
use batch_scheduler.Base.Dict.{Dict}
use batch_scheduler.Base.Dict
use batch_scheduler.Base.Int.{pos}
use batch_scheduler.Base.Outcome.{Result, ok, err}
use batch_scheduler.ActionValidator.{ActionValidator, Registry, dummy, compose, register}
use batch_scheduler.Compose.{Setting, number, other}
use batch_scheduler.Validator.{
  ComposeValidator, validate_volume_inplace, validate_no_dot_dot, validate_not_as_deep,
}
use batch_scheduler.Validator.Sources.{HasKey}
use batch_scheduler.Validator.Config.{fill_bad_config, snake_to_camel, new_compose_validator}

abbrev pub bad_names : List String
bad_names =
    "container_name" ∷ "cgroup_parent" ∷ "logging" ∷ "cap_add" ∷ "build" ∷ "domainname" ∷ "hostname"
    ∷ "ipc" ∷ "mac_address" ∷ "privileged" ∷ "stdin_open" ∷ "tty" ∷ []

-- The validator that is made when the configuration is visited in the order in which it is filled.
abbrev pub standard_validator : ComposeValidator
standard_validator = record {
  volume_validators = validate_volume_inplace ∷ validate_no_dot_dot ∷ validate_not_as_deep 8 ∷ [];
  service_validators = [];
  bad_config =
      "container_name" ∷ "cgroup_parent" ∷ "logging" ∷ "cap_add" ∷ "build" ∷ "domainname"
      ∷ "hostname" ∷ "ipc" ∷ "mac_address" ∷ "privileged" ∷ "stdin_open" ∷ "tty" ∷ [];
}

-- The keys for the settings that are refused.
unfoldable pub refused_keys : Dict String → Dict Setting
refused_keys [] = []
refused_keys ((bad, _) ∷ bads) = (String.◌++◌ "No" bad, other) ∷ refused_keys bads

abbrev pub standard_config : Dict String → Dict Setting
standard_config bads =
    ("VolumeInplace", other)
    ∷ ("NoDotDot", other)
    ∷ ("NotAsDeep", number (pos 8))
    ∷ refused_keys bads

abbrev pub made : {E : Type 0} → Result E ComposeValidator → Option ActionValidator
made (err e) = none
made (ok cv) = some (compose cv)

module _ (to_upper : Char → Char) where
  abbrev pub bad_config : Dict String
  bad_config = fill_bad_config to_upper bad_names []

  -- The registry as both `init` leave it, with `ComposeActionValidatorFactory`.
  abbrev pub validator_registry : Registry
  validator_registry =
      ("dummy", λ cfg. some dummy)
      ∷ ("compose", λ cfg. made (new_compose_validator to_upper bad_config cfg))
      ∷ []

  -- The list is the standard configuration, in the order of some range over it.
  abbrev pub IsStandard : Dict Setting → Type 0
  IsStandard cfg = (k : String) → Dict.lookup k cfg ≡ Dict.lookup k (standard_config bad_config)

  -- The validators that `Run` of the server registers, from the standard configuration in the order of
  -- a range over it.
  unfoldable pub server_validators : Dict Setting → Option (Dict ActionValidator)
  server_validators cfg = register validator_registry (("compose", cfg) ∷ []) []

  pairs : List String → Dict String
  pairs [] = []
  pairs (config ∷ configs) = (snake_to_camel to_upper config, config) ∷ pairs configs

fill_pairs : Dict String → Dict String → Dict String
fill_pairs [] bad = bad
fill_pairs ((k, config) ∷ ps) bad = fill_pairs ps (Dict.insert k config bad)

fill-eq :
    (to_upper : Char → Char) (configs : List String) (bad : Dict String)
    → fill_bad_config to_upper configs bad ≡ fill_pairs (pairs to_upper configs) bad
unfolding fill_bad_config pairs fill_pairs
fill-eq to_upper [] bad = refl
fill-eq to_upper (config ∷ configs) bad = fill-eq to_upper configs _

-- The letters that begin a word of a name, with their capitals.
abbrev pub capitals : List (Char × Char)
capitals =
    ("a", "A")
    ∷ ("b", "B")
    ∷ ("c", "C")
    ∷ ("d", "D")
    ∷ ("h", "H")
    ∷ ("i", "I")
    ∷ ("l", "L")
    ∷ ("m", "M")
    ∷ ("n", "N")
    ∷ ("o", "O")
    ∷ ("p", "P")
    ∷ ("s", "S")
    ∷ ("t", "T")
    ∷ []

abbrev pub IsRaised : (Char → Char) → Char × Char → Type 0
IsRaised to_upper (small, capital) = to_upper small ≡ capital

abbrev camel_names : Dict String
camel_names =
    ("ContainerName", "container_name")
    ∷ ("CgroupParent", "cgroup_parent")
    ∷ ("Logging", "logging")
    ∷ ("CapAdd", "cap_add")
    ∷ ("Build", "build")
    ∷ ("Domainname", "domainname")
    ∷ ("Hostname", "hostname")
    ∷ ("Ipc", "ipc")
    ∷ ("MacAddress", "mac_address")
    ∷ ("Privileged", "privileged")
    ∷ ("StdinOpen", "stdin_open")
    ∷ ("Tty", "tty")
    ∷ []

before : String → String → String
before String.[] rest = rest
before (String.◌∷◌ a letters) rest = String.◌∷◌ a (before letters rest)

abbrev word : Char → String → String → String
word initial letters rest = String.◌∷◌ initial (before letters rest)

pairs-eq :
    (to_upper : Char → Char)
    → All (IsRaised to_upper) capitals
    → pairs to_upper bad_names ≡ camel_names
unfolding pairs before snake_to_camel batch_scheduler.Validator.Config.camel_from
pairs-eq to_upper (a, (b, (c, (d, (h, (i, (l, (m, (n, (o, (p, (s, (t, _))))))))))))) = λ j.
    (word (c j) "ontainer" (word (n j) "ame" ""), "container_name")
    ∷ (word (c j) "group" (word (p j) "arent" ""), "cgroup_parent")
    ∷ (word (l j) "ogging" "", "logging")
    ∷ (word (c j) "ap" (word (a j) "dd" ""), "cap_add")
    ∷ (word (b j) "uild" "", "build")
    ∷ (word (d j) "omainname" "", "domainname")
    ∷ (word (h j) "ostname" "", "hostname")
    ∷ (word (i j) "pc" "", "ipc")
    ∷ (word (m j) "ac" (word (a j) "ddress" ""), "mac_address")
    ∷ (word (p j) "rivileged" "", "privileged")
    ∷ (word (s j) "tdin" (word (o j) "pen" ""), "stdin_open")
    ∷ (word (t j) "ty" "", "tty")
    ∷ []

filled : fill_pairs camel_names [] ≡ camel_names
unfolding fill_pairs Dict.insert
filled = refl

bad_config-eq :
    (to_upper : Char → Char) → All (IsRaised to_upper) capitals → bad_config to_upper ≡ camel_names
bad_config-eq to_upper h =
    fill-eq to_upper bad_names [] ∙ ap (λ ps. fill_pairs ps []) (pairs-eq to_upper h) ∙ filled

made-eq :
    (to_upper : Char → Char)
    → new_compose_validator to_upper camel_names (standard_config camel_names)
      ≡ ok standard_validator
unfolding new_compose_validator refused_keys batch_scheduler.Validator.Config.use_keys
    batch_scheduler.Validator.Config.use_key Dict.lookup
made-eq to_upper = refl

registered-eq :
    (to_upper : Char → Char) (bads : Dict String)
    → bads ≡ camel_names
    → register
        (("dummy", λ cfg. some dummy)
          ∷ ("compose", λ cfg. made (new_compose_validator to_upper bads cfg))
          ∷ [])
        (("compose", standard_config bads) ∷ [])
        []
      ≡ some (("compose", compose standard_validator) ∷ [])
unfolding register Dict.lookup Dict.insert
registered-eq to_upper bads e =
    ap (λ r. elim (made r) [ none ↦ none | some v ↦ some (Dict.insert "compose" v []) ])
      (ap (λ b. new_compose_validator to_upper b (standard_config b)) e ∙ made-eq to_upper)

pub server_validators-eq :
    (to_upper : Char → Char)
    → All (IsRaised to_upper) capitals
    → server_validators to_upper (standard_config (bad_config to_upper))
      ≡ some (("compose", compose standard_validator) ∷ [])
unfolding server_validators
server_validators-eq to_upper h = registered-eq to_upper _ (bad_config-eq to_upper h)

made_by :
    {E : Type 0} {cv : ComposeValidator} (r : Result E ComposeValidator)
    → ◌≡◌ {A = Option (Dict ActionValidator)}
        (elim (made r) [ none ↦ none | some v ↦ some (Dict.insert "compose" v []) ])
        (some (("compose", compose cv) ∷ []))
    → r ≡ ok cv
unfolding Dict.insert
made_by (err e) h = cc h
made_by (ok cv) h = cc h

-- The validator of compose actions that is registered is made from the configuration.
pub server_validators-made :
    (to_upper : Char → Char) (cfg : Dict Setting) (cv : ComposeValidator)
    → server_validators to_upper cfg ≡ some (("compose", compose cv) ∷ [])
    → new_compose_validator to_upper (bad_config to_upper) cfg ≡ ok cv
unfolding server_validators register Dict.lookup
server_validators-made to_upper cfg cv e = made_by _ e

-- The standard configuration has the keys of the validators of sources.
pub standard-HasKey :
    (to_upper : Char → Char) (cfg : Dict Setting)
    → IsStandard to_upper cfg
    → HasKey "VolumeInplace" cfg × HasKey "NoDotDot" cfg
unfolding Dict.lookup
standard-HasKey to_upper cfg same = ((other, same "VolumeInplace"), (other, same "NoDotDot"))
