-- ===== src/Compose/Yaml.antt =====
-- compose/compose.go: `UnmarshalYAML` and `MarshalYAML`.
pub mod RoundTrip
use batch_scheduler.Base.{
  String, Bool, true, false, Option, none, some, List, [], ◌∷◌, ◌++◌, map, if◌then◌else◌, ◌≡◌, refl,
  arith, All, sym, ap, ◌∙◌,
}
use batch_scheduler.Base.Outcome.{Result, ok, err}
use batch_scheduler.Base.Dict.{Dict, NodupKeys}
use batch_scheduler.Base.Dict
use batch_scheduler.Compose.{Compose, Service, Setting, new_compose}
use text.Mathlib.Text.{◌==◌, starts_with}

-- A value of the top level of a file, as far as it is of the form that is decoded there.
pub data Node : Type 0 where
  scalar : String → Node
  services : Dict (Option Service) → Node
  settings : Dict Setting → Node
  other : Node

pub data Error : Type 0 where
  bad_services bad_extension : Error

-- `v.Decode(&c.Version)`, whose error is dropped.
abbrev pub decode_version : String → Node → String
decode_version old (scalar version) = version
decode_version old (services s) = old
decode_version old (settings s) = old
decode_version old other = old

-- The loop over the decoded services.
unfoldable pub add_services : Dict (Option Service) → Dict (Option Service) → Dict (Option Service)
add_services [] known = known
add_services ((name, s) ∷ found) known = add_services found (Dict.insert name s known)

abbrev pub read_services : Compose → Node → Result Error Compose
read_services c (services s) = ok (record c { services = add_services s c.services })
read_services c (scalar t) = err bad_services
read_services c (settings s) = err bad_services
read_services c other = err bad_services

abbrev pub read_extension : String → Compose → Node → Result Error Compose
read_extension key c (settings s) = ok (record c { x = Dict.insert key s c.x })
read_extension key c (scalar t) = err bad_extension
read_extension key c (services s) = err bad_extension
read_extension key c other = err bad_extension

-- The `switch` on one key.
unfoldable pub read_entry : String → Node → Compose → Result Error Compose
read_entry key node c =
    if key == "version"
    then ok (record c { version = decode_version c.version node })
    else if key == "services"
    then read_services c node
    else if starts_with key "x-"
    then read_extension key c node
    else ok c

-- `UnmarshalYAML` of a mapping, as the list of its keys and values.
unfoldable pub unmarshal_yaml : List (String × Node) → Compose → Result Error Compose
unmarshal_yaml [] c = ok c
unmarshal_yaml ((key, node) ∷ nodes) c = elim (read_entry key node c) [
  | err e ↦ err e
  | ok c' ↦ unmarshal_yaml nodes c'
]

-- The loop of `MarshalYAML` over the extensions.
unfoldable pub marshal_extensions : Dict (Dict Setting) → Dict Node → Dict Node
marshal_extensions [] nodes = nodes
marshal_extensions ((key, s) ∷ x) nodes = marshal_extensions x (Dict.insert key (settings s) nodes)

-- `MarshalYAML`
unfoldable pub marshal_yaml : Compose → List (String × Node)
marshal_yaml c =
    marshal_extensions c.x
      (Dict.insert "services" (services c.services) (Dict.insert "version" (scalar c.version) []))
