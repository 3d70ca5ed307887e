-- ===== src/Compose/Yaml/RoundTrip.antt =====
-- compose/compose.go: a compose file that is written and read again.
use batch_scheduler.Base.{true, none, List, map, ◌≡◌, All}
use batch_scheduler.Base.Dict.{Dict}
use batch_scheduler.Base.Dict
use batch_scheduler.Compose.{Compose, Setting}
use batch_scheduler.Compose.Yaml.{Node, settings}
use text.Mathlib.Text.{starts_with}

module _ {V : Type 0} where
  -- The keys of the first map are not in the second.
  abbrev IsApart : {W : Type 0} → Dict W → Dict V → Type 0
  IsApart found known = All (λ entry. Dict.lookup entry.0 known ≡ none) found

-- The extensions as nodes.
abbrev as_nodes : Dict (Dict Setting) → Dict Node
as_nodes x = map (λ entry. (entry.0, settings entry.1)) x

-- The keys of the extensions.
abbrev pub AreExtensions : Dict (Dict Setting) → Type 0
AreExtensions x = All (λ entry. starts_with entry.0 "x-" ≡ true) x
