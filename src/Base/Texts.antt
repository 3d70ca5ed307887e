-- ===== src/Base/Texts.antt =====
-- Cutting a text at each separator.
use Prim.Native.Char.{Char, code}
use Prim.Native.Nat.{ℕ}
use Prim.Native.String.{String}
use mathlib.Core.List.{List, [], ◌∷◌}
use batch_scheduler.Base.Tests.{◌==◌, if◌then◌else◌}

-- A character before the first part.
abbrev pub push : Char → List String → List String
push c [] = (String.◌∷◌ c "") ∷ []
push c (w ∷ ws) = (String.◌∷◌ c w) ∷ ws

-- `strings.Split` for a separator of one character.
unfoldable pub split : ℕ → String → List String
split sep String.[] = "" ∷ []
split sep (String.◌∷◌ c s) =
    let rest = split sep s in if code c == sep then "" ∷ rest else push c rest
