-- ===== src/Claims.antt =====
-- owner/owner.go and path/path.go: what the claims of a token say about a user.
use batch_scheduler.Base.{String, Bool, false, Option, none, some}
use batch_scheduler.Base.Outcome.{Result, ok, err}
use batch_scheduler.Base.Dict.{Dict}
use batch_scheduler.Base.Dict

-- A value of `map[string]interface{}`, as far as the code tells them apart.
pub data Value : Type 0 where
  text : String → Value
  flag : Bool → Value
  other : Value

pub record Owner : Type 0 where
  pub name : String
  pub admin : Bool

pub data Error : Type 0 where
  missing_owner owner_not_text admin_not_flag path_not_text no_user no_path : Error

-- The claim `admin`, which may be missing.
unfoldable pub admin_claim : Option Value → Result Error Bool
admin_claim none = ok false
admin_claim (some (flag b)) = ok b
admin_claim (some (text _)) = err admin_not_flag
admin_claim (some other) = err admin_not_flag

unfoldable pub owner_claim : Option Value → Option Value → Result Error Owner
owner_claim none admin = err missing_owner
owner_claim (some (flag _)) admin = err owner_not_text
owner_claim (some other) admin = err owner_not_text
owner_claim (some (text name)) admin = elim (admin_claim admin) [
  | err e ↦ err e
  | ok b ↦ ok (record { name = name; admin = b })
]

-- `FromJWT` of owner/owner.go
unfoldable pub owner_from_jwt : Dict Value → Result Error Owner
owner_from_jwt claims = owner_claim (Dict.lookup "owner" claims) (Dict.lookup "admin" claims)

unfoldable pub path_claim : Option Value → Result Error String
path_claim none = ok ""
path_claim (some (text p)) = ok p
path_claim (some (flag _)) = err path_not_text
path_claim (some other) = err path_not_text

-- `FromJWT` of path/path.go
unfoldable pub path_from_jwt : Dict Value → Result Error String
path_from_jwt claims = path_claim (Dict.lookup "path" claims)

-- The context of a request, as far as these packages put values into it.
pub record Context : Type 0 where
  pub user : Option Owner
  pub path : Option String

abbrev pub background : Context
background = record { user = none; path = none }

-- `ToCtx` of owner/owner.go
unfoldable pub owner_to_ctx : Owner → Context → Context
owner_to_ctx u ctx = record ctx { user = some u }

-- `FromCtx` of owner/owner.go
unfoldable pub owner_from_ctx : Context → Result Error Owner
owner_from_ctx ctx = elim ctx.user [ none ↦ err no_user | some u ↦ ok u ]

-- `ToCtx` of path/path.go
unfoldable pub path_to_ctx : String → Context → Context
path_to_ctx p ctx = record ctx { path = some p }

-- `FromCtx` of path/path.go
unfoldable pub path_from_ctx : Context → Result Error String
path_from_ctx ctx = elim ctx.path [ none ↦ err no_path | some p ↦ ok p ]
