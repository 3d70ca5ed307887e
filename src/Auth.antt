-- ===== src/Auth.antt =====
-- middlewares/auth.go: a request passes if it carries a token that is signed with the key.
--
-- The package jwt-go is a parameter, `parse`: it is given the function that chooses the key from
-- the signing method, of which the code asks only whether it is an HMAC one.
pub mod Accepted
use Prim.Native.Char.{code}
use batch_scheduler.Base.{
  ℕ, String, Bool, true, false, Option, none, some, List, [], ◌∷◌, if◌then◌else◌, ◌||◌, not,
}
use batch_scheduler.Base
use batch_scheduler.Base.Texts.{split}
use batch_scheduler.Base.Outcome.{Result, ok, err}
use batch_scheduler.Base.Dict.{Dict}
use batch_scheduler.Claims.{Value, Owner, owner_from_jwt, path_from_jwt}
use text.Mathlib.Text.{◌==◌}

pub record Request : Type 0 where
  -- The header `Authorization`, empty if there is none.
  pub authorization : String
  -- The parameter `token` of the query, empty if there is none.
  pub param : String
  -- The cookie `TOKEN`.
  pub cookie : Option String

pub record Token : Type 0 where
  pub is_hmac : Bool
  pub is_valid : Bool
  -- The claims, if they are a map.
  pub claims : Option (Dict Value)

abbrev pub Parse : Type 0
Parse = (Bool → Option String) → String → Option Token

pub data Error : Type 0 where
  bad_header not_bearer no_cookie all_failed : Error

pub data Reply : Type 0 where
  unauthorized bad_request : Reply
  -- The next handler runs, with the user and the path in its context and the cookie that is set.
  next : Owner → String → Option String → Reply

abbrev pub bearer : List String → Result Error (String × Bool)
bearer (kind ∷ token ∷ []) = if kind == "Bearer" then ok (token, false) else err not_bearer
bearer _ = err bad_header

-- `getTokenFromHeader`
unfoldable pub token_from_header : Request → Result Error (String × Bool)
token_from_header r = bearer (split b' ' r.authorization)

-- `getTokenFromParam`
unfoldable pub token_from_param : Request → Result Error (String × Bool)
token_from_param r = ok (r.param, true)

-- `getTokenFromCookies`
unfoldable pub token_from_cookies : Request → Result Error (String × Bool)
token_from_cookies r = elim r.cookie [ none ↦ err no_cookie | some token ↦ ok (token, false) ]

abbrev pub or_else :
    Result Error (String × Bool) → Result Error (String × Bool) → Result Error (String × Bool)
or_else (ok (token, add)) rest = if token == "" then rest else ok (token, add)
or_else (err _) rest = rest

-- The loop of `getToken` over the getters.
unfoldable pub first_token :
    List (Request → Result Error (String × Bool)) → Request → Result Error (String × Bool)
first_token [] r = err all_failed
first_token (get ∷ getters) r = or_else (get r) (first_token getters r)

-- `getToken`
unfoldable pub get_token : Request → Result Error (String × Bool)
get_token r = first_token (token_from_header ∷ token_from_param ∷ token_from_cookies ∷ []) r

-- The function that `Auth` gives to `jwt.Parse`.
unfoldable pub key_for : String → Bool → Option String
key_for key is_hmac = if is_hmac then some key else none

-- `Auth` once the token's claims are a map.
unfoldable pub identify : String → Bool → Dict Value → Reply
identify token add claims = elim (owner_from_jwt claims) [
  | err _ ↦ bad_request
  | ok u ↦ elim (path_from_jwt claims) [
    | err _ ↦ bad_request
    | ok p ↦ next u p (if add then some token else none)
  ]
]

-- `Auth` once `jwt.Parse` has answered.
unfoldable pub accept : String → Bool → Option Token → Reply
accept token add none = unauthorized
accept token add (some t) =
    if not t.is_valid
    then unauthorized
    else (elim t.claims [ none ↦ bad_request | some claims ↦ identify token add claims ])

-- `Auth`
unfoldable pub auth : Parse → String → Request → Reply
auth parse key r = elim (get_token r) [
  | err _ ↦ unauthorized
  | ok (token, add) ↦ accept token add (parse (key_for key) token)
]
