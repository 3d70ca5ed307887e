-- ===== src/Auth/Accepted.antt =====
-- What is known of a request that passes the authentication.
use batch_scheduler.Base.{
  String, Bool, true, Option, none, some, ◌≡◌, ◌≢◌, refl, arith, inl, inr, Bool-cases, Option-cases,
  if◌then◌else◌,
}
use batch_scheduler.Base.Outcome.{ok, Result-cases}
use batch_scheduler.Base.Dict.{Dict}
use batch_scheduler.Claims.{Value, Owner, owner_from_jwt, path_from_jwt}
use batch_scheduler.Auth.{Request, Token, Parse, next, auth, accept, identify, get_token, key_for}

-- What jwt-go documents: a token is parsed only if the key function gives a key for its method.
abbrev pub ChecksMethod : Parse → Type 0
ChecksMethod parse =
    (choose : Bool → Option String) (token : String) (t : Token)
    → parse choose token ≡ some t
    → choose t.is_hmac ≢ none

-- The token of a request, and what it says.
pub record Credentials (parse : Parse) (key : String) (r : Request) (u : Owner) (p : String)
    (cookie : Option String) : Type 0 where
  pub token : String
  pub add : Bool
  pub parsed : Token
  pub claims : Dict Value
  pub carried : get_token r ≡ ok (token, add)
  pub signed : parse (key_for key) token ≡ some parsed
  pub with_hmac : parsed.is_hmac ≡ true
  pub is_valid : parsed.is_valid ≡ true
  pub with_claims : parsed.claims ≡ some claims
  pub of_owner : owner_from_jwt claims ≡ ok u
  pub of_path : path_from_jwt claims ≡ ok p
  pub sets_cookie : cookie ≡ (if add then some token else none)

identify-next :
    (token : String) (add : Bool) (claims : Dict Value) (u : Owner) (p : String)
    (cookie : Option String)
    → identify token add claims ≡ next u p cookie
    → (owner_from_jwt claims ≡ ok u)
      × (path_from_jwt claims ≡ ok p)
      × (cookie ≡ (if add then some token else none))
unfolding identify
identify-next token add claims u p cookie e = elim (Result-cases (owner_from_jwt claims)) [
  | inr (f, bad) ↦ absurd (ground (arith, bad, e))
  | inl (u', good) ↦ elim (Result-cases (path_from_jwt claims)) [
    | inr (f, bad) ↦ absurd (ground (arith, good, bad, e))
    | inl (p', found) ↦ ground (arith, good, found, e)
  ]
]

accept-next :
    (token : String) (add : Bool) (o : Option Token) (u : Owner) (p : String)
    (cookie : Option String)
    → accept token add o ≡ next u p cookie
    → (t : Token) × (claims : Dict Value) × (o ≡ some t)
      × (t.is_valid ≡ true)
      × (t.claims ≡ some claims)
      × (identify token add claims ≡ next u p cookie)
unfolding accept
accept-next token add none u p cookie e = cc
accept-next token add (some t) u p cookie e = elim (Bool-cases t.is_valid) [
  | inr bad ↦ absurd (ground (arith, bad, e))
  | inl good ↦ elim (Option-cases t.claims) [
    | inl none_there ↦ absurd (ground (arith, good, none_there, e))
    | inr (claims, found) ↦ (t, claims, refl, good, found, ground (arith, good, found, e))
  ]
]

key_for-hmac : (key : String) (b : Bool) → key_for key b ≢ none → b ≡ true
unfolding key_for
key_for-hmac key b h = ground (arith, h)

-- A request reaches the next handler only if it carries a valid token that an HMAC method signs
-- under the key; the user and the path that the handler sees are those of the token's claims, and
-- the cookie is set only if the token came as a parameter. It assumes that the token package
-- accepts a token only where the key function gives a key for its method.
pub auth-next :
    (parse : Parse)
    → ChecksMethod parse
    → (key : String) (r : Request) (u : Owner) (p : String) (cookie : Option String)
    → auth parse key r ≡ next u p cookie
    → Credentials parse key r u p cookie
unfolding auth
auth-next parse checks key r u p cookie e = elim (Result-cases (get_token r)) [
  | inr (f, bad) ↦ absurd (ground (arith, bad, e))
  | inl ((token, add), carried) ↦
      let accepted : accept token add (parse (key_for key) token) ≡ next u p cookie =
        ground (arith, carried, e) in
      let (t, claims, signed, is_valid, with_claims, identified) =
        accept-next token add _ u p cookie accepted in
      let (of_owner, of_path, sets_cookie) = identify-next token add claims u p cookie identified in
      record {
        token = token;
        add = add;
        parsed = t;
        claims = claims;
        carried = carried;
        signed = signed;
        with_hmac = key_for-hmac key t.is_hmac (checks (key_for key) token t signed);
        is_valid = is_valid;
        with_claims = with_claims;
        of_owner = of_owner;
        of_path = of_path;
        sets_cookie = sets_cookie;
      }
]
