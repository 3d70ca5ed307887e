-- ===== src/Api/Guarded.antt =====
-- handlers/api/api.go: nothing happens for a request without credentials.
use batch_scheduler.Base.{
  String, Option, some, [], ◌≡◌, ◌⊎◌, inl, inr, refl, arith, ℕ, subst, sym, ◌∙◌,
}
use batch_scheduler.Base.Dict.{Dict}
use batch_scheduler.Base.Int.{ℤ}
use batch_scheduler.Base.Sort.{>>=-eq-some, Holds, Holds-self}
use batch_scheduler.Auth
use batch_scheduler.Auth.{auth, next, unauthorized, bad_request}
use batch_scheduler.Auth.Accepted.{ChecksMethod, Credentials, auth-next}
use batch_scheduler.Claims.{Owner, Context, owner_to_ctx, path_to_ctx, background, owner_from_ctx}
use batch_scheduler.Scheduler.{Scheduler}
use batch_scheduler.Api.{
  Api, HttpRequest, Outcome, Route, Routing, routes, not_found, method_not_allowed, found, plain,
  auth_request, call, wrap_my_handler, guard, dispatch, with_cookie, serve,
}

-- The request is refused: the scheduler is as it was, and neither content nor a cookie is sent.
abbrev pub IsRefused : Scheduler → Outcome → Type 0
IsRefused s (s', response, later) = (code : ℕ) × (s' ≡ s) × (response ≡ plain code) × (later ≡ [])

-- The context that a handler is given.
abbrev pub context_of : Owner → String → Context
context_of u p = path_to_ctx p (owner_to_ctx u background)

module _ (api : Api) (now : ℤ) (random : Option String) (r : HttpRequest) (s : Scheduler) where
  -- The request is routed, carries credentials, and is answered by the route's handler for their
  -- user and path.
  pub record IsServed (out : Outcome) : Type 0 where
    pub route : Route
    pub vars : Dict String
    pub user : Owner
    pub path : String
    pub cookie : Option String
    pub answer : Outcome
    pub routed : api.mux routes r.method r.path ≡ found route vars
    pub credentials : Credentials api.parse api.key (auth_request r) user path cookie
    pub handled :
        call api now random route.endpoint user (context_of user path) vars r s ≡ some answer
    pub sent : with_cookie api now random cookie answer ≡ out

  wrap_my_handler_lem :
      (route : Route) (u : Owner) (p : String) (vars : Dict String)
      → wrap_my_handler api now random route.endpoint (context_of u p) vars r s
        ≡ call api now random route.endpoint u (context_of u p) vars r s
  unfolding wrap_my_handler owner_from_ctx path_to_ctx owner_to_ctx
  wrap_my_handler_lem route u p vars = refl

  guard-IsServed :
      ChecksMethod api.parse
      → (route : Route) (vars : Dict String) → api.mux routes r.method r.path ≡ found route vars
      → (reply : Auth.Reply) → auth api.parse api.key (auth_request r) ≡ reply
      → Holds (λ out. IsRefused s out ⊎ IsServed out) (guard api now random reply route vars r s)
  unfolding guard
  guard-IsServed checks route vars routed unauthorized e = inl (401, refl, refl, refl)
  guard-IsServed checks route vars routed bad_request e = inl (400, refl, refl, refl)
  guard-IsServed checks route vars routed (next u p cookie) e =
      Holds-self {P = λ out. IsRefused s out ⊎ IsServed out} _ (λ out sent.
        let (answer, handled, last) =
          >>=-eq-some (wrap_my_handler api now random route.endpoint (context_of u p) vars r s) _
            sent in
        inr (record {
          route = route;
          vars = vars;
          user = u;
          path = p;
          cookie = cookie;
          answer = answer;
          routed = routed;
          credentials = auth-next api.parse checks api.key (auth_request r) u p cookie e;
          handled = sym (wrap_my_handler_lem route u p vars) ∙ handled;
          sent = ground (arith, last);
        }))

  dispatch-IsServed :
      ChecksMethod api.parse
      → (routing : Routing) → api.mux routes r.method r.path ≡ routing
      → Holds (λ out. IsRefused s out ⊎ IsServed out) (dispatch api now random routing r s)
  dispatch-IsServed checks not_found e = inl (404, refl, refl, refl)
  dispatch-IsServed checks method_not_allowed e = inl (405, refl, refl, refl)
  dispatch-IsServed checks (found route vars) e = guard-IsServed checks route vars e _ refl

  -- A request that is answered is either refused, with the scheduler as it was and no content, no
  -- cookie and nothing to be deleted later; or it is routed by the table of `RegisterAPI`, carries a
  -- valid token that an HMAC method signs under the key, and is answered by the route's handler for
  -- the user and the path of that token. It assumes that the token package accepts a token only
  -- where the key function gives a key for its method.
  pub serve-IsServed :
      {out : Outcome}
      → ChecksMethod api.parse
      → serve api now random r s ≡ some out
      → IsRefused s out ⊎ IsServed out
  unfolding serve
  serve-IsServed checks e =
      subst (Holds (λ out. IsRefused s out ⊎ IsServed out)) e (dispatch-IsServed checks _ refl)
