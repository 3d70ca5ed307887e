-- ===== src/Samples/Requests.antt =====
-- Requests of bob and of a user without a name.
use batch_scheduler.Base.{none, some, List, [], ◌≡◌, ◌≢◌, refl, String, true, false, All, arith}
use batch_scheduler.Base.Int.{pos}
use batch_scheduler.Base.Outcome.{ok}
use batch_scheduler.Base.Dict.{Dict, NodupKeys}
use batch_scheduler.Base.Dict
use Prim.Native.String
use batch_scheduler.Base.{Option, ◌∷◌}
use batch_scheduler.GetVolumes.{Paths, get_volumes}
use text.Mathlib.Text.{◌==◌}
use batch_scheduler.Samples.{env, stored_task, scheduler, bob, nobody, claims}
use batch_scheduler.Base.{Option-cases, inl, inr}
use batch_scheduler.Scheduler.{get_task, list}
use batch_scheduler.Auth.{Request, Parse}
use batch_scheduler.Auth.Accepted.{ChecksMethod, Credentials, auth-next}
use batch_scheduler.Handlers.{get_tasks, reply_tasks, delete_tasks, delete_later}
use batch_scheduler.Handlers.Ownership.{get_tasks_nameless, delete_tasks_other}
use batch_scheduler.Samples.Examples.{found}

get_tasks_nameless_example :
    get_tasks env nobody none [] scheduler ≡ reply_tasks env (list env scheduler)
get_tasks_nameless_example = get_tasks_nameless env nobody scheduler refl refl

delete_tasks_other_example :
    ((delete_tasks env some (pos 8) nobody "a" false scheduler).0.code ≡ 202)
    × (get_task env "a"
          (delete_later env (delete_tasks env some (pos 8) nobody "a" false scheduler).2 scheduler)
        ≡ ok none)
delete_tasks_other_example =
    delete_tasks_other env some (pos 8) nobody "a" "a" stored_task scheduler refl found

abbrev request : Request
request = record { authorization = "Bearer sesame"; param = ""; cookie = none }

-- A package that takes every token for a valid one of bob.
abbrev pub parse : Parse
parse choose token = elim (choose true) [
  | none ↦ none
  | some key ↦ some (record { is_hmac = true; is_valid = true; claims = some claims })
]

pub parse-ChecksMethod : ChecksMethod parse
parse-ChecksMethod choose token t e absent = elim (Option-cases (choose true)) [
  | inl missing ↦ absurd (ground (arith, missing, e))
  | inr (key, given) ↦
      let is_hmac : t.is_hmac ≡ true = ground (arith, given, e) in
      absurd (ground (arith, given, is_hmac, absent))
]

auth-next_example : Credentials parse "key" request bob "" none
unfolding batch_scheduler.Auth.auth batch_scheduler.Auth.get_token batch_scheduler.Auth.first_token
    batch_scheduler.Auth.token_from_header batch_scheduler.Base.Texts.split
    batch_scheduler.Auth.accept batch_scheduler.Auth.key_for batch_scheduler.Auth.identify
    batch_scheduler.Claims.owner_from_jwt batch_scheduler.Claims.owner_claim Dict.lookup
    batch_scheduler.Claims.admin_claim batch_scheduler.Claims.path_from_jwt
    batch_scheduler.Claims.path_claim
auth-next_example = auth-next parse parse-ChecksMethod "key" request bob "" none refl

-- The glob is an equation, and the elements are joined without their slashes.
abbrev pub joined : List String → String
joined [] = ""
joined (part ∷ parts) = String.◌++◌ part (joined parts)

abbrev pub volumes : Paths
volumes = record { join = joined; glob = λ p q. some (p == q); exists = λ _. true }

one_file :
    get_volumes volumes "/data" (some "a") (some "/dataavolumesbc") "/api/tasks/a/volumes/b/c"
    ≡ (200, some "/dataavolumesbc")
unfolding get_volumes batch_scheduler.GetVolumes.extract_path_from_url
    batch_scheduler.Base.Texts.split
one_file = refl
