-- ===== src/Deploy/Confined.antt =====
-- What docker-compose is given to run for a task that the API has accepted: runner/runner.go behind
-- task/validator.go, with the recomposators that server/server.go registers.
use batch_scheduler.Base.{
  String, Option, some, List, [], ◌∷◌, ◌++◌, ◌≡◌, refl, sym, ◌∙◌, All, arith, subst, Bool-cases,
  inl, inr, map, length, true, Option-cases,
}
use batch_scheduler.Base.Outcome.{Result, ok, err}
use batch_scheduler.Base.Dict.{Dict}
use batch_scheduler.Base.Dict
use batch_scheduler.Base.Int.{ℤ, pos, ◌+ℤ◌, int64}
use batch_scheduler.Base.Sort.{>>=-eq-some}
use batch_scheduler.ActionValidator.{
  ActionValidator, validate_action, validate_with, compose, invalid,
}
use batch_scheduler.Compose.{Compose, Setting}
use batch_scheduler.Validator.Sources.{HasKey}
use batch_scheduler.Validator.Config.{new_compose_validator}
use batch_scheduler.Compose.Cache.{IsService}
use batch_scheduler.Compose.Up.{Bytes, Files}
use batch_scheduler.Compose.Up
use batch_scheduler.Compose.Up.Written.{up-IsUp, drop}
use batch_scheduler.DockerRun.{DockerRun}
use batch_scheduler.Recompose.{patch_volume, recompose}
use batch_scheduler.Recompose.Config.{
  Recomposator, register, new_recomposator, recompose_action, network,
}
use batch_scheduler.Recompose.Config
use batch_scheduler.Recompose.Runnable.{IsRunnable, IsRange}
use batch_scheduler.Recompose.Validated.{validated-IsRunnable, HasLabelMap}
use batch_scheduler.Runner.{comes_up, mkdir_fails, recompose_fails, up_fails, Outcome}
use batch_scheduler.Runner
use batch_scheduler.Server.{recomposator_config}
use batch_scheduler.Task.{Task, Action, Run, Formats, inject_predefined_env}
use batch_scheduler.Validator.{validate, ComposeValidator}
use batch_scheduler.Validator.Standard.{
  IsStandard, bad_config, server_validators, server_validators-made, standard-HasKey,
}
use Prim.Native.Char.{Char}
use batch_scheduler.Validator.Reports.{IsReadThrough}
use batch_scheduler.Deploy.{
  Surroundings, encode, deploy, run_task, up_recomposed, outcome_of, Outcome, up_fails,
}

-- The recomposators of the server.
unfoldable pub standard_recomposators : {E : Type 0} → Result (Config.Error E) (Dict Recomposator)
standard_recomposators =
    register (("compose", λ project cfg. new_recomposator cfg) ∷ []) "bob" recomposator_config []

abbrev mover : Recomposator
mover = record { volume_patchers = patch_volume "./volumes" ∷ [] }

standard-eq : {E : Type 0} → standard_recomposators {E = E} ≡ ok (("compose", mover) ∷ [])
unfolding standard_recomposators register Dict.lookup new_recomposator Config.use_config
    batch_scheduler.Recompose.patch_volume_in_volumes Dict.insert
standard-eq = refl

map_nil : {A B : Type 0} (f : A → B) (l : List A) → map f l ≡ [] → l ≡ []
map_nil f [] e = refl
map_nil f (x ∷ l) e = cc e

accepted_by :
    (as_compose : Action → Option Compose) (validators : Dict ActionValidator) (a : Action)
    (c : Compose) (cv : ComposeValidator)
    → Dict.lookup a.registered_name validators ≡ some (compose cv)
    → as_compose a ≡ some c
    → validate_action as_compose validators a ≡ []
    → validate cv c.services ≡ []
unfolding validate_action
accepted_by as_compose validators a c cv found cast accepted =
    map_nil invalid (validate cv c.services)
      (rw (found, cast, validate_action, validate_with) at accepted)

sole_entry :
    {V : Type 0} (v : V) (k : String) → k ≡ "compose" → Dict.lookup k (("compose", v) ∷ []) ≡ some v
unfolding Dict.lookup
sole_entry v k same = subst (λ k'. Dict.lookup k' (("compose", v) ∷ []) ≡ some v) (sym same) refl

-- What the files hold for docker-compose: the text of a file in which every service is runnable.
abbrev pub IsConfined : (Compose → Bytes) → Files → Files → Type 0
IsConfined encode f f' =
    (prod : Compose) × All (IsService (IsRunnable "./volumes")) prod.services
    × (f'.compose_yml ≡ encode prod ++ drop (length (encode prod)) f.compose_yml)

-- A start without an error is one whose action came up.
comes_up_of :
    (formats : Formats) (now : ℤ) (o : Outcome) (t t' : Task) (r : Option Run)
    → Runner.up formats now o t ≡ some (t', r, true)
    → (run : Run) × (o ≡ comes_up run)
unfolding Runner.up
comes_up_of formats now mkdir_fails t t' r e = cc e
comes_up_of formats now recompose_fails t t' r e = elim (Option-cases t.action) [
  | inl missing ↦ cc (rw missing at e)
  | inr (a, acts) ↦ cc (rw acts at e)
]
comes_up_of formats now (up_fails r') t t' r e =
    let (t1, injected, rest) =
      >>=-eq-some
        (inject_predefined_env formats now
          (record t { run_counter = int64 (t.run_counter +ℤ pos 1) }))
        _ e in
    cc rest
comes_up_of formats now (comes_up run) t t' r e = (run, refl)

module _ {E : Type 0} (sur : Surroundings E) where
  outcome-IsConfined :
      (now : ℤ) (t : Task) (f f' f1 : Files) (run : Run) (prod : Compose)
      → All (IsService (IsRunnable "./volumes")) prod.services
      → (r : Result Up.Error DockerRun)
      → Up.up (encode sur) sur.line sur.world now sur.pwd t.environments t.run_counter prod f
        ≡ some (f1, r)
      → ◌≡◌ {A = Option (Files × Outcome)} (some (f1, outcome_of sur r)) (some (f', comes_up run))
      → IsConfined (encode sur) f f'
  outcome-IsConfined now t f f' f1 run prod runnable (err e) upped last = cc last
  outcome-IsConfined now t f f' f1 run prod runnable (ok d) upped last =
      let (written, _, _) =
        up-IsUp (encode sur) sur.line sur.world now sur.pwd t.environments t.run_counter prod f f1 d
          upped in
      let same : f1 ≡ f' = cc last in
      subst (IsConfined (encode sur) f) same (prod, runnable, written)

  up-IsConfined :
      (now : ℤ) (t : Task) (f f' : Files) (run : Run) (prod : Compose)
      → All (IsService (IsRunnable "./volumes")) prod.services
      → up_recomposed sur now t f (some (ok prod)) ≡ some (f', comes_up run)
      → IsConfined (encode sur) f f'
  up-IsConfined now t f f' run prod runnable e =
      let (t', injected, rest) =
        >>=-eq-some
          (inject_predefined_env sur.formats now
            (record t { run_counter = int64 (t.run_counter +ℤ pos 1) }))
          _ e in
      let ((f1, r), upped, last) =
        >>=-eq-some
          (Up.up (encode sur) sur.line sur.world now sur.pwd t'.environments t'.run_counter prod f)
          _ rest in
      outcome-IsConfined now t' f f' f1 run prod runnable r upped last

  recomposed_by :
      (mine : Dict Recomposator) (a : Action) (c prod : Compose) (n : String)
      → Dict.lookup a.registered_name mine ≡ some mover
      → sur.as_compose a ≡ some c
      → sur.network ≡ ok n
      → recompose {E = E} sur.again (patch_volume "./volumes" ∷ []) (ok n) c ≡ some (ok prod)
      → recompose_action sur.again sur.as_compose sur.network mine a ≡ some (ok prod)
  unfolding recompose_action Config.recompose_compose
  recomposed_by mine a c prod n found cast named made =
      rw (found, cast, named, made, recompose_action, Config.recompose_compose) refl

  deploy-IsConfined :
      (to_upper : Char → Char) (bads : Dict String) (cfg : Dict Setting) (cv : ComposeValidator)
      → HasKey "VolumeInplace" cfg
      → HasKey "NoDotDot" cfg
      → new_compose_validator to_upper bads cfg ≡ ok cv
      → IsRange sur.again
      → (mine : Dict Recomposator) (now : ℤ) (t : Task) (a : Action) (c : Compose) (n : String)
      → (f f' : Files) (run : Run) → standard_recomposators {E = E} ≡ ok mine
      → t.action ≡ some a
      → a.registered_name ≡ "compose"
      → sur.as_compose a ≡ some c
      → sur.network ≡ ok n
      → All (IsReadThrough cv) c.services
      → All (IsService HasLabelMap) c.services
      → validate_action sur.as_compose (("compose", compose cv) ∷ []) a ≡ []
      → deploy sur mine now t f ≡ some (f', comes_up run)
      → IsConfined (encode sur) f f'
  unfolding deploy
  deploy-IsConfined to_upper bads cfg cv inplace dots config ranges mine now t a c n f f' run std
        acts named cast net through labelled accepted e =
      let valid =
        accepted_by sur.as_compose _ a c cv (sole_entry (compose cv) _ named) cast accepted in
      let (prod, made, _, _, runnable) =
        validated-IsRunnable {E = E} to_upper bads cfg cv sur.again "./volumes" n c inplace dots
          config ranges through labelled valid in
      let same : ("compose", mover) ∷ [] ≡ mine = cc (sym standard-eq ∙ std) in
      let found : Dict.lookup a.registered_name mine ≡ some mover =
        subst (λ m. Dict.lookup a.registered_name m ≡ some mover) same (sole_entry mover _ named) in
      elim (Bool-cases sur.makes_directory) [
        | inr bad ↦ absurd (ground (arith, bad, e))
        | inl makes ↦
            up-IsConfined now t f f' run prod runnable
              (rw (makes, acts, recomposed_by mine a c prod n found cast net made) at e)
      ]

  -- The validators that the server registers are the validator of compose actions that is made from
  -- the standard configuration, in whatever order it is visited. They report nothing for a task of a
  -- compose file, read to the end and with labels that are absent or a map of texts; the
  -- recomposators that the server registers are used, a network is given, and the second range over
  -- the services may visit them in another order. Then a start of the task that gives no error has
  -- left in `docker-compose.yml` the text of a file in which each service (the extensions `x-` apart)
  -- has the cache volume, is labelled with its name, and has no other volume but those whose source
  -- is a path under `./volumes` without a part that starts with `..`; behind the text stands what an
  -- older and longer file had there.
  pub run_task-IsConfined :
      (to_upper : Char → Char) (cfg : Dict Setting) (cv : ComposeValidator)
      → (mine : Dict Recomposator) (now : ℤ) (t t' : Task) (a : Action) (c : Compose) (n : String)
      → (f f' : Files) (r : Option Run) → IsStandard to_upper cfg
      → server_validators to_upper cfg ≡ some (("compose", compose cv) ∷ [])
      → standard_recomposators {E = E} ≡ ok mine
      → IsRange sur.again
      → t.action ≡ some a
      → a.registered_name ≡ "compose"
      → sur.as_compose a ≡ some c
      → sur.network ≡ ok n
      → All (IsReadThrough cv) c.services
      → All (IsService HasLabelMap) c.services
      → validate_action sur.as_compose (("compose", compose cv) ∷ []) a ≡ []
      → run_task sur mine now t f ≡ some (f', (t', r, true))
      → IsConfined (encode sur) f f'
  unfolding run_task
  run_task-IsConfined to_upper cfg cv mine now t t' a c n f f' r standard reg std ranges acts named
        cast net through labelled accepted e =
      let ((f1, o), deployed, rest) = >>=-eq-some (deploy sur mine now t f) _ e in
      let (given, upped, last) = >>=-eq-some (Runner.up sur.formats now o t) _ rest in
      let same : f1 ≡ f' = cc last in
      let given_eq : some given ≡ some (t', r, true) = cc last in
      let (run, came) = comes_up_of sur.formats now o t t' r (upped ∙ given_eq) in
      let (inplace, dots) = standard-HasKey to_upper cfg standard in
      deploy-IsConfined to_upper (bad_config to_upper) cfg cv inplace dots
        (server_validators-made to_upper cfg cv reg) ranges mine now t a c n f f' run std acts named
        cast net through labelled accepted (ground (arith, deployed, same, came))
