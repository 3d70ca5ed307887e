-- ===== src/Server/Serving.antt =====
-- server/server.go and cmd/serve.go: the service that the command starts keeps to its resources.
use batch_scheduler.Scheduler.Invariant.{Inv, WithTotals, Books}
use batch_scheduler.Base.{
  ℕ, String, Bool, true, false, Option, none, some, ◌≡◌, ◌≢◌, refl, All, ◌≤◌, subst, sym, ◌∙◌,
  arith, not, if◌then◌else◌, ◌<◌, ◌^◌,
}
use batch_scheduler.Base.Outcome.{Result, ok, err}
use batch_scheduler.Base.Dict.{Dict}
use batch_scheduler.Base.Int.{ℤ, pos, pos_part}
use batch_scheduler.ActionValidator.{ActionValidator}
use batch_scheduler.ActionValidator
use batch_scheduler.Api.{Api}
use batch_scheduler.Api.Steps.{serve-Leads}
use batch_scheduler.Compose.{Setting}
use batch_scheduler.JsonStore.{Doc}
use batch_scheduler.JsonStore.Reading.{IsSoundDoc, readable}
use batch_scheduler.Recompose.Config
use batch_scheduler.Resources.{new_resources}
use batch_scheduler.Runner.{Outcome}
use batch_scheduler.Scheduler.{Scheduler, Env, new}
use batch_scheduler.Scheduler.Capacity.{
  AddsUp, IsSafe, IsSafe-AddsUp, Reach-IsSafe, new_resources-Books,
}
use batch_scheduler.Scheduler.Keeps.{delete-Inv}
use batch_scheduler.Scheduler.Load.{Probe, Stop}
use batch_scheduler.Scheduler.LoadKeeps.{claimed}
use batch_scheduler.Scheduler.Restart.{load-Inv, start-Inv}
use batch_scheduler.Scheduler.System
use batch_scheduler.Store.{MemoryStore}
use batch_scheduler.Task.{Task}
use batch_scheduler.Server.{
  Machine, Makers, Server, Service, serves, assemble, connect, new_in, new_server, serve_command,
  listen, boot, booted, Step, launches, answers, deletes, runs, Reach, here, later, api_of,
}
use text.Mathlib.Text
use text.Mathlib.TextEquality.{eq_iff}

-- The server has a new scheduler with the totals, and the key.
record IsMade {R : Type 0} (cpu ram : ℤ) (key : String) (server : Server R) : Type 0 where
  pub store : MemoryStore Doc
  pub scheduler : server.scheduler ≡ new (new_resources cpu ram) store
  pub auth_key : server.auth_key ≡ key

-- A test that the code goes on behind.
passed :
    {E A : Type 0} (b : Bool) (e : E) (rest : Result E A) {a : A}
    → (if b then err e else rest) ≡ ok a
    → (b ≡ false) × (rest ≡ ok a)
passed true e rest f = cc
passed false e rest f = (refl, f)

is_named : (key : String) → Text.◌==◌ key "" ≡ false → key ≢ ""
is_named key named = ground (arith, eq_iff key "", named)

module _ {E R : Type 0} (m : Machine) (makers : Makers E R) where
  assemble-IsMade :
      (addr data_dir key : String) (cpu ram : ℤ) (store : MemoryStore Doc)
      (mine : Result (Config.Error E) (Dict R)) {server : Server R}
      → assemble m makers addr data_dir key cpu ram store mine ≡ ok server
      → IsMade cpu ram key server
  assemble-IsMade addr data_dir key cpu ram store (err e) f = cc
  assemble-IsMade addr data_dir key cpu ram store (ok mine) f = record {
    store = store;
    scheduler = ground (arith, f);
    auth_key = ground (arith, f);
  }

  connect-IsMade :
      (addr data_dir key : String) (cpu ram : ℤ) (store : Option (MemoryStore Doc))
      {server : Server R}
      → connect m makers addr data_dir key cpu ram store ≡ ok server
      → IsMade cpu ram key server
  connect-IsMade addr data_dir key cpu ram none f = cc
  connect-IsMade addr data_dir key cpu ram (some store) f =
      assemble-IsMade addr data_dir key cpu ram store _ (passed (not m.connects) _ _ f).1

  new_in-IsMade :
      (addr data_dir key : String) (cpu ram : ℤ) (missing : Option String) {server : Server R}
      → new_in m makers addr data_dir key cpu ram missing ≡ ok server
      → IsMade cpu ram key server
  new_in-IsMade addr data_dir key cpu ram (some path) f = cc
  new_in-IsMade addr data_dir key cpu ram none f = connect-IsMade addr data_dir key cpu ram _ f

  serve_command-IsMade :
      {server : Server R}
      → serve_command m makers ≡ ok server
      → IsMade (pos 2) (pos 8192) (m.getenv "AUTH_KEY") server × (server.auth_key ≢ "")
  unfolding serve_command new_server
  serve_command-IsMade f =
      let (_, f1) = passed (not m.has_bin) _ _ f in
      let (_, f2) = passed _ _ _ f1 in
      let (named, f3) = passed (Text.◌==◌ (m.getenv "AUTH_KEY") "") _ _ f2 in
      let made = new_in-IsMade _ _ (m.getenv "AUTH_KEY") (pos 2) (pos 8192) _ f3 in
      (made, λ empty. absurd (is_named (m.getenv "AUTH_KEY") named (sym made.auth_key ∙ empty)))

listen-serves :
    (validators : Option (Dict ActionValidator)) (loaded : Option (Scheduler × Option Stop))
    {s : Scheduler} {vs : Dict ActionValidator}
    → listen validators loaded ≡ serves s vs
    → loaded ≡ some (s, none)
listen-serves validators none e = cc
listen-serves validators (some (s, some stop)) e = cc
listen-serves none (some (s, none)) e = cc
listen-serves (some vs) (some (s, none)) e = ground (arith, e)

module _ (api : Api) (cpu ram : ℤ) where
  -- Every step of the service keeps its scheduler safe.
  Step-IsSafe : {x y : Service} → Step api x y → IsSafe cpu ram x.system → IsSafe cpu ram y.system
  Step-IsSafe {x} (launches fresh e) h = start-Inv x.system.scheduler e h
  Step-IsSafe {x} (answers now random r s response ids e) h =
      Reach-IsSafe api.env cpu ram h (serve-Leads api now random r x.system e)
  Step-IsSafe {x} (deletes i id rest e) h = delete-Inv api.env id x.system.scheduler h
  Step-IsSafe {x} (runs step may) h = Reach-IsSafe api.env cpu ram h (System.later System.here step)

  pub Service-IsSafe :
      {x y : Service} → Reach api x y → IsSafe cpu ram x.system → IsSafe cpu ram y.system
  Service-IsSafe here h = h
  Service-IsSafe (later r s) h = Step-IsSafe s (Service-IsSafe r h)

-- The stored tasks whose runs are found running ask for no more than there is.
abbrev pub FitsIn : ℕ → ℕ → Env → Probe → MemoryStore Doc → Type 0
FitsIn cpu ram env probe tasks =
    (claimed (λ t. t.cpu) probe (readable env.registry tasks.kv) ≤ cpu)
    × (claimed (λ t. t.ram) probe (readable env.registry tasks.kv) ≤ ram)

fresh-Inv :
    (env : Env) (cpu ram : ℕ) (store : MemoryStore Doc)
    → cpu < 2 ^ 63
    → ram < 2 ^ 63
    → All IsSoundDoc store.kv
    → Inv (WithTotals (pos cpu) (pos ram) Books) (new (new_resources (pos cpu) (pos ram)) store)
unfolding new
fresh-Inv env cpu ram store c m sound = record {
  books = new_resources-Books env cpu ram c m;
  stored = sound;
}

-- The command `serve` gives a server, which loads what its database holds and takes requests; no
-- transaction on the database fails from then on. The stored tasks all
-- ask for a positive CPU, RAM and execution time, and those whose runs are found running ask
-- together for at most 2 CPUs and 8192 of RAM. Then, whatever the environment asks for, in every
-- state that requests with any tokens, deletions, the main loop, its goroutines and timers can reach
-- in any order, the CPU held by running and ending tasks and the free CPU add up to 2, the RAM held
-- and the free RAM add up to 8192, and neither is negative; and the key is the one of the
-- environment and is not empty.
pub serve_command-AddsUp :
    {E R : Type 0} (m : Machine) (makers : Makers E R) (api : Api) (now : ℤ) (probe : Probe)
    (outcome : Task → Outcome) (first : Outcome) (registry : ActionValidator.Registry)
    (standard : Dict Setting) {server : Server R} {s : Scheduler} {vs : Dict ActionValidator}
    {y : Service}
    → serve_command m makers ≡ ok server
    → All IsSoundDoc server.scheduler.tasks.kv
    → FitsIn 2 8192 api.env probe server.scheduler.tasks
    → boot api.env now probe outcome first registry standard server ≡ serves s vs
    → Reach (api_of api server vs) (booted s) y
    → AddsUp 2 8192 y.system.scheduler
      × (server.auth_key ≡ m.getenv "AUTH_KEY")
      × (server.auth_key ≢ "")
unfolding boot new new_resources
serve_command-AddsUp m makers api now probe outcome first registry standard {server} {s} {vs} {y} e
      sound fits booting reach =
    let (made, named) = serve_command-IsMade m makers e in
    let fresh : Inv (WithTotals (pos 2) (pos 8192) Books) server.scheduler =
      subst (Inv (WithTotals (pos 2) (pos 8192) Books)) (sym made.scheduler) (
        fresh-Inv api.env 2 8192 made.store (omega arith) (omega arith)
          (subst (λ u. All IsSoundDoc u.tasks.kv) made.scheduler sound)) in
    let loaded = listen-serves _ _ booting in
    let safe =
      load-Inv api.env now probe outcome false (pos 2) (pos 8192) first server.scheduler fresh
        (subst
          (λ u.
            claimed (λ t. t.cpu) probe (readable api.env.registry server.scheduler.tasks.kv)
            ≤ pos_part u.resources.cpu)
          (sym made.scheduler) fits.0)
        (subst
          (λ u.
            claimed (λ t. t.ram) probe (readable api.env.registry server.scheduler.tasks.kv)
            ≤ pos_part u.resources.ram)
          (sym made.scheduler) fits.1)
        loaded in
    (
      IsSafe-AddsUp api.env 2 8192 y.system
          (Service-IsSafe (api_of api server vs) (pos 2) (pos 8192) reach safe),
      made.auth_key,
      named,
    )
