-- ===== src/Samples/Stores.antt =====
-- A small database and its calls, the subscribers of events, and the files of a run.
use batch_scheduler.Base.{
  ℕ, none, some, List, [], ◌∷◌, ◌≡◌, ◌≢◌, inl, refl, String, true, arith, length,
}
use batch_scheduler.Base.Int.{pos}
use batch_scheduler.Base.Outcome.{ok}
use batch_scheduler.Base.Dict.{Dict, lookup-insert, lookup-erase}
use batch_scheduler.Base.Dict
use batch_scheduler.BoltStore.{Bytes, Bucket}
use batch_scheduler.BoltStore.Refines.{
  Call, puts, gets, deletes, Puts, Deletes, on_bolt, on_memory, on_bolt-eq-on_memory,
}
use batch_scheduler.Compose.{Compose, Service, guess_main_container}
use batch_scheduler.Compose.Up.{World, Files, up}
use batch_scheduler.DockerRun.{DockerRun}
use batch_scheduler.Scheduler.{Event}
use batch_scheduler.Pubsub.{
  PubSub, Publishing, Reach, here, later, subscribes, publishes, sends, new_pubsub, subscribe,
  publish, send,
}
use batch_scheduler.Pubsub.Blocked.{IsHeld, ReachQuiet, start, next, ReachQuiet-IsHeld}
use batch_scheduler.Store.{MemoryStore}
use batch_scheduler.Samples.Deploys.{file}

-- A bucket as a dictionary.
abbrev bucket : Bucket (Dict Bytes)
bucket = record {
  get = λ b k. Dict.lookup k b;
  put = λ b k v. some (Dict.insert k v b);
  delete = λ b k. some (Dict.erase k b);
  entries = λ b. b;
  key_n = λ b. length b;
}

bucket-Puts : Puts bucket (λ _ _. Unit)
bucket-Puts b k v _ = (_, refl, λ j. lookup-insert k j v b)

bucket-Deletes : Deletes bucket
bucket-Deletes b k = (_, refl, λ j. lookup-erase k j b)

abbrev calls : List Call
calls = puts "a" (7 ∷ []) ∷ gets "a" ∷ deletes "a" ∷ gets "a" ∷ []

not_nil : ◌≢◌ {A = Bytes} (7 ∷ []) []
not_nil = λ e. ground (arith, e)

on_bolt-eq-on_memory_example :
    on_bolt bucket calls (record { bucket = some [] }) ≡ on_memory calls (record { kv = [] })
unfolding batch_scheduler.Store.get Dict.lookup
on_bolt-eq-on_memory_example =
    on_bolt-eq-on_memory bucket (λ _ _. Unit) bucket-Puts bucket-Deletes calls []
      (record { kv = [] }) ((tt, not_nil), (tt, (tt, (tt, tt)))) (λ k. refl)

abbrev event : Event
event = record { action = "added"; id = "a" }

-- One subscriber, to whom an event is sent.
-- A hundred events that nobody has received.
abbrev ten : List Event → List Event
ten es = event ∷ event ∷ event ∷ event ∷ event ∷ event ∷ event ∷ event ∷ event ∷ event ∷ es

abbrev hundred : List Event
hundred = ten (ten (ten (ten (ten (ten (ten (ten (ten (ten [])))))))))

abbrev held : PubSub
held = record {
  cpt = 1;
  subscribers = (0, hundred) ∷ [];
  wg = pos 1;
  publishing = record { event = event; remaining = 0 ∷ [] } ∷ [];
}

more : ReachQuiet 0 held (publish event held)
more = next start (publishes event) tt

ReachQuiet-IsHeld_example : IsHeld 0 (publish event held) × ((publish event held).publishing ≢ [])
unfolding batch_scheduler.Pubsub.buffer_of
ReachQuiet-IsHeld_example = ReachQuiet-IsHeld 0 (inl ([], refl), refl) more

abbrev world : World
world = record {
  has_bin = true;
  opens_compose = true;
  opens_env = true;
  comes_up = true;
  connects = true;
  containers = λ _. some ("c0ffee" ∷ []);
}

abbrev web_only : Compose
web_only = record file { services = ("web", none) ∷ [] }

abbrev encode : Compose → List ℕ
encode c = 1 ∷ 2 ∷ []

abbrev line : String → String → List ℕ
line k v = 3 ∷ []

-- The files of an earlier run, of which the first is longer.
abbrev earlier : Files
earlier = record { compose_yml = 8 ∷ 8 ∷ 8 ∷ []; env = [] }

upped :
    (f : Files) × (run : DockerRun) × (up encode line world
        (pos 1)
        "/data/a"
        (("DENSITY", "true") ∷ [])
        (pos 0)
        web_only
        earlier
      ≡ some (f, ok run))
unfolding up guess_main_container
upped = (_, _, refl)

stale_tail : upped.0.compose_yml ≡ 1 ∷ 2 ∷ 8 ∷ []
unfolding upped batch_scheduler.Compose.Up.write
stale_tail = refl
