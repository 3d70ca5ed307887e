-- ===== src/Dummy.antt =====
-- task/dummy.go: the action that only waits, under the goroutines that start it and wait for it.
--
-- A channel of a waiter is a number; it has no buffer, so a send and the receive that takes it are one
-- step. A step is what happens between two points at which a goroutine can wait. Sleeping takes as
-- long as it likes.
pub mod Stuck
use Prim.Native.String
use batch_scheduler.Base.{
  ℕ, suc, ◌+◌, Bool, true, false, Option, none, some, List, [], ◌∷◌, ◌++◌, String, if◌then◌else◌,
  ◌==◌, ◌||◌, ◌≡◌,
}
use batch_scheduler.Base.Int.{ℤ, pos, negsuc, ◌+ℤ◌, int64}
use batch_scheduler.Base.Sort.{◌>>=◌}
use batch_scheduler.Status.{Status}
use batch_scheduler.Scheduler.Load.{RunStatus, running, is_zero}
use batch_scheduler.Scheduler.Loop.{take_at}

-- The goroutine of a call of `Up`: it sleeps, and then sends to waiters.
pub data Sender : Type 0 where
  asleep : Sender
  sending : List ℕ → Sender

-- `DummyAction`, with the goroutines of its `Up`s, and the channels that calls of `Wait` receive from.
pub record DummyAction : Type 0 where
  pub name : String
  pub wait : ℤ
  pub counter : ℤ
  pub exit_code : ℤ
  pub waiters : List ℕ
  pub senders : List Sender
  pub receiving : List ℕ
  pub fresh : ℕ

-- What the registry makes.
abbrev pub new_dummy : DummyAction
new_dummy = record {
  name = "";
  wait = pos 0;
  counter = pos 0;
  exit_code = pos 0;
  waiters = [];
  senders = [];
  receiving = [];
  fresh = 0;
}

-- `Up` returns after it has started a goroutine.
unfoldable pub up : DummyAction → DummyAction
up da = record da {
  wait = (if is_zero da.wait then pos 100000 else da.wait);
  senders = asleep ∷ da.senders;
}

-- `Wait` up to its `select`.
unfoldable pub start_wait : DummyAction → DummyAction
start_wait da = record da {
  waiters = da.waiters ++ da.fresh ∷ [];
  receiving = da.fresh ∷ da.receiving;
  fresh = da.fresh + 1;
}

-- The goroutine is awake: it counts, and ranges over the waiters that there are now.
abbrev pub range : Sender × List Sender → DummyAction → Option DummyAction
range (asleep, others) da =
    some
      (record da { counter = int64 (da.counter +ℤ pos 1); senders = sending da.waiters ∷ others })
range (sending _, others) da = none

unfoldable pub wake : ℕ → DummyAction → Option DummyAction
wake i da = do found ← take_at i da.senders; range found da

-- The list without a number; `none` where it is not there.
unfoldable pub without : ℕ → List ℕ → Option (List ℕ)
without c [] = none
without c (d ∷ ds) =
    let rest = without c ds in if d == c then some ds else rest >>= λ es. some (d ∷ es)

-- `waiter <- …`: it waits until a call of `Wait` receives, which then returns `Done`.
abbrev pub send_next : Sender × List Sender → DummyAction → Option DummyAction
send_next (sending (c ∷ cs), others) da = do
  rest ← without c da.receiving
  some (record da { receiving = rest; senders = sending cs ∷ others })
send_next (sending [], others) da = none
send_next (asleep, others) da = none

unfoldable pub send : ℕ → DummyAction → Option DummyAction
send i da = do found ← take_at i da.senders; send_next found da

-- The end of a goroutine that has sent to all.
abbrev pub finish_sender : Sender × List Sender → DummyAction → Option DummyAction
finish_sender (sending [], others) da = some (record da { senders = others })
finish_sender (sending (_ ∷ _), others) da = none
finish_sender (asleep, others) da = none

unfoldable pub finish : ℕ → DummyAction → Option DummyAction
finish i da = do found ← take_at i da.senders; finish_sender found da

-- `ctx.Err()`
pub data ContextError : Type 0 where
  canceled deadline_exceeded : ContextError

-- What `Wait` returns where its context is done first.
unfoldable pub status_of : ContextError → Status
status_of canceled = Status.canceled
status_of deadline_exceeded = Status.timeout

-- `Wait` on a channel ends by its context.
unfoldable pub give_up : ℕ → DummyAction → Option DummyAction
give_up c da = do rest ← without c da.receiving; some (record da { receiving = rest })

-- `RunnerID`
unfoldable pub runner_id : DummyAction → String
runner_id da = String.◌++◌ "Run of " da.name

-- `Status` of `DummyRun`
unfoldable pub status : DummyAction → RunStatus × ℤ
status da = (running, pos 0)

-- A step of one of the goroutines, of the callers included.
pub data Step : DummyAction → DummyAction → Type 0 where
  ups : {p : DummyAction} → Step p (up p)
  waits : {p : DummyAction} → Step p (start_wait p)
  wakes : {p q : DummyAction} (i : ℕ) → wake i p ≡ some q → Step p q
  sends : {p q : DummyAction} (i : ℕ) → send i p ≡ some q → Step p q
  finishes : {p q : DummyAction} (i : ℕ) → finish i p ≡ some q → Step p q
  gives_up : {p q : DummyAction} (c : ℕ) (why : ContextError) → give_up c p ≡ some q → Step p q

pub data Reach (p : DummyAction) : DummyAction → Type 0 where
  here : Reach p p
  later : {q r : DummyAction} → Reach p q → Step q r → Reach p r
