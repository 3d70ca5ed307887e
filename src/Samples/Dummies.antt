-- ===== src/Samples/Dummies.antt =====
-- The dummy action in its first and its second run.
use batch_scheduler.Base.{ℕ, some, none, [], ◌∷◌, ◌≡◌, refl, arith}
use batch_scheduler.Base.Sort.{◌>>=◌}
use batch_scheduler.Base.Int.{pos}
use batch_scheduler.Dummy.{
  DummyAction, new_dummy, up, start_wait, wake, send, finish, later, here, ups, waits,
}
use batch_scheduler.Dummy.Stuck.{IsStuck, Reach-IsStuck}

-- An action that has run once.
abbrev over : DummyAction
over = record new_dummy { wait = pos 100000; counter = pos 1; waiters = 0 ∷ []; fresh = 1 }

-- The first run: the call of `Wait` receives what the goroutine sends.
first_run : (do a ← wake 0 (start_wait (up new_dummy)); b ← send 0 a; finish 0 b) ≡ some over
unfolding wake start_wait up send finish batch_scheduler.Scheduler.Loop.take_at
    batch_scheduler.Dummy.without batch_scheduler.Base.Int.int64 batch_scheduler.Base.Int.◌+ℤ◌
first_run = refl

over-IsStuck : IsStuck 0 over
over-IsStuck = record { first = ([], refl); gone = tt; old = omega arith; senders = tt }

-- The second run ends no more.
Reach-IsStuck_example :
    IsStuck 0 (start_wait (up over)) × ((i : ℕ) → send i (start_wait (up over)) ≡ none)
Reach-IsStuck_example = Reach-IsStuck 0 over-IsStuck (later (later here ups) waits)
