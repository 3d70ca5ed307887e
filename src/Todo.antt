-- ===== src/Todo.antt =====
-- todo/todo.go: the wake-up flag of the scheduler's main loop. `wait` is the number of messages in
-- the channel, whose capacity is 1. Each method holds the lock throughout, so it is one step.
pub mod Wakeups
use batch_scheduler.Base.{
  ℕ, zero, suc, ◌-◌, Bool, true, false, Option, none, some, ltb, if◌then◌else◌,
}

pub record Todo : Type 0 where
  pub new_msg : Bool
  pub wait : ℕ

-- `New`
abbrev pub fresh : Todo
fresh = record { new_msg = false; wait = 0 }

-- A send to the channel; `none` is a sender that blocks.
abbrev send : Todo → Option Todo
send t = if ltb t.wait 1 then some (record t { wait = suc t.wait }) else none

-- `Ping`, with its result; `none` is a call that blocks on the full channel, the lock held.
unfoldable pub ping : Todo → Option (Todo × Bool)
ping t =
    if t.new_msg
    then some (t, false)
    else (elim (send t) [ none ↦ none | some t' ↦ some (record t' { new_msg = true }, true) ])

-- `Done`
unfoldable pub done : Todo → Todo
done t =
    if t.new_msg
    then record t { new_msg = false; wait = (if ltb 0 t.wait then t.wait - 1 else t.wait) }
    else t

-- A receive from the channel of `Wait`, as the main loop makes it; `none` is a receiver that blocks.
unfoldable pub receive : Todo → Option Todo
receive t = if ltb 0 t.wait then some (record t { wait = t.wait - 1 }) else none
