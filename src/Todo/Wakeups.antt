-- ===== src/Todo/Wakeups.antt =====
-- todo/todo.go under any number of callers of `Ping` beside a loop that receives and calls `Done`.
use batch_scheduler.Base.{◌≤◌, ◌≡◌, refl, ◌⊎◌, inl, inr, Bool, true, false, some, arith, Bool-cases}
use batch_scheduler.Todo.{Todo, fresh, ping, done, receive}

-- The flag and the main loop: `awake` says that the loop has received a message and has not
-- called `Done` since.
pub record Loop : Type 0 where
  pub todo : Todo
  pub awake : Bool

pub data Step (l : Loop) (m : Loop) : Type 0 where
  pings :
      (u : Todo) (answer : Bool)
      → ping l.todo ≡ some (u, answer)
      → m ≡ record l { todo = u }
      → Step l m
  wakes :
      (u : Todo)
      → l.awake ≡ false
      → receive l.todo ≡ some u
      → m ≡ record l { todo = u; awake = true }
      → Step l m
  finishes : l.awake ≡ true → m ≡ record { todo = done l.todo; awake = false } → Step l m

pub data Reach : Loop → Type 0 where
  start : Reach (record { todo = fresh; awake = false })
  later : {l m : Loop} → Reach l → Step l m → Reach m

-- At most one message waits, only while the flag is up; while the flag is up, a message waits or
-- the loop is awake.
abbrev pub IsConsistent : Loop → Type 0
IsConsistent l =
    (l.todo.wait ≤ 1)
    × (l.todo.new_msg ≡ false → l.todo.wait ≡ 0)
    × (l.todo.new_msg ≡ true → (l.todo.wait ≡ 1) ⊎ (l.awake ≡ true))

Step-IsConsistent : {l m : Loop} → Step l m → IsConsistent l → IsConsistent m
unfolding ping done receive
Step-IsConsistent (pings u answer e d) h = ground arith
Step-IsConsistent (wakes u w e d) h = ground arith
Step-IsConsistent (finishes w d) h = ground arith

pub Reach-IsConsistent : {l : Loop} → Reach l → IsConsistent l
Reach-IsConsistent start = (omega arith, λ _. refl, λ e. cc)
Reach-IsConsistent (later r s) = Step-IsConsistent s (Reach-IsConsistent r)

ping_free :
    (t : Todo)
    → (t.new_msg ≡ false → t.wait ≡ 0)
    → (u : Todo) × (answer : Bool) × (ping t ≡ some (u, answer))
unfolding ping
ping_free t h = elim (Bool-cases t.new_msg) [
  | inl up ↦ (t, false, ground arith)
  | inr down ↦ (record { new_msg = true; wait = 1 }, true, ground arith)
]

ping_leaves_awake :
    {l : Loop} {u : Todo} {answer : Bool}
    → Reach l
    → ping l.todo ≡ some (u, answer)
    → (l.awake ≡ true) ⊎ ((v : Todo) × (receive u ≡ some v))
unfolding ping receive
ping_leaves_awake {l} {u} {answer} r e =
    let (few, quiet, woken) = Reach-IsConsistent r in
    elim (Bool-cases l.todo.new_msg) [
      | inl up ↦ elim (woken up) [
        | inl waits ↦ inr (record u { wait = 0 }, ground arith)
        | inr awake ↦ inl awake
      ]
      | inr down ↦ inr (record u { wait = 0 }, ground (arith, quiet down))
    ]

-- No wake-up is lost: in every reachable state `Ping` returns, without a block on the channel while it
-- holds the lock, and after it, whatever it answered, the loop is awake, so that it will look at the
-- tasks once more after its `Done`, or its next receive does not block.
pub ping_wakes :
    {l : Loop}
    → Reach l
    → (u : Todo) × (answer : Bool) × (ping l.todo ≡ some (u, answer))
      × ((l.awake ≡ true) ⊎ ((v : Todo) × (receive u ≡ some v)))
ping_wakes {l} r =
    let (u, answer, e) = ping_free l.todo (Reach-IsConsistent r).1 in
    (u, answer, e, ping_leaves_awake r e)
