-- ===== src/Scheduler/Invariant.antt =====
-- The books of the scheduler: what watchers and cancelled contexts hold of the resources, and how
-- each change of the resources keeps them balanced.
use batch_scheduler.Base.{ℕ, ◌+◌, some, List, ◌∷◌, ◌≡◌, All, arith, subst, ap, ◌∙◌}
use batch_scheduler.Base.Int.{ℤ, ◌≤ℤ◌}
use batch_scheduler.Resources.{Resources, consume, release}
use batch_scheduler.JsonStore.Reading.{IsSound, IsSoundDoc}
use batch_scheduler.Scheduler.{Claim, Watcher, Scheduler, Task}
use batch_scheduler.Scheduler.Loop.{take_at}
use batch_scheduler.Scheduler.Accounts.{
  total, IsBalanced, IsPositive, take-IsBalanced, give-IsBalanced, total-take_at, All-take_at,
}

-- The CPU and the RAM that watchers and cancelled contexts hold together.
abbrev pub held_cpu : List Watcher → List Claim → ℕ
held_cpu ws cs = total (λ w. w.claim.cpu) ws + total (λ c. c.cpu) cs

abbrev pub held_ram : List Watcher → List Claim → ℕ
held_ram ws cs = total (λ w. w.claim.ram) ws + total (λ c. c.ram) cs

abbrev pub IsSoundWatcher : Watcher → Type 0
IsSoundWatcher w = IsPositive w.claim × IsSound w.task

-- Nothing is lent twice: free and held resources add up to the totals, and no claim is empty.
pub record Books (r : Resources) (ws : List Watcher) (cs : List Claim) : Type 0 where
  pub cpu : IsBalanced r.total_cpu r.cpu (held_cpu ws cs)
  pub ram : IsBalanced r.total_ram r.ram (held_ram ws cs)
  pub watching : All IsSoundWatcher ws
  pub releasing : All IsPositive cs

-- A statement about the resources and what holds them.
abbrev pub Held : Type 1
Held = Resources → List Watcher → List Claim → Type 0

-- Such a statement holds, and every stored task is sound.
pub record Inv (P : Held) (s : Scheduler) : Type 0 where
  pub books : P s.resources s.watchers s.releasing
  pub stored : All IsSoundDoc s.tasks.kv

-- What holds while goroutines end and give back what they hold.
pub record IsStable (P : Held) : Type 0 where
  pub ends :
      (r : Resources) (ws rest : List Watcher) (cs : List Claim) (i : ℕ) (w : Watcher)
      → take_at i ws ≡ some (w, rest)
      → P r ws cs
      → P r rest (w.claim ∷ cs) × IsSound w.task
  pub gives :
      (r : Resources) (ws : List Watcher) (cs rest : List Claim) (i : ℕ) (c : Claim)
      → take_at i cs ≡ some (c, rest)
      → P r ws cs
      → P (release r c.cpu c.ram) ws rest

same_held : {all free : ℤ} {h k : ℕ} → h ≡ k → IsBalanced all free h → IsBalanced all free k
same_held {all} {free} e b = subst (IsBalanced all free) e b

pub take-Books :
    (r : Resources) (ws : List Watcher) (cs : List Claim) (c : Claim)
    → Books r ws cs
    → IsPositive c
    → (c.cpu ≤ℤ r.cpu) × (c.ram ≤ℤ r.ram)
    → Books (consume r c.cpu c.ram) ws (c ∷ cs)
unfolding consume total
take-Books r ws cs c b p fits = record {
  cpu =
      same_held (omega arith)
        (take-IsBalanced r.total_cpu r.cpu c.cpu (held_cpu ws cs) b.cpu p.0 fits.0);
  ram =
      same_held (omega arith)
        (take-IsBalanced r.total_ram r.ram c.ram (held_ram ws cs) b.ram p.1 fits.1);
  watching = b.watching;
  releasing = (p, b.releasing);
}

-- A goroutine takes over a claim.
pub watch-Books :
    (r : Resources) (ws : List Watcher) (cs : List Claim) (w : Watcher)
    → Books r ws (w.claim ∷ cs)
    → IsSound w.task
    → Books r (w ∷ ws) cs
unfolding total
watch-Books r ws cs w b h = record {
  cpu = same_held (omega arith) b.cpu;
  ram = same_held (omega arith) b.ram;
  watching = ((b.releasing.0, h), b.watching);
  releasing = b.releasing.1;
}

-- A goroutine ends, and its context is cancelled.
pub finish-Books :
    (r : Resources) (ws rest : List Watcher) (cs : List Claim) (i : ℕ) (w : Watcher)
    → take_at i ws ≡ some (w, rest)
    → Books r ws cs
    → Books r rest (w.claim ∷ cs)
unfolding total
finish-Books r ws rest cs i w e b =
    let (sound, others) = All-take_at IsSoundWatcher i ws w rest e b.watching in
    record {
      cpu = same_held (omega (arith, total-take_at (λ v. v.claim.cpu) i ws w rest e)) b.cpu;
      ram = same_held (omega (arith, total-take_at (λ v. v.claim.ram) i ws w rest e)) b.ram;
      watching = others;
      releasing = (sound.0, b.releasing);
    }

-- A cancelled context gives back what it holds.
pub give-Books :
    (r : Resources) (ws : List Watcher) (cs rest : List Claim) (i : ℕ) (c : Claim)
    → take_at i cs ≡ some (c, rest)
    → Books r ws cs
    → Books (release r c.cpu c.ram) ws rest
unfolding release
give-Books r ws cs rest i c e b =
    let (sound, others) = All-take_at IsPositive i cs c rest e b.releasing in
    record {
      cpu =
          give-IsBalanced r.total_cpu r.cpu c.cpu (held_cpu ws rest)
            (same_held (omega (arith, total-take_at (λ d. d.cpu) i cs c rest e)) b.cpu) sound.0;
      ram =
          give-IsBalanced r.total_ram r.ram c.ram (held_ram ws rest)
            (same_held (omega (arith, total-take_at (λ d. d.ram) i cs c rest e)) b.ram) sound.1;
      watching = b.watching;
      releasing = others;
    }

pub Books-IsStable : IsStable Books
Books-IsStable = record {
  ends = λ r ws rest cs i w e b. (
    finish-Books r ws rest cs i w e b,
    (All-take_at IsSoundWatcher i ws w rest e b.watching).0.1,
  );
  gives = give-Books;
}

-- The free resources cover a task's demands.
abbrev pub Fits : Task → Resources → Type 0
Fits t r = (t.cpu ≤ℤ r.cpu) × (t.ram ≤ℤ r.ram)

-- The books while a task is chosen: it is sound, and there is room for it.
abbrev pub BooksFor : Task → Held
BooksFor t r ws cs = Books r ws cs × IsSound t × Fits t r

-- What is given back leaves the room that there was.
give-Fits :
    (t : Task) (r : Resources) (ws : List Watcher) (cs rest : List Claim) (i : ℕ) (c : Claim)
    → take_at i cs ≡ some (c, rest)
    → Books r ws cs
    → Fits t r
    → Fits t (release r c.cpu c.ram)
unfolding release
give-Fits t r ws cs rest i c e b fits =
    let after = give-Books r ws cs rest i c e b in
    (
      omega (arith, after.cpu.sums, b.cpu.sums, total-take_at (λ d. d.cpu) i cs c rest e),
      omega (arith, after.ram.sums, b.ram.sums, total-take_at (λ d. d.ram) i cs c rest e),
    )

pub BooksFor-IsStable : (t : Task) → IsStable (BooksFor t)
BooksFor-IsStable t = record {
  ends = λ r ws rest cs i w e b.
      let (after, sound) = Books-IsStable.ends r ws rest cs i w e b.0 in ((after, b.1, b.2), sound);
  gives = λ r ws cs rest i c e b.
      (give-Books r ws cs rest i c e b.0, b.1, give-Fits t r ws cs rest i c e b.0 b.2);
}

-- A statement with the totals of the resources.
abbrev pub WithTotals : ℤ → ℤ → Held → Held
WithTotals cpu ram P r ws cs = P r ws cs × (r.total_cpu ≡ cpu) × (r.total_ram ≡ ram)

pub WithTotals-IsStable : (cpu ram : ℤ) {P : Held} → IsStable P → IsStable (WithTotals cpu ram P)
unfolding release
WithTotals-IsStable cpu ram stable = record {
  ends = λ r ws rest cs i w e b.
      let (after, sound) = stable.ends r ws rest cs i w e b.0 in ((after, b.1, b.2), sound);
  gives = λ r ws cs rest i c e b. (stable.gives r ws cs rest i c e b.0, b.1, b.2);
}

-- A task's resources are taken, and the totals stay.
pub consumed-WithTotals :
    (P : Held) (cpu ram : ℤ) (r r' : Resources) (t : Task) (ws : List Watcher) (cs : List Claim)
    → r' ≡ consume r t.cpu t.ram
    → (r.total_cpu ≡ cpu) × (r.total_ram ≡ ram)
    → P r' ws cs
    → WithTotals cpu ram P r' ws cs
unfolding consume
consumed-WithTotals P cpu ram r r' t ws cs e (c, m) h =
    (h, ap (λ x. x.total_cpu) e ∙ c, ap (λ x. x.total_ram) e ∙ m)
