-- ===== src/Resources.antt =====
-- scheduler/resources.go: the CPU and RAM that running tasks have taken. Each method holds the lock
-- throughout, so it is one step; `Consume` also starts a goroutine that waits for a context and
-- then gives back, which is `release`.
use batch_scheduler.Base.{Bool, Option, none, some, if◌then◌else◌, ◌≡◌, ◌&&◌, arith, ◌↔◌}
use batch_scheduler.Base.Int.{ℤ, pos, ◌+ℤ◌, ◌-ℤ◌, ◌≤ℤ◌, ◌<ℤ◌, leb_ℤ, ltb_ℤ, int64}

pub record Resources : Type 0 where
  pub total_ram : ℤ
  pub ram : ℤ
  pub total_cpu : ℤ
  pub cpu : ℤ
  pub processes : ℤ

pub data Error : Type 0 where
  cpu_not_positive too_much_cpu ram_not_positive too_much_ram : Error

-- `NewResources`
unfoldable pub new_resources : ℤ → ℤ → Resources
new_resources cpu ram = record {
  total_ram = ram;
  ram = ram;
  total_cpu = cpu;
  cpu = cpu;
  processes = pos 0;
}

-- `Check`
unfoldable pub check : Resources → ℤ → ℤ → Option Error
check r cpu ram =
    if leb_ℤ cpu (pos 0)
    then some cpu_not_positive
    else if ltb_ℤ r.total_cpu cpu
    then some too_much_cpu
    else if leb_ℤ ram (pos 0)
    then some ram_not_positive
    else if ltb_ℤ r.total_ram ram
    then some too_much_ram
    else none

-- The critical section of `Consume`.
unfoldable pub consume : Resources → ℤ → ℤ → Resources
consume r cpu ram = record r {
  cpu = int64 (r.cpu -ℤ cpu);
  ram = int64 (r.ram -ℤ ram);
  processes = int64 (r.processes +ℤ pos 1);
}

-- The critical section of the goroutine that `Consume` starts.
unfoldable pub release : Resources → ℤ → ℤ → Resources
release r cpu ram = record r {
  cpu = int64 (r.cpu +ℤ cpu);
  ram = int64 (r.ram +ℤ ram);
  processes = int64 (r.processes -ℤ pos 1);
}

-- `IsDoable`
unfoldable pub is_doable : Resources → ℤ → ℤ → Bool
is_doable r cpu ram = leb_ℤ cpu r.cpu && leb_ℤ ram r.ram

-- `Check` accepts exactly the requests that are positive and within the totals.
pub check-eq-none :
    (r : Resources) (cpu ram : ℤ)
    → (check r cpu ram ≡ none)
      ↔ ((pos 0 <ℤ cpu) × (cpu ≤ℤ r.total_cpu) × (pos 0 <ℤ ram) × (ram ≤ℤ r.total_ram))
unfolding check
check-eq-none r cpu ram = ground arith
