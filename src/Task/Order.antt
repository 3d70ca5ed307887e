-- ===== src/Task/Order.antt =====
-- The two orders in which task/task.go sorts tasks: `TaskByStart` and `TaskByKarma`.
use batch_scheduler.Base.{Option, none, some, List, if◌then◌else◌, ◌==◌ as nat_eq, ◌≡◌, arith}
use batch_scheduler.Base.Int.{ℤ, pos, negsuc, ◌*ℤ◌, ◌<ℤ◌, int64, quot}
use batch_scheduler.Base.Sort.{sort}
use batch_scheduler.Task.{Task}

-- `TaskByStart`: earliest first.
unfoldable pub start_key : Task → Option ℤ
start_key t = some t.start

-- Go's division of 64-bit integers; `none` is the panic of a division by zero.
abbrev div64 : ℤ → ℤ → Option ℤ
div64 a (pos n) = if nat_eq n 0 then none else some (int64 (quot a (pos n)))
div64 a (negsuc n) = some (int64 (quot a (negsuc n)))

-- `TaskByKarma`: RAM * CPU / MaxExectionTime, smallest first.
unfoldable pub karma : Task → Option ℤ
karma t = div64 (int64 (t.ram *ℤ t.cpu)) t.max_exection_time

unfoldable pub sort_by_start : List Task → Option (List Task)
sort_by_start ts = sort start_key ts

unfoldable pub sort_by_karma : List Task → Option (List Task)
sort_by_karma ts = sort karma ts

div64_total : (a b : ℤ) → pos 0 <ℤ b → (q : ℤ) × (div64 a b ≡ some q)
div64_total a (pos n) h = (int64 (quot a (pos n)), ground arith)
div64_total a (negsuc n) h = absurd (omega arith)

pub karma_total : (t : Task) → pos 0 <ℤ t.max_exection_time → (k : ℤ) × (karma t ≡ some k)
unfolding karma
karma_total t h = div64_total _ t.max_exection_time h
