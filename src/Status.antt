-- ===== src/Status.antt =====
-- The status of a task, task/status/status.go with the name table of status_string.go.
-- A status is one of the six declared constants; `UnmarshalJSON` yields no other integer.
pub mod Codec
use batch_scheduler.Base.{
  ℕ, zero, suc, Option, none, some, String, ◌≡◌, refl, Bool, true, false, ◌↔◌, arith,
}

pub data Status : Type 0 where
  waiting running done timeout canceled error : Status

pub Status-discrete : Discrete Status
Status-discrete = hlevel

-- `==` on statuses.
abbrev pub same : Status → Status → Bool
same waiting waiting = true
same running running = true
same done done = true
same timeout timeout = true
same canceled canceled = true
same error error = true
same _ _ = false

pub same_iff : (a b : Status) → (same a b ≡ true) ↔ (a ≡ b)
same_iff a b = ground arith

abbrev pub index : Status → ℕ
index waiting = 0
index running = 1
index done = 2
index timeout = 3
index canceled = 4
index error = 5

abbrev pub of_index : ℕ → Option Status
of_index zero = some waiting
of_index (suc zero) = some running
of_index (suc (suc zero)) = some done
of_index (suc (suc (suc zero))) = some timeout
of_index (suc (suc (suc (suc zero)))) = some canceled
of_index (suc (suc (suc (suc (suc zero))))) = some error
of_index _ = none
