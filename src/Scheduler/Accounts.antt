-- ===== src/Scheduler/Accounts.antt =====
-- What is taken of a resource, and what a claim's coming and going does to it.
use batch_scheduler.Base.{ℕ, zero, suc, ◌+◌, ◌<◌, ◌^◌, some, List, [], ◌∷◌, ◌≡◌, All, arith}
use batch_scheduler.Base.Int.{ℤ, pos, pos_part, neg_part, ◌+ℤ◌, ◌-ℤ◌, ◌≤ℤ◌, ◌<ℤ◌, int64, int64_id}
use batch_scheduler.Base.Sort.{>>=-eq-some}
use mathlib.Core.Option.{some-injective}
use batch_scheduler.Base.{subst, ap}
use batch_scheduler.Scheduler.{Claim}
use batch_scheduler.Scheduler.Loop.{take_at}

-- The sum of an amount over a list.
unfoldable pub total {ℓ} : {A : Type ℓ} → (A → ℤ) → List A → ℕ
total amount [] = 0
total amount (x ∷ xs) = pos_part (amount x) + total amount xs

-- A resource of which `held` is taken and `free` is left: no more is taken than there is.
pub record IsBalanced (all free : ℤ) (held : ℕ) : Type 0 where
  pub sums : pos_part free + held ≡ pos_part all
  pub nonnegative : neg_part free ≡ 0
  pub representable : pos_part all < 2 ^ 63

abbrev pub IsPositive : Claim → Type 0
IsPositive c = (pos 0 <ℤ c.cpu) × (pos 0 <ℤ c.ram)

sub_exact :
    (free amount : ℤ)
    → neg_part free ≡ 0
    → pos 0 <ℤ amount
    → amount ≤ℤ free
    → (pos_part (free -ℤ amount) + pos_part amount ≡ pos_part free)
      × (neg_part (free -ℤ amount) ≡ 0)
unfolding ◌-ℤ◌
sub_exact free amount n p fits = ground arith

add_exact :
    (free amount : ℤ)
    → neg_part free ≡ 0
    → pos 0 <ℤ amount
    → (pos_part (free +ℤ amount) ≡ pos_part free + pos_part amount)
      × (neg_part (free +ℤ amount) ≡ 0)
unfolding ◌+ℤ◌
add_exact free amount n p = ground arith

-- Taking what is free does not wrap and keeps the balance.
pub take-IsBalanced :
    (all free amount : ℤ) (held : ℕ)
    → IsBalanced all free held
    → pos 0 <ℤ amount
    → amount ≤ℤ free
    → IsBalanced all (int64 (free -ℤ amount)) (pos_part amount + held)
take-IsBalanced all free amount held b p fits =
    let (sum, sign) = sub_exact free amount b.nonnegative p fits in
    rw (int64_id (free -ℤ amount) (omega (arith, b.sums, b.representable), omega arith))
      (record { sums = omega (arith, b.sums); nonnegative = sign; representable = b.representable })

-- Giving back what was taken does not wrap and keeps the balance.
pub give-IsBalanced :
    (all free amount : ℤ) (held : ℕ)
    → IsBalanced all free (pos_part amount + held)
    → pos 0 <ℤ amount
    → IsBalanced all (int64 (free +ℤ amount)) held
give-IsBalanced all free amount held b p =
    let (sum, sign) = add_exact free amount b.nonnegative p in
    rw (int64_id (free +ℤ amount) (omega (arith, b.sums, b.representable), omega arith))
      (record { sums = omega (arith, b.sums); nonnegative = sign; representable = b.representable })

-- An entry that is taken off a list counts once.
pub total-take_at {ℓ} :
    {A : Type ℓ} (amount : A → ℤ) (i : ℕ) (l : List A) (x : A) (rest : List A)
    → take_at i l ≡ some (x, rest)
    → total amount l ≡ pos_part (amount x) + total amount rest
unfolding take_at total
total-take_at amount i [] x rest e = cc
total-take_at amount zero (y ∷ l) x rest e = ground arith
total-take_at amount (suc i) (y ∷ l) x rest e =
    let ((z, zs), e1, e2) = >>=-eq-some (take_at i l) _ e in
    let step = total-take_at amount i l z zs e1 in ground (arith, step)

pub All-take_at {ℓ κ} :
    {A : Type ℓ} (P : A → Type κ) (i : ℕ) (l : List A) (x : A) (rest : List A)
    → take_at i l ≡ some (x, rest)
    → All P l
    → P x × All P rest
unfolding take_at
All-take_at P i [] x rest e h = cc
All-take_at P zero (y ∷ l) x rest e h =
    let same = some-injective _ _ e in
    (subst P (ap (λ p. p.0) same) h.0, subst (All P) (ap (λ p. p.1) same) h.1)
All-take_at P (suc i) (y ∷ l) x rest e h =
    let ((z, zs), e1, e2) = >>=-eq-some (take_at i l) _ e in
    let (hz, hzs) = All-take_at P i l z zs e1 h.1 in
    let same = some-injective _ _ e2 in
    (subst P (ap (λ p. p.0) same) hz, subst (All P) (ap (λ p. p.1) same) (h.0, hzs))
