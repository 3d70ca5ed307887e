-- ===== src/Network/Available.antt =====
-- The whole search of `NextAvailableNetwork` where all networks are blocks of one size.
use batch_scheduler.Base.{
  ℕ, zero, suc, ◌+◌, ◌-◌, ◌*◌, ◌^◌, ◌≤◌, ◌<◌, true, some, List, [], ◌∷◌, map, ◌≡◌, ◌≢◌, refl, sym,
  ap, arith, All, Bool-cases, inl, inr, ◌∙◌,
}
use batch_scheduler.Base.Outcome.{Result}
use batch_scheduler.Base.Int.{pos, ltb_ℤ, ◌-ℤ◌}
use batch_scheduler.Base.Sort.{sort}
use batch_scheduler.Network.{
  IpNet, last, distance, int_pow, int_pow_from, next_available_network, by_network, final,
}
use native.Mathlib.Nat.{pow-suc, pow-zero, suc-mul}
use batch_scheduler.Network.Blocks.{
  block, block_size, IsAscending, IsWithin, IsFree, search-Answers, next-block, last-block,
  size-pos,
}

int_pow_from-pow : (n m : ℕ) → int_pow_from n m ≡ n ^ suc m
int_pow_from-pow n zero = sym (pow-suc n 0 ∙ (rw (pow-zero n) (omega arith)))
int_pow_from-pow n (suc m) = ap (λ x. x * n) (int_pow_from-pow n m) ∙ sym (pow-suc n (suc m))

int_pow-pow : (n m : ℕ) → int_pow n m ≡ n ^ m
unfolding int_pow
int_pow-pow n zero = sym (pow-zero n)
int_pow-pow n (suc m) = int_pow_from-pow n m

-- The last place of a list.
abbrev top : ℕ → List ℕ → ℕ
top j [] = j
top j (k ∷ ks) = top k ks

final-block :
    (ones j : ℕ) (js : List ℕ) → final (block ones j) (map (block ones) js) ≡ block ones (top j js)
final-block ones j [] = refl
final-block ones j (k ∷ ks) = final-block ones k ks

top_max :
    (low j : ℕ) (js : List ℕ)
    → IsAscending low (j ∷ js)
    → (low ≤ top j js) × All (λ k. k ≤ top j js) (j ∷ js)
top_max low j [] (le, h) = (le, (omega arith, tt))
top_max low j (k ∷ ks) (le, h) =
    let (below, others) = top_max (suc j) k ks h in
    (omega (arith, le, below), (omega (arith, below), others))

below_top : (t : ℕ) (ks : List ℕ) → All (λ k. k ≤ t) ks → All (λ k. k ≢ suc t) ks
below_top t [] h = tt
below_top t (k ∷ ks) (h, hs) = (λ e. omega (arith, h, e), below_top t ks hs)

room_after :
    (max size t end : ℕ)
    → end ≡ t * size + (size - 1)
    → 1 ≤ size
    → max < 2 ^ 32
    → ltb_ℤ (pos size) (distance end max) ≡ true
    → suc t * size < 2 ^ 32
unfolding distance ◌-ℤ◌
room_after max size t end e h bound room = rw (suc-mul t size) (ground (arith, e, h, bound, room))

-- The taken networks and the first candidate are blocks of the size that is asked for, no two
-- networks are the same, none lies before the first candidate, and all addresses have 32 bits. Then
-- the search answers without a panic, and the network that it gives, if it gives one, is a block of
-- the same size that is none of the taken ones and does not lie before the first candidate.
pub next_available_network-IsFree :
    (networks : List IpNet) (maxi : IpNet) (ones k j : ℕ) (js : List ℕ)
    → sort by_network networks ≡ some (map (block ones) (j ∷ js))
    → IsAscending k (j ∷ js)
    → IsWithin ones (j ∷ js)
    → maxi.ip < 2 ^ 32
    → (r : Result _ IpNet) × (next_available_network networks (block ones k) maxi ones ≡ some r)
      × IsFree ones k (j ∷ js) r
unfolding next_available_network
next_available_network-IsFree networks maxi ones k j js sorted h within bound =
    rw (sorted, int_pow-pow 2 (32 - ones), final-block ones j js)
      (elim (Bool-cases
        (ltb_ℤ (pos (block_size ones)) (distance (last (block ones (top j js))) maxi.ip))) [
          | inl room ↦
              let (from, most) = top_max k j js h in
              let some_size = size-pos ones in
              let in_range : suc (top j js) * block_size ones < 2 ^ 32 =
                room_after maxi.ip (block_size ones) (top j js) _ (last-block ones (top j js))
                  some_size bound room in
              rw (room) (
                _,
                refl,
                (
                  suc (top j js),
                  next-block ones (top j js) in_range,
                  omega (arith, from),
                  below_top (top j js) (j ∷ js) most,
                ),
              )
          | inr full ↦ rw (full) (search-Answers maxi ones k j js h within)
        ])
