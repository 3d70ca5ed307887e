-- ===== src/Network/Blocks.antt =====
-- The search for a free network, where all networks are blocks of one size.
use batch_scheduler.Base.{
  ℕ, suc, ◌+◌, ◌-◌, ◌*◌, ◌^◌, ◌%◌, ◌≤◌, ◌<◌, ◌==◌, true, false, some, List, [], ◌∷◌, map,
  if◌then◌else◌, ◌≡◌, ◌≢◌, refl, sym, ap, arith, All, ◌⊎◌, Bool-cases, inl, inr, subst, ◌∙◌, none,
}
use batch_scheduler.Base.Outcome.{Result, ok, err}
use batch_scheduler.Base.Int.{pos, ltb_ℤ, leb_ℤ}
use batch_scheduler.Network.{
  IpNet, Error, last, first_last, net_distance, next_net, search, distance,
}
use native.Mathlib.Nat.{mul-mod_left, mul-le-mul_right, one-le-pow, mod-eq_of_lt}

-- The size of a block: the number of its addresses.
abbrev pub block_size : ℕ → ℕ
block_size ones = 2 ^ (32 - ones)

-- The block at a place of the address space.
abbrev pub block : ℕ → ℕ → IpNet
block ones k = record { ip = k * block_size ones; ones = ones; mapped = none }

-- Places in ascending order, the first of them at least `low`.
abbrev pub IsAscending : ℕ → List ℕ → Type 0
IsAscending low [] = Unit
IsAscending low (k ∷ ks) = (low ≤ k) × IsAscending (suc k) ks

pub size-pos : (ones : ℕ) → 1 ≤ block_size ones
size-pos ones = one-le-pow (32 - ones) 2 (omega arith)

pub last-block : (ones k : ℕ) → last (block ones k) ≡ k * block_size ones + (block_size ones - 1)
unfolding last
last-block ones k = rw (mul-mod_left k (block_size ones)) (omega arith)

-- Blocks at different places are disjoint.
apart : (w k j : ℕ) → k < j → k * w + w ≤ j * w
apart w k j h = let le = mul-le-mul_right w h in ground (arith, le)

pub next-block :
    (ones k : ℕ)
    → suc k * block_size ones < 2 ^ 32
    → next_net (block ones k) ones ≡ block ones (suc k)
unfolding next_net
next-block ones k h =
    let some_size = size-pos ones in
    let following : last (block ones k) + 1 ≡ suc k * block_size ones =
      rw (last-block ones k) (omega (arith, some_size)) in
    ap (λ a. record { ip = a; ones = ones; mapped = none })
      (ap (λ a. a % 2 ^ 32) following ∙ mod-eq_of_lt h)

distance_self : (ones k : ℕ) → net_distance (block ones k) (block ones k) ≡ pos 0
unfolding net_distance first_last
distance_self ones k = ground arith

distance_apart :
    (ones k j : ℕ)
    → k < j
    → leb_ℤ (pos (block_size ones)) (net_distance (block ones k) (block ones j)) ≡ true
unfolding net_distance first_last
distance_apart ones k j h =
    let gap = apart (block_size ones) k j h in
    let some_size = size-pos ones in
    rw (last-block ones k, last-block ones j) (ground (arith, gap, some_size))

-- A result that is no panic: a network is a block at a place from `low` on which is none of `ks`.
abbrev pub IsFree : ℕ → ℕ → List ℕ → Result Error IpNet → Type 0
IsFree ones low ks (err e) = Unit
IsFree ones low ks (ok n) = (i : ℕ) × (n ≡ block ones i) × (low ≤ i) × All (λ k. k ≢ i) ks

-- The places of the list fit into the address space.
abbrev pub IsWithin : ℕ → List ℕ → Type 0
IsWithin ones ks = All (λ k. k * block_size ones < 2 ^ 32) ks

above : (low i : ℕ) (ks : List ℕ) → IsAscending low ks → i < low → All (λ k. k ≢ i) ks
above low i [] h lt = tt
above low i (k ∷ ks) (le, h) lt =
    (λ e. omega (arith, le, lt, e), above (suc k) i ks h (omega (arith, le, lt)))

IsFree-suc :
    (ones k : ℕ) (ks : List ℕ) (r : Result Error IpNet)
    → IsFree ones (suc k) ks r
    → IsFree ones k (k ∷ ks) r
IsFree-suc ones k ks (err e) h = tt
IsFree-suc ones k ks (ok n) (i, e, le, free) =
    (i, e, omega (arith, le), ((λ same. omega (arith, le, same)), free))

-- What the loop does after a network that is the candidate itself.
search_taken :
    (maxi : IpNet) (ones k : ℕ) (js : List ℕ)
    → search maxi ones (pos (block_size ones)) (block ones k) (map (block ones) (k ∷ js)) ≡ (
        if ltb_ℤ (pos 0) (distance maxi.ip (next_net (block ones k) ones).ip)
        then some (err Error.beyond_max)
        else (elim (map (block ones) js) [
          | [] ↦ some (err Error.full)
          | _ ∷ _ ↦
              search maxi ones
                (pos (block_size ones))
                (next_net (block ones k) ones)
                (map (block ones) js)
        ]))
unfolding search
search_taken maxi ones k js =
    let some_size = size-pos ones in
    let near : leb_ℤ (pos (block_size ones)) (pos 0) ≡ false = ground (arith, some_size) in
    rw (distance_self ones k, near) refl

-- The loop stops where the candidate lies before the next network.
search_free :
    (maxi : IpNet) (ones k j : ℕ) (js : List ℕ)
    → k < j
    → search maxi ones (pos (block_size ones)) (block ones k) (map (block ones) (j ∷ js))
      ≡ some (ok (block ones k))
unfolding search
search_free maxi ones k j js h =
    let far = distance_apart ones k j h in
    let some_size = size-pos ones in
    let sign : ltb_ℤ (net_distance (block ones k) (block ones j)) (pos 0) ≡ false =
      ground (arith, far, some_size) in
    rw (sign, far) refl

-- The search from the block at `k` on does not panic, and gives no network that is taken.
abbrev pub Answers : IpNet → ℕ → ℕ → List ℕ → Type 0
Answers maxi ones k ks =
    (r : Result Error IpNet) × (search maxi ones (pos (block_size ones)) (block ones k)
        (map (block ones) ks)
      ≡ some r)
    × IsFree ones k ks r

taken-Answers :
    (maxi : IpNet) (ones k : ℕ) (js : List ℕ)
    → ((elim (map (block ones) js) [
      | [] ↦ some (err Error.full)
      | _ ∷ _ ↦
          search maxi ones
            (pos (block_size ones))
            (next_net (block ones k) ones)
            (map (block ones) js)
    ])
        ≡ some (err Error.full))
      ⊎ (Answers maxi ones (suc k) js
          × ((elim (map (block ones) js) [
            | [] ↦ some (err Error.full)
            | _ ∷ _ ↦
                search maxi ones
                  (pos (block_size ones))
                  (next_net (block ones k) ones)
                  (map (block ones) js)
          ])
              ≡ search maxi ones
                  (pos (block_size ones))
                  (block ones (suc k))
                  (map (block ones) js)))
    → Answers maxi ones k (k ∷ js)
taken-Answers maxi ones k js rest =
    elim (Bool-cases (ltb_ℤ (pos 0) (distance maxi.ip (next_net (block ones k) ones).ip))) [
      | inl past ↦ (err Error.beyond_max, search_taken maxi ones k js ∙ (rw (past) refl), tt)
      | inr inside ↦ elim rest [
        | inl full ↦ (err Error.full, search_taken maxi ones k js ∙ (rw (inside) full), tt)
        | inr ((r, e, free), goes_on) ↦ (
          r,
          search_taken maxi ones k js ∙ (rw (inside) (goes_on ∙ e)),
          IsFree-suc ones k js r free,
        )
      ]
    ]

candidate-Answers :
    (maxi : IpNet) (ones k j : ℕ) (js : List ℕ)
    → k ≤ j
    → IsAscending (suc j) js
    → (IsAscending (suc k) js → Answers maxi ones k (k ∷ js))
    → Answers maxi ones k (j ∷ js)
candidate-Answers maxi ones k j js le h taken = elim (Bool-cases (k == j)) [
  | inr different ↦
      let lt : k < j = ground (arith, le, different) in
      (
        ok (block ones k),
        search_free maxi ones k j js lt,
        (k, refl, omega arith, above (suc k) k (j ∷ js) (omega (arith, lt), h) (omega arith)),
      )
  | inl same ↦
      let eq : k ≡ j = ground (arith, same) in
      subst (λ x. Answers maxi ones k (x ∷ js)) eq
        (taken (subst (λ x. IsAscending (suc x) js) (sym eq) h))
]

-- The loop ends without a panic, and a network that it gives overlaps none of the list.
pub search-Answers :
    (maxi : IpNet) (ones k j : ℕ) (js : List ℕ)
    → IsAscending k (j ∷ js)
    → IsWithin ones (j ∷ js)
    → Answers maxi ones k (j ∷ js)
search-Answers maxi ones k j [] (le, h) within =
    candidate-Answers maxi ones k j [] le h (λ _. taken-Answers maxi ones k [] (inl refl))
search-Answers maxi ones k j (i ∷ js) (le, h) (_, within) =
    candidate-Answers maxi ones k j (i ∷ js) le h (λ after.
      let fits = mul-le-mul_right (block_size ones) after.0 in
      let in_range : suc k * block_size ones < 2 ^ 32 = omega (arith, fits, within.0) in
      taken-Answers maxi ones k (i ∷ js) (
        inr (
          search-Answers maxi ones (suc k) i js after within,
          ap (λ n. search maxi ones (pos (block_size ones)) n (map (block ones) (i ∷ js)))
              (next-block ones k in_range),
        )))
