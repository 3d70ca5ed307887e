-- ===== src/ServiceGraph/Leader.antt =====
-- compose/graph.go: the leader is the one service that is deeper than every other.
use Prim.Native.String.{compare}
use batch_scheduler.Base.{
  String, true, false, Option, some, [], ◌∷◌, ◌&&◌, ◌≡◌, refl, sym, subst, arith, All, All-map,
  Bool-cases, inl, inr,
}
use batch_scheduler.Base.Outcome.{Result, ok, err}
use batch_scheduler.Base.Int.{ℤ, pos, ◌-ℤ◌, ◌≤ℤ◌, ◌<ℤ◌, leb_ℤ, int_laws, eq_of_parts}
use batch_scheduler.Base.Sort.{sort-perm, sort-IsSorted, sort_total, IsSorted, KeyLe, HasKeys}
use batch_scheduler.ServiceGraph.{
  ServiceDepth, Error, empty_graph, ambiguity, first_leader, find_leader, leader_of,
}
use mathlib.Core.List.{Perm}
use mathlib.Core.List.Perm
use text.Mathlib.Text.{is_le}

-- What an answer of `findLeader` says of the depths.
abbrev pub IsAnswer : ServiceDepth → Result Error String → Type 0
IsAnswer sd (ok leader) =
    (depth : ℤ) × (others : ServiceDepth) × Perm ((leader, depth) ∷ others) sd
    × All (λ other. other.1 <ℤ depth) others
IsAnswer sd (err empty_graph) = sd ≡ []
IsAnswer sd (err (ambiguity a b)) =
    (depth : ℤ) × (others : ServiceDepth) × Perm ((a, depth) ∷ (b, depth) ∷ others) sd
    × All (λ other. other.1 ≤ℤ depth) others

abbrev key : String × ℤ → Option ℤ
key entry = some (pos 0 -ℤ entry.1)

key-le : (a b : String × ℤ) → KeyLe key a b → b.1 ≤ℤ a.1
key-le a b h = omega (int_laws, h (pos 0 -ℤ a.1) (pos 0 -ℤ b.1) refl refl)

-- The depths behind the first entry.
behind :
    (a : String × ℤ) (rest : ServiceDepth) → All (KeyLe key a) rest → All (λ c. c.1 ≤ℤ a.1) rest
behind a rest h = All-map (KeyLe key a) (λ c. c.1 ≤ℤ a.1) (λ c. key-le a c) rest h

tie : (x y : ℤ) → (leb_ℤ x y && leb_ℤ y x) ≡ true → y ≡ x
tie x y e = ground (arith, e, eq_of_parts y x)

no_tie : (x y : ℤ) → (leb_ℤ x y && leb_ℤ y x) ≡ false → y ≤ℤ x → y <ℤ x
no_tie x y e h = ground (arith, e, h)

first_leader-IsAnswer :
    (sd sorted : ServiceDepth)
    → Perm sorted sd
    → IsSorted key sorted
    → IsAnswer sd (first_leader sorted)
first_leader-IsAnswer sd [] p s = sym (Perm.nil-eq p)
first_leader-IsAnswer sd (a ∷ []) p s = (a.1, [], p, tt)
first_leader-IsAnswer sd (a ∷ b ∷ rest) p s = elim (Bool-cases (leb_ℤ a.1 b.1 && leb_ℤ b.1 a.1)) [
  | inl tied ↦
      let p' : Perm (a ∷ (b.0, a.1) ∷ rest) sd =
        subst (λ z. Perm (a ∷ (b.0, z) ∷ rest) sd) (tie a.1 b.1 tied) p in
      let low = behind a rest s.0.1 in
      elim (Bool-cases (is_le (compare a.0 b.0))) [
        | inl le ↦ rw (tied, le) (a.1, rest, p', low)
        | inr gt ↦ rw (tied, gt) (a.1, rest, Perm.trans (Perm.swap a (b.0, a.1) rest) p', low)
      ]
  | inr apart ↦
      let first : b.1 <ℤ a.1 = no_tie a.1 b.1 apart (key-le a b s.0.0) in
      rw apart (
        a.1,
        b ∷ rest,
        p,
        (
          first,
          All-map (λ c. c.1 ≤ℤ b.1) (λ c. c.1 <ℤ a.1) (λ c le. omega (arith, le, first)) rest
              (behind b rest s.1.0),
        ),
      )
]

-- `findLeader` on any depths: a leader has a depth above that of each other service; an ambiguity
-- names two services with the same depth, and no service is deeper; and the graph is said to be
-- empty where there are no depths.
pub find_leader-IsAnswer : (sd : ServiceDepth) → IsAnswer sd (find_leader sd)
unfolding find_leader
find_leader-IsAnswer sd =
    let (sorted, e) = sort_total key sd (has_keys sd) in
    rw (e, leader_of)
      (first_leader-IsAnswer sd sorted (sort-perm key sd e) (sort-IsSorted key sd e))
  where
    has_keys : (l : ServiceDepth) → HasKeys key l
    has_keys [] = tt
    has_keys (a ∷ l) = ((pos 0 -ℤ a.1, refl), has_keys l)
