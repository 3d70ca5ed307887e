-- ===== src/ServiceGraph/Leaves.antt =====
-- compose/graph.go: what the depth of a service is, whatever the order of the walk.
use batch_scheduler.Base.{
  ℕ, zero, suc, ◌+◌, String, Option, none, some, List, [], ◌∷◌, ◌≡◌, refl, sym, ap, ◌∙◌, arith, All,
  Option-cases, inl, inr, subst,
}
use mathlib.Core.Option.{some-injective}
use batch_scheduler.Base.Int.{ℤ, pos, ◌+ℤ◌, int64}
use batch_scheduler.Base.Dict.{Dict, All-lookup}
use batch_scheduler.Base.Dict
use batch_scheduler.ServiceGraph.{ServiceGraph, ServiceDepth, sum_depths, service_depth}

mutual
  -- From a service, so many ways of following dependencies end at one that depends on nothing.
  pub data HasLeaves (s : ServiceGraph) : String → ℕ → Type 0 where
    leaf : {index : String} → Dict.lookup index s ≡ none → HasLeaves s index 1
    node :
        {index : String} {children : List String} {n : ℕ}
        → Dict.lookup index s ≡ some children
        → HaveLeaves s children n
        → HasLeaves s index n

  pub data HaveLeaves (s : ServiceGraph) : List String → ℕ → Type 0 where
    none_left : HaveLeaves s [] 0
    one_more :
        {child : String} {children : List String} {m n : ℕ}
        → HasLeaves s child m
        → HaveLeaves s children n
        → HaveLeaves s (child ∷ children) (m + n)

int64_add : (a b : ℕ) → int64 (int64 (pos a) +ℤ int64 (pos b)) ≡ int64 (pos (a + b))
unfolding int64 ◌+ℤ◌
int64_add a b = ground arith

-- A depth is the number of the leaves, in 64 bits.
abbrev pub IsDepth : ServiceGraph → String → ℤ → Type 0
IsDepth s index depth = (n : ℕ) × HasLeaves s index n × (depth ≡ int64 (pos n))

-- Every depth in the memory is right.
abbrev pub IsSound : ServiceGraph → ServiceDepth → Type 0
IsSound s memory = All (λ entry. IsDepth s entry.0 entry.1) memory

sum_step :
    (depth : String → Option ℤ) (child : String) (children : List String) (m a : ℕ) (d : ℤ)
    → depth child ≡ some d
    → d ≡ int64 (pos a)
    → sum_depths depth (child ∷ children) (int64 (pos m))
      ≡ sum_depths depth children (int64 (pos (m + a)))
unfolding sum_depths
sum_step depth child children m a d found same =
    rw (sum_depths, found)
      (ap (sum_depths depth children) (ap (λ x. int64 (int64 (pos m) +ℤ x)) same ∙ int64_add m a))

int64_zero : int64 (pos 0) ≡ pos 0
unfolding int64
int64_zero = refl

int64_one : int64 (pos 1) ≡ pos 1
unfolding int64
int64_one = refl

sum_depths-HaveLeaves :
    (s : ServiceGraph) (depth : String → Option ℤ)
    → ((index : String) (d : ℤ) → depth index ≡ some d → IsDepth s index d)
    → (children : List String) (m : ℕ) (z : ℤ) → sum_depths depth children (int64 (pos m)) ≡ some z
    → (n : ℕ) × HaveLeaves s children n × (z ≡ int64 (pos (m + n)))
unfolding sum_depths
sum_depths-HaveLeaves s depth sound [] m z e =
    (0, none_left, sym (some-injective _ _ e) ∙ ap (λ k. int64 (pos k)) (omega arith))
sum_depths-HaveLeaves s depth sound (child ∷ children) m z e = elim (Option-cases (depth child)) [
  | inl stuck ↦ absurd (ground (arith, stuck, e))
  | inr (d, found) ↦
      let (a, leaves, same) = sound child d found in
      let summed : sum_depths depth children (int64 (pos (m + a))) ≡ some z =
        sym (sum_step depth child children m a d found same) ∙ e in
      let (n, more, total) = sum_depths-HaveLeaves s depth sound children (m + a) z summed in
      (a + n, one_more leaves more, total ∙ ap (λ k. int64 (pos k)) (omega arith))
]

pub service_depth-IsDepth :
    (s : ServiceGraph) (memory : ServiceDepth)
    → IsSound s memory
    → (fuel : ℕ) (index : String) (z : ℤ) → service_depth s memory fuel index ≡ some z
    → IsDepth s index z
unfolding service_depth
service_depth-IsDepth s memory sound zero index z e = absurd (ground (arith, e))
service_depth-IsDepth s memory sound (suc fuel) index z e =
    elim (Option-cases (Dict.lookup index s)) [
      | inl outside ↦ (1, leaf outside, ground (arith, outside, e, int64_one))
      | inr (children, inside) ↦ elim (Option-cases (Dict.lookup index memory)) [
        | inr (d, known) ↦
            All-lookup (λ entry. IsDepth s entry.0 entry.1) index memory z sound
              (ground (arith, inside, known, e))
        | inl unknown ↦
            let (n, leaves, same) =
              sum_depths-HaveLeaves s (service_depth s memory fuel)
                (service_depth-IsDepth s memory sound fuel) children 0 z
                (ground (arith, inside, unknown, e, int64_zero)) in
            (n, node inside leaves, same ∙ ap (λ k. int64 (pos k)) (omega arith))
      ]
    ]

mutual
  pub HasLeaves-unique :
      (s : ServiceGraph) {index : String} {m n : ℕ}
      → HasLeaves s index m
      → HasLeaves s index n
      → m ≡ n
  HasLeaves-unique s (leaf e) (leaf e') = refl
  HasLeaves-unique s (leaf e) (node e' more) = absurd (ground (arith, e, e'))
  HasLeaves-unique s (node e more) (leaf e') = absurd (ground (arith, e, e'))
  HasLeaves-unique s (node {children = a} e more) (node {children = b} e' more') =
      HaveLeaves-unique s (some-injective _ _ (sym e ∙ e')) more more'

  HaveLeaves-unique :
      (s : ServiceGraph) {a b : List String} {m n : ℕ}
      → a ≡ b
      → HaveLeaves s a m
      → HaveLeaves s b n
      → m ≡ n
  HaveLeaves-unique s e none_left none_left = refl
  HaveLeaves-unique s e none_left (one_more l ls) = absurd (ground (arith, e))
  HaveLeaves-unique s e (one_more l ls) none_left = absurd (ground (arith, e))
  HaveLeaves-unique s e (one_more {child} {children} {m = m} l ls)
        (one_more {child = child'} {children = children'} {m = m'} l' ls') =
      let head : child ≡ child' = cc e in
      let tail : children ≡ children' = cc e in
      let first : m ≡ m' = HasLeaves-unique s l (subst (λ c. HasLeaves s c m') (sym head) l') in
      omega (arith, first, HaveLeaves-unique s tail ls ls')

-- What `serviceDepth` remembers changes nothing: two calls for a service that both return, whatever
-- right depths each finds in its memory, give the same depth.
pub service_depth_memory :
    (s : ServiceGraph) (memory memory' : ServiceDepth)
    → IsSound s memory
    → IsSound s memory'
    → (fuel fuel' : ℕ) (index : String) (z z' : ℤ) → service_depth s memory fuel index ≡ some z
    → service_depth s memory' fuel' index ≡ some z'
    → z ≡ z'
service_depth_memory s memory memory' sound sound' fuel fuel' index z z' e e' =
    let (m, leaves, same) = service_depth-IsDepth s memory sound fuel index z e in
    let (n, leaves', same') = service_depth-IsDepth s memory' sound' fuel' index z' e' in
    same ∙ ap (λ k. int64 (pos k)) (HasLeaves-unique s leaves leaves') ∙ sym same'
