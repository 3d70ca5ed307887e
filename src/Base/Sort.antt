-- ===== src/Base/Sort.antt =====
-- Go's `sort.Sort` and `sort.Slice` on a key that may panic when it is computed (a division by
-- zero): `none` is the panic. Entries with equal keys keep their order here; Go does not promise
-- that, and no theorem about the sorted lists relies on the order among equal keys.
use batch_scheduler.Base.{
  ◌≡◌, refl, sym, subst, Bool, Option, none, some, List, [], ◌∷◌, if◌then◌else◌, All, inl, inr,
  Bool-cases, All-map, arith, true, false,
}
use batch_scheduler.Base.Int.{ℤ, ltb_ℤ, ◌≤ℤ◌}
use mathlib.Core.Option.{some-injective}
use mathlib.Core.List.{Perm}
use mathlib.Core.List.Perm

infixl 5 ◌>>=◌
abbrev pub ◌>>=◌ {ℓ κ} : {A : Type ℓ} {B : Type κ} → Option A → (A → Option B) → Option B
none >>= f = none
some a >>= f = f a

pub >>=-eq-some {ℓ κ} :
    {A : Type ℓ} {B : Type κ} (m : Option A) (f : A → Option B) {b : B}
    → (m >>= f) ≡ some b
    → (a : A) × (m ≡ some a) × (f a ≡ some b)
>>=-eq-some none f e = cc
>>=-eq-some (some a) f e = (a, refl, e)

perm_of_eq {ℓ} : {A : Type ℓ} {r l : List A} → l ≡ r → Perm l r
perm_of_eq {l = l} e = subst (Perm l) e (Perm.refl l)

module _ {ℓ} {A : Type ℓ} where
  -- `Less(i, j)` by the key.
  abbrev pub less : (A → Option ℤ) → A → A → Option Bool
  less key a b = do x ← key a; y ← key b; some (ltb_ℤ x y)

  unfoldable pub insert_sorted : (A → Option ℤ) → A → List A → Option (List A)
  insert_sorted key a [] = some (a ∷ [])
  insert_sorted key a (b ∷ l) =
      let later = insert_sorted key a l in
      do smaller ← less key b a; if smaller then (later >>= λ r. some (b ∷ r)) else some (a ∷ b ∷ l)

  unfoldable pub sort : (A → Option ℤ) → List A → Option (List A)
  unfolding insert_sorted
  sort key [] = some []
  sort key (a ∷ l) = do r ← sort key l; insert_sorted key a r

  -- The key of `a` is at most that of `b`.
  abbrev pub KeyLe : (A → Option ℤ) → A → A → Type 0
  KeyLe key a b = (x : ℤ) (y : ℤ) → key a ≡ some x → key b ≡ some y → x ≤ℤ y

  -- Every key can be computed.
  abbrev pub HasKeys : (A → Option ℤ) → List A → Type 0
  HasKeys key = All (λ a. (x : ℤ) × (key a ≡ some x))

  insert_sorted-perm :
      (key : A → Option ℤ) (a : A) (l : List A) {r : List A}
      → insert_sorted key a l ≡ some r
      → Perm r (a ∷ l)
  unfolding insert_sorted
  insert_sorted-perm key a [] e = perm_of_eq (sym (some-injective _ _ e))
  insert_sorted-perm key a (b ∷ l) e =
      let (smaller, tested, rest) = >>=-eq-some (less key b a) _ e in
      elim (Bool-cases smaller) [
        | inl lt ↦
            let (r', inserted, final) =
              >>=-eq-some (insert_sorted key a l) (λ r. some (b ∷ r)) (rw lt at rest) in
            Perm.trans (perm_of_eq (sym (some-injective _ _ final)))
              (Perm.trans (Perm.cons b (insert_sorted-perm key a l inserted)) (Perm.swap a b l))
        | inr ge ↦ perm_of_eq (sym (some-injective _ _ (rw ge at rest)))
      ]

  -- A sort only reorders.
  pub sort-perm : (key : A → Option ℤ) (l : List A) {r : List A} → sort key l ≡ some r → Perm r l
  unfolding sort
  sort-perm key [] e = perm_of_eq (sym (some-injective _ _ e))
  sort-perm key (a ∷ l) e =
      let (r', sorted, inserted) = >>=-eq-some (sort key l) _ e in
      Perm.trans (insert_sorted-perm key a r' inserted) (Perm.cons a (sort-perm key l sorted))

  All-insert_sorted {κ} :
      (P : A → Type κ) (key : A → Option ℤ) (a : A) (l : List A) {r : List A}
      → insert_sorted key a l ≡ some r
      → P a
      → All P l
      → All P r
  unfolding insert_sorted
  All-insert_sorted P key a [] e ha hl = subst (All P) (some-injective _ _ e) (ha, tt)
  All-insert_sorted P key a (b ∷ l) e ha hl =
      let (smaller, tested, rest) = >>=-eq-some (less key b a) _ e in
      elim (Bool-cases smaller) [
        | inl lt ↦
            let (r', inserted, final) =
              >>=-eq-some (insert_sorted key a l) (λ r. some (b ∷ r)) (rw lt at rest) in
            subst (All P) (some-injective _ _ final)
              (hl.0, All-insert_sorted P key a l inserted ha hl.1)
        | inr ge ↦ subst (All P) (some-injective _ _ (rw ge at rest)) (ha, hl)
      ]

  -- What holds of every entry holds of every entry of the sorted list.
  pub All-sort {κ} :
      (P : A → Type κ) (key : A → Option ℤ) (l : List A) {r : List A}
      → sort key l ≡ some r
      → All P l
      → All P r
  unfolding sort
  All-sort P key [] e h = subst (All P) (some-injective _ _ e) tt
  All-sort P key (a ∷ l) e h =
      let (r', sorted, inserted) = >>=-eq-some (sort key l) _ e in
      All-insert_sorted P key a r' inserted h.0 (All-sort P key l sorted h.1)

  -- Every entry has a key at most that of each entry behind it.
  abbrev pub IsSorted : (A → Option ℤ) → List A → Type ℓ
  IsSorted key [] = Unit
  IsSorted key (a ∷ l) = All (KeyLe key a) l × IsSorted key l

  less-KeyLe :
      (key : A → Option ℤ) (a b : A)
      → (less key a b ≡ some true → KeyLe key a b) × (less key a b ≡ some false → KeyLe key b a)
  less-KeyLe key a b = (
    λ e x y ex ey. omega (arith, ordered x y ex ey e),
    λ e x y ex ey. omega (arith, ordered' y x ey ex e),
  )
    where
      ordered : (x y : ℤ) → key a ≡ some x → key b ≡ some y → less key a b ≡ some true → x ≤ℤ y
      ordered x y ex ey e = ground arith

      ordered' : (x y : ℤ) → key a ≡ some x → key b ≡ some y → less key a b ≡ some false → y ≤ℤ x
      ordered' x y ex ey e = ground arith

  less_key :
      (key : A → Option ℤ) (a b : A) {t : Bool} → less key a b ≡ some t → (x : ℤ) × (key a ≡ some x)
  less_key key a b e = let (x, ex, _) = >>=-eq-some (key a) _ e in (x, ex)

  insert_sorted-IsSorted :
      (key : A → Option ℤ) (a : A) (l : List A) {r : List A}
      → insert_sorted key a l ≡ some r
      → IsSorted key l
      → IsSorted key r
  unfolding insert_sorted
  insert_sorted-IsSorted key a [] e s = subst (IsSorted key) (some-injective _ _ e) (tt, tt)
  insert_sorted-IsSorted key a (b ∷ l) e s =
      let (smaller, tested, rest) = >>=-eq-some (less key b a) _ e in
      let (y, ey) = less_key key b a tested in
      elim (Bool-cases smaller) [
        | inl lt ↦
            let (r', inserted, final) =
              >>=-eq-some (insert_sorted key a l) (λ r. some (b ∷ r)) (rw lt at rest) in
            let b_le_a = (less-KeyLe key b a).0 (rw lt at tested) in
            subst (IsSorted key) (some-injective _ _ final) (
              All-insert_sorted (KeyLe key b) key a l inserted b_le_a s.0,
              insert_sorted-IsSorted key a l inserted s.1,
            )
        | inr ge ↦
            let a_le_b = (less-KeyLe key b a).1 (rw ge at tested) in
            subst (IsSorted key) (some-injective _ _ (rw ge at rest)) (
              (
                a_le_b,
                All-map (KeyLe key b) (KeyLe key a)
                    (λ c b_le_c x z ex ez. omega (arith, a_le_b x y ex ey, b_le_c y z ey ez)) l s.0,
              ),
              s,
            )
      ]

  -- The result of a sort is in order.
  pub sort-IsSorted :
      (key : A → Option ℤ) (l : List A) {r : List A} → sort key l ≡ some r → IsSorted key r
  unfolding sort
  sort-IsSorted key [] e = subst (IsSorted key) (some-injective _ _ e) tt
  sort-IsSorted key (a ∷ l) e =
      let (r', sorted, inserted) = >>=-eq-some (sort key l) _ e in
      insert_sorted-IsSorted key a r' inserted (sort-IsSorted key l sorted)

  insert_sorted_total :
      (key : A → Option ℤ) (a : A) (l : List A) {x : ℤ}
      → key a ≡ some x
      → HasKeys key l
      → (r : List A) × (insert_sorted key a l ≡ some r)
  unfolding insert_sorted
  insert_sorted_total key a [] ex h = (a ∷ [], refl)
  insert_sorted_total key a (b ∷ l) {x} ex ((y, ey), h) =
      let (r, e) = insert_sorted_total key a l ex h in
      elim (Bool-cases (ltb_ℤ y x)) [
        | inl lt ↦ (b ∷ r, ground arith)
        | inr ge ↦ (a ∷ b ∷ l, ground arith)
      ]

  -- Where every key can be computed the sort does not panic.
  pub sort_total :
      (key : A → Option ℤ) (l : List A) → HasKeys key l → (r : List A) × (sort key l ≡ some r)
  unfolding sort
  sort_total key [] h = ([], refl)
  sort_total key (a ∷ l) ((x, ex), h) =
      let (r, e) = sort_total key l h in
      let (s, e') = insert_sorted_total key a r ex (All-sort _ key l e h) in (s, rw e e')

-- The value has the property, if there is one.
abbrev pub Holds {ℓ κ} : {A : Type ℓ} → (A → Type κ) → Option A → Type κ
Holds P none = Unit
Holds P (some a) = P a

pub Holds-bind {ℓ κ μ ν} :
    {A : Type ℓ} {B : Type κ} (P : A → Type μ) (Q : B → Type ν) (m : Option A) (f : A → Option B)
    → Holds P m
    → ((a : A) → P a → Holds Q (f a))
    → Holds Q (m >>= f)
Holds-bind P Q none f h k = tt
Holds-bind P Q (some a) f h k = k a h

pub Holds-self {ℓ κ} :
    {A : Type ℓ} {P : A → Type κ} (m : Option A) → ((a : A) → m ≡ some a → P a) → Holds P m
Holds-self none k = tt
Holds-self (some a) k = k a refl

pub Holds-map {ℓ κ μ} :
    {A : Type ℓ} {P : A → Type κ} {Q : A → Type μ} (m : Option A)
    → Holds P m
    → ((a : A) → P a → Q a)
    → Holds Q m
Holds-map none h k = tt
Holds-map (some a) h k = k a h

-- A property of the value that is at hand with its equation.
pub Holds-bind_eq {ℓ κ ν} :
    {A : Type ℓ} {B : Type κ} (Q : B → Type ν) (m : Option A) (f : A → Option B)
    → ((a : A) → m ≡ some a → Holds Q (f a))
    → Holds Q (m >>= f)
Holds-bind_eq Q none f k = tt
Holds-bind_eq Q (some a) f k = k a refl
