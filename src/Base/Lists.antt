-- ===== src/Base/Lists.antt =====
-- Lists measured by native numbers, predicates over all entries, and the entries that pass a test.
use Prim.Native.Nat.{ℕ, suc, ◌+◌}
use mathlib.Core.Path.{◌≡◌}
use mathlib.Core.List.{List, [], ◌∷◌, ◌++◌}
use mathlib.Core.Bool.{Bool, true}
use mathlib.Core.Logic.{inl, inr}
use batch_scheduler.Base.Tests.{if◌then◌else◌, Bool-cases}
use native.Mathlib.Omega.{arith}

module _ {ℓ} {A : Type ℓ} where
  abbrev pub length : List A → ℕ
  length [] = 0
  length (x ∷ xs) = suc (length xs)

  pub length-append : (xs ys : List A) → length (xs ++ ys) ≡ length xs + length ys
  length-append [] ys = omega arith
  length-append (x ∷ xs) ys = omega (arith, length-append xs ys)

  -- Every entry of the list has the property.
  abbrev pub All {κ} : (A → Type κ) → List A → Type κ
  All Holds (first ∷ others) = Holds first × All Holds others
  All Holds [] = Unit

  pub All-append {κ} :
      (Holds : A → Type κ) (left right : List A)
      → All Holds left
      → All Holds right
      → All Holds (left ++ right)
  All-append Holds (first ∷ left) right (h, hs) hr = (h, All-append Holds left right hs hr)
  All-append Holds [] right h hr = hr

  pub All-map {κ μ} :
      (P : A → Type κ) (Q : A → Type μ)
      → ((x : A) → P x → Q x)
      → (xs : List A) → All P xs
      → All Q xs
  All-map P Q f [] h = tt
  All-map P Q f (x ∷ xs) h = (f x h.0, All-map P Q f xs h.1)

  -- The entries that pass a test.
  unfoldable pub sift : (A → Bool) → List A → List A
  sift keep [] = []
  sift keep (x ∷ xs) = let rest = sift keep xs in if keep x then x ∷ rest else rest

  pub All-sift {κ} :
      (P : A → Type κ) (keep : A → Bool) (xs : List A)
      → All P xs
      → All (λ x. P x × (keep x ≡ true)) (sift keep xs)
  unfolding sift
  All-sift P keep [] h = tt
  All-sift P keep (x ∷ xs) h = elim (Bool-cases (keep x)) [
    | inl e ↦ rw (e, sift) ((h.0, e), All-sift P keep xs h.1)
    | inr e ↦ rw (e, sift) (All-sift P keep xs h.1)
  ]

  pub All-sift_test {κ} :
      (P : A → Type κ) (keep : A → Bool)
      → ((x : A) → keep x ≡ true → P x)
      → (xs : List A) → All P (sift keep xs)
  unfolding sift
  All-sift_test P keep h [] = tt
  All-sift_test P keep h (x ∷ xs) = elim (Bool-cases (keep x)) [
    | inl e ↦ rw (e, sift) (h x e, All-sift_test P keep h xs)
    | inr e ↦ rw (e, sift) (All-sift_test P keep h xs)
  ]
