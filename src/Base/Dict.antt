-- ===== src/Base/Dict.antt =====
-- Go's `map[string]T` as an association list. The order of the entries stands for the order in
-- which one `range` happens to visit them; theorems hold for every list, so for every order.
use Prim.Native.String.{String}
use text.Mathlib.Text.{◌==◌}
use text.Mathlib.TextEquality.{eq_iff}
use mathlib.Core.Path.{◌≡◌, refl, subst}
use mathlib.Core.Logic.{inl, inr}
use mathlib.Core.Option.{Option, none, some}
use mathlib.Core.List.{List, [], ◌∷◌}
use native.Mathlib.Omega.{arith}
use batch_scheduler.Base.Tests.{if◌then◌else◌, Bool-cases}
use batch_scheduler.Base.Lists.{All}

abbrev pub Dict {ℓ} : Type ℓ → Type ℓ
Dict V = List (String × V)

module _ {ℓ} {V : Type ℓ} where
  -- `delete(m, k)`. Every entry of the key goes; a real map has at most one.
  unfoldable pub erase : String → Dict V → Dict V
  erase k [] = []
  erase k ((j, w) ∷ kv) = let rest = erase k kv in if j == k then rest else (j, w) ∷ rest

  -- `v, ok := m[k]`
  unfoldable pub lookup : (key : String) → Dict V → Option V
  lookup key ((own, value) ∷ kv) =
      let rest = lookup key kv in if own == key then some value else rest
  lookup key [] = none

  -- `m[k] = v`
  unfoldable pub insert : (key : String) → V → Dict V → Dict V
  insert key value ((own, old) ∷ kv) =
      let rest = insert key value kv in if own == key then (key, value) ∷ kv else (own, old) ∷ rest
  insert key value [] = (key, value) ∷ []

  -- No key stands twice.
  abbrev pub NodupKeys : Dict V → Type ℓ
  NodupKeys [] = Unit
  NodupKeys ((k, _) ∷ m) = (lookup k m ≡ none) × NodupKeys m

  pub lookup-erase :
      (k j : String) (m : Dict V) → lookup j (erase k m) ≡ (if k == j then none else lookup j m)
  unfolding lookup erase
  lookup-erase k j [] = ground arith
  lookup-erase k j ((i, w) ∷ m) =
      ground (arith, eq_iff k j, eq_iff i k, eq_iff i j, lookup-erase k j m)

  pub lookup-insert :
      (key j : String) (value : V) (kv : Dict V)
      → lookup j (insert key value kv) ≡ (if key == j then some value else lookup j kv)
  unfolding insert lookup
  lookup-insert key j value ((own, old) ∷ kv) =
      ground (arith, eq_iff own key, eq_iff own j, eq_iff key j, lookup-insert key j value kv)
  lookup-insert key j value [] = refl

  pub insert-NodupKeys : (k : String) (v : V) (m : Dict V) → NodupKeys m → NodupKeys (insert k v m)
  unfolding lookup insert
  insert-NodupKeys k v [] h = (refl, tt)
  insert-NodupKeys k v ((j, w) ∷ m) h =
      ground (arith, eq_iff j k, eq_iff k j, insert-NodupKeys k v m h.1, lookup-insert k j v m)

  pub erase-NodupKeys : (k : String) (m : Dict V) → NodupKeys m → NodupKeys (erase k m)
  unfolding lookup erase
  erase-NodupKeys k [] h = tt
  erase-NodupKeys k ((j, w) ∷ m) h =
      ground (arith, eq_iff j k, erase-NodupKeys k m h.1, lookup-erase k j m)

  pub All-insert {κ} :
      (P : String × V → Type κ) (k : String) (v : V) (m : Dict V)
      → P (k, v)
      → All P m
      → All P (insert k v m)
  unfolding insert
  All-insert P k v [] hv h = (hv, tt)
  All-insert P k v ((j, w) ∷ m) hv h = ground (arith, All-insert P k v m hv h.1)

  pub All-erase {κ} :
      (P : String × V → Type κ) (k : String) (m : Dict V) → All P m → All P (erase k m)
  unfolding erase
  All-erase P k [] h = tt
  All-erase P k ((j, w) ∷ m) h = ground (arith, All-erase P k m h.1)

  pair_path : {k j : String} {v w : V} → k ≡ j → v ≡ w → ◌≡◌ {A = String × V} (k, v) (j, w)
  pair_path p q = λ i. (p i, q i)

  pub All-lookup {κ} :
      (P : String × V → Type κ) (k : String) (m : Dict V) (v : V)
      → All P m
      → lookup k m ≡ some v
      → P (k, v)
  unfolding lookup
  All-lookup P k [] v h e = cc
  All-lookup P k ((j, w) ∷ m) v h e = elim (Bool-cases (j == k)) [
    | inl hit ↦ subst P (pair_path ((eq_iff j k).0 hit) (ground arith)) h.0
    | inr miss ↦ All-lookup P k m v h.1 (ground arith)
  ]
