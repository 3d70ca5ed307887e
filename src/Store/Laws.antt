-- ===== src/Store/Laws.antt =====
-- What store/memory.go gives back after each of its writes.
use text.Mathlib.Text.{◌==◌}
use text.Mathlib.TextEquality.{eq_iff}
use batch_scheduler.Base.{
  suc, Bool, true, false, none, some, List, [], ◌∷◌, String, length, if◌then◌else◌, ◌≡◌, refl,
  arith,
}
use batch_scheduler.Base.Dict.{Dict, NodupKeys}
use batch_scheduler.Base.Dict
use batch_scheduler.Store.{
  MemoryStore, get, put, delete, todos, delete_all, delete_with_clause, size,
}

contains : String → List String → Bool
contains k [] = false
contains k (j ∷ js) = if j == k then true else contains k js

module _ {V : Type 0} where
  -- A read after a write sees the value written under its key, and any other key as before.
  pub get-put :
      (m : MemoryStore V) (k j : String) (v : V)
      → get (put m k v) j ≡ (if k == j then some v else get m j)
  unfolding get put
  get-put m k j v = Dict.lookup-insert k j v m.kv

  -- A read after a deletion finds nothing under its key, and any other key as before.
  pub get-delete :
      (m : MemoryStore V) (k j : String) → get (delete m k) j ≡ (if k == j then none else get m j)
  unfolding get delete
  get-delete m k j = Dict.lookup-erase k j m.kv

  length-insert :
      (k : String) (v : V) (kv : Dict V)
      → length (Dict.insert k v kv)
        ≡ (elim (Dict.lookup k kv) [ none ↦ suc (length kv) | some _ ↦ length kv ])
  unfolding Dict.insert Dict.lookup
  length-insert k v [] = refl
  length-insert k v ((j, w) ∷ kv) = ground (arith, length-insert k v kv)

  -- The size counts the keys: a write of a new key adds one, a write of a known key none.
  pub size-put :
      (m : MemoryStore V) (k : String) (v : V)
      → size (put m k v) ≡ (elim (get m k) [ none ↦ suc (size m) | some _ ↦ size m ])
  unfolding size put get
  size-put m k v = length-insert k v m.kv

  lookup-delete_all :
      (ks : List String) (k : String) (kv : Dict V)
      → Dict.lookup k (delete_all ks kv) ≡ (if contains k ks then none else Dict.lookup k kv)
  unfolding delete_all contains
  lookup-delete_all [] k kv = refl
  lookup-delete_all (j ∷ js) k kv =
      ground (arith, lookup-delete_all js k (Dict.erase j kv), Dict.lookup-erase j k kv)

  contains-todos :
      (fn : String → V → Bool) (k : String) (kv : Dict V)
      → NodupKeys kv
      → contains k (todos fn kv) ≡ (elim (Dict.lookup k kv) [ none ↦ false | some v ↦ fn k v ])
  unfolding contains todos Dict.lookup
  contains-todos fn k [] h = refl
  contains-todos fn k ((j, v) ∷ kv) h = ground (arith, eq_iff j k, contains-todos fn k kv h.1)

  -- On a store whose keys differ, `DeleteWithClause` deletes exactly the entries that the clause
  -- takes.
  pub get-delete_with_clause :
      (fn : String → V → Bool) (m : MemoryStore V) (k : String)
      → NodupKeys m.kv
      → get (delete_with_clause fn m) k
        ≡ (elim (get m k) [ none ↦ none | some v ↦ if fn k v then none else some v ])
  unfolding get delete_with_clause
  get-delete_with_clause fn m k h =
      ground (arith, lookup-delete_all (todos fn m.kv) k m.kv, contains-todos fn k m.kv h)
