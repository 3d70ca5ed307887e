-- ===== src/Store.antt =====
-- store/memory.go: `MemoryStore`, one of the two implementations of the interface of store/store.go.
-- Keys are texts; a stored value is of any type, which stands for its bytes. Each method holds the
-- store's lock throughout, so it is one step. No method of this store returns an error of its own.
pub mod Laws
use batch_scheduler.Base.{
  ℕ, Bool, true, false, Option, none, some, List, [], ◌∷◌, String, length, if◌then◌else◌, ◌≡◌,
}
use batch_scheduler.Base.Dict.{Dict}
use batch_scheduler.Base.Dict

pub record MemoryStore (V : Type 0) : Type 0 where
  pub kv : Dict V

-- `NewMemoryStore`
abbrev pub new_memory_store : {V : Type 0} → MemoryStore V
new_memory_store = record { kv = [] }

-- What a loop does after a callback: go on, or end with the callback's error.
abbrev pub unless_failed : {S E : Type 0} → S × Option E → (S → S × Option E) → S × Option E
unless_failed (s, none) next = next s
unless_failed (s, some e) next = (s, some e)

module _ {V : Type 0} where
  unfoldable pub get : MemoryStore V → String → Option V
  get m key = Dict.lookup key m.kv

  unfoldable pub put : MemoryStore V → String → V → MemoryStore V
  put m key value = record m { kv = Dict.insert key value m.kv }

  unfoldable pub delete : MemoryStore V → String → MemoryStore V
  delete m key = record m { kv = Dict.erase key m.kv }

  -- The first loop of `DeleteWithClause`: the keys that the clause takes.
  unfoldable pub todos : (String → V → Bool) → Dict V → List String
  todos fn [] = []
  todos fn ((k, v) ∷ kv) = let rest = todos fn kv in if fn k v then k ∷ rest else rest

  -- Its second loop.
  unfoldable pub delete_all : List String → Dict V → Dict V
  delete_all [] kv = kv
  delete_all (k ∷ ks) kv = delete_all ks (Dict.erase k kv)

  unfoldable pub delete_with_clause : (String → V → Bool) → MemoryStore V → MemoryStore V
  unfolding todos delete_all
  delete_with_clause fn m = record m { kv = delete_all (todos fn m.kv) m.kv }

  unfoldable pub size : MemoryStore V → ℕ
  size m = length m.kv

  -- `ForEach` with a callback that works on a state of its own and may end the loop by an error.
  unfoldable pub for_each :
      {S E : Type 0} → (S → String → V → S × Option E) → S → Dict V → S × Option E
  for_each fn s [] = (s, none)
  for_each fn s ((k, v) ∷ kv) = unless_failed (fn s k v) (λ s'. for_each fn s' kv)
