-- ===== src/BoltStore.antt =====
-- store/bbolt.go: the store on disk, over the database bbolt.
--
-- A bucket of the database is a parameter, with the operations that the code calls; a value is a
-- list of bytes. A transaction either commits the bucket or leaves it as it was.
-- `DeleteWithClause` is not here: it deletes under a cursor that it goes on to move, which the
-- database does not define.
pub mod Refines
use batch_scheduler.Base.{ℕ, String, Bool, true, false, Option, none, some, List, [], ◌∷◌}
use batch_scheduler.Base.Outcome.{Result, ok, err}

abbrev pub Bytes : Type 0
Bytes = List ℕ

-- `bolt.Bucket`. A `get` of nothing and of an empty value differ, and `none` is an error of `put`
-- and `delete`.
pub record Bucket (B : Type 0) : Type 0 where
  pub get : B → String → Option Bytes
  pub put : B → String → Bytes → Option B
  pub delete : B → String → Option B
  pub entries : B → List (String × Bytes)
  pub key_n : B → ℕ

pub data Error : Type 0 where
  no_bucket from_bolt : Error

-- `BoltStore`: the bucket `default` of its database, if it is there.
pub record BoltStore (B : Type 0) : Type 0 where
  pub bucket : Option B

module _ {B : Type 0} (bolt : Bucket B) where
  -- What a transaction leaves.
  abbrev pub commit : Option B → BoltStore B → BoltStore B × Option Error
  commit none s = (s, some from_bolt)
  commit (some b) s = (record { bucket = some b }, none)

  abbrev pub put_in : Option B → String → Bytes → BoltStore B → BoltStore B × Option Error
  put_in none key value s = (s, some no_bucket)
  put_in (some b) key value s = commit (bolt.put b key value) s

  -- `Put`
  unfoldable pub put : String → Bytes → BoltStore B → BoltStore B × Option Error
  put key value s = put_in s.bucket key value s

  -- The copy of a value, which is nil where it has no bytes.
  abbrev pub copied : Option Bytes → Option Bytes
  copied none = none
  copied (some []) = none
  copied (some (b ∷ bytes)) = some (b ∷ bytes)

  abbrev pub get_from : Option B → String → Result Error (Option Bytes)
  get_from none key = err no_bucket
  get_from (some b) key = ok (copied (bolt.get b key))

  -- `Get`
  unfoldable pub get : String → BoltStore B → Result Error (Option Bytes)
  get key s = get_from s.bucket key

  abbrev pub delete_in : Option B → String → BoltStore B → BoltStore B × Option Error
  delete_in none key s = (s, some no_bucket)
  delete_in (some b) key s = commit (bolt.delete b key) s

  -- `Delete`
  unfoldable pub delete : String → BoltStore B → BoltStore B × Option Error
  delete key s = delete_in s.bucket key s

  abbrev pub size_of : Option B → Option ℕ
  size_of none = none
  size_of (some b) = some (bolt.key_n b)

  -- `Length`; `none` is the panic where there is no bucket.
  unfoldable pub size : BoltStore B → Option ℕ
  size s = size_of s.bucket

  -- The loop of `ForEach`, which ends at the first error of the callback.
  unfoldable pub visit_all :
      {S E : Type 0}
      → (S → String → Bytes → S × Option E)
      → S
      → List (String × Bytes)
      → S × Option E
  visit_all fn st [] = (st, none)
  visit_all fn st ((k, v) ∷ entries) =
      let (st', e) = fn st k v in
      let rest = visit_all fn st' entries in elim e [ none ↦ rest | some e' ↦ (st', some e') ]

  abbrev pub for_each_in :
      {S E : Type 0} → (S → String → Bytes → S × Option E) → S → Option B → Option (S × Option E)
  for_each_in fn st none = none
  for_each_in fn st (some b) = some (visit_all fn st (bolt.entries b))

  -- `ForEach`, with the state of the callback; `none` is the panic where there is no bucket.
  unfoldable pub for_each :
      {S E : Type 0} → (S → String → Bytes → S × Option E) → S → BoltStore B → Option (S × Option E)
  for_each fn st s = for_each_in fn st s.bucket
