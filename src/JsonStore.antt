-- ===== src/JsonStore.antt =====
-- scheduler/store.go: `JSONStore`, tasks under the text of their id in a store of bytes. The bytes
-- of one value are seen as the document that they encode.
pub mod Reading
pub mod Laws
use batch_scheduler.Base.{
  ℕ, Bool, true, false, Option, none, some, List, [], ◌∷◌, String, if◌then◌else◌, ◌≡◌,
}
use batch_scheduler.Base.Outcome.{Result, ok, err}
use batch_scheduler.Base.Dict.{Dict}
use batch_scheduler.Base.Int.{ℤ}
use batch_scheduler.Task.{Task, zero_task, uuid_nil}
use batch_scheduler.Task.Codec.{RawTask, Registry, marshal, unmarshal}
use batch_scheduler.Task.Codec
use batch_scheduler.Store.{MemoryStore}
use batch_scheduler.Store
use text.Mathlib.Text.{◌==◌}

pub data Doc : Type 0 where
  task : RawTask → Doc
  malformed : Doc

pub data Error : Type 0 where
  task_without_id : Error
  unreadable : Codec.Error → Error

-- `Put` stamps the caller's task with the time, also where a later step fails.
unfoldable pub put : ℤ → Task → MemoryStore Doc → Task × MemoryStore Doc × Option Error
put now t store =
    if t.id == uuid_nil
    then (t, store, some task_without_id)
    else let t' = record t { mtime = now } in (t', Store.put store t'.id (task (marshal t')), none)

unfoldable pub delete : MemoryStore Doc → String → MemoryStore Doc
delete store id = Store.delete store id

-- `Length`
unfoldable pub size : MemoryStore Doc → ℕ
size store = Store.size store

abbrev pub call_back :
    {S E : Type 0} → (Error → E) → (S → Task → S × Option E) → S → Result Error Task → S × Option E
call_back lift fn s (ok t) = fn s t
call_back lift fn s (err e) = (s, some (lift e))

module _ (reg : Registry) where
  unfoldable pub parse_task : Doc → Result Error Task
  parse_task (task raw) = elim (unmarshal reg zero_task raw) [
    | ok t ↦ ok t
    | err e ↦ err (unreadable e)
  ]
  parse_task malformed = err (unreadable Codec.Error.not_a_task)

  -- `Get`: a missing key is no error.
  unfoldable pub get : MemoryStore Doc → String → Result Error (Option Task)
  get store id = elim (Store.get store id) [
    | none ↦ ok none
    | some doc ↦ elim (parse_task doc) [ ok t ↦ ok (some t) | err e ↦ err e ]
  ]

  -- What `ForEach` does with one entry: a value that cannot be read ends the loop.
  unfoldable pub visit :
      {S E : Type 0} → (Error → E) → (S → Task → S × Option E) → S → String → Doc → S × Option E
  visit lift fn s k doc = call_back lift fn s (parse_task doc)

  -- `ForEach`
  unfoldable pub for_each :
      {S E : Type 0} → (Error → E) → (S → Task → S × Option E) → S → Dict Doc → S × Option E
  for_each lift fn s kv = Store.for_each (visit lift fn) s kv

  -- The clause that `DeleteWithClause` hands to the store; `none` is its panic.
  unfoldable pub clause : (Task → Bool) → Doc → Option Bool
  clause fn doc = elim (parse_task doc) [ ok t ↦ some (fn t) | err _ ↦ none ]

  -- The same as the store calls it; where every value can be read, the panic does not arise.
  abbrev pub store_clause : (Task → Bool) → String → Doc → Bool
  store_clause fn _ doc = elim (clause fn doc) [ some b ↦ b | none ↦ false ]

  -- Some value cannot be read, so that the clause panics when the loop reaches it.
  unfoldable pub has_unreadable : Dict Doc → Bool
  has_unreadable [] = false
  has_unreadable ((_, doc) ∷ kv) =
      let rest = has_unreadable kv in elim (parse_task doc) [ ok _ ↦ rest | err _ ↦ true ]

  -- `DeleteWithClause`; `none` is the panic.
  unfoldable pub delete_with_clause : (Task → Bool) → MemoryStore Doc → Option (MemoryStore Doc)
  delete_with_clause fn store =
      if has_unreadable store.kv
      then none
      else some (Store.delete_with_clause (store_clause fn) store)
