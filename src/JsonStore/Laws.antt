-- ===== src/JsonStore/Laws.antt =====
-- Reads after writes in the store of tasks, scheduler/store.go, and the loop over all tasks.
use batch_scheduler.Base.{
  Bool, Option, none, some, List, [], ◌∷◌, ◌++◌, String, if◌then◌else◌, ◌≡◌, sift, arith, ◌∙◌, sym,
  ◌≢◌, inl, inr, Bool-cases, ap,
}
use batch_scheduler.Base.Outcome.{ok, err, Result-cases}
use batch_scheduler.Base.Dict.{Dict}
use batch_scheduler.Base.Int.{ℤ}
use batch_scheduler.Task.{Task, uuid_nil}
use batch_scheduler.Task.Codec.{Registry, marshal, IsRegistered, unmarshal-marshal}
use batch_scheduler.Store.{MemoryStore}
use batch_scheduler.Store
use batch_scheduler.Store.Laws
use batch_scheduler.JsonStore.{
  Doc, task, Error, put, delete, get, parse_task, for_each, visit, call_back,
}
use batch_scheduler.JsonStore.Reading.{readable}
use mathlib.Core.List.{append-nil, append_assoc}
use text.Mathlib.Text.{◌==◌}
use text.Mathlib.TextEquality.{eq_iff}

module _ (reg : Registry) where
  restamped :
      (now : ℤ) (t : Task) → IsRegistered reg t → IsRegistered reg (record t { mtime = now })
  restamped now t h = record { with_action = h.with_action; with_run = h.with_run }

  -- `Put` of a task that has an id, and an action and a run of registered types, and then `Get`
  -- under the same id give the task back with the time of the write and without its `Cancel`; other
  -- ids are unaffected.
  pub get-put :
      (now : ℤ) (t : Task) (store : MemoryStore Doc) (j : String)
      → t.id ≢ uuid_nil
      → IsRegistered reg t
      → get reg (put now t store).1 j ≡ (
          if t.id == j
          then ok (some (record t { mtime = now; cancel = none }))
          else get reg store j)
  unfolding get put parse_task
  get-put now t store j named h = elim (Bool-cases (t.id == uuid_nil)) [
    | inl e ↦ absurd (named ((eq_iff _ _).0 e))
    | inr e ↦
        rw (e, put)
          (ground (
            arith,
            Laws.get-put store t.id j (task (marshal (record t { mtime = now }))),
            unmarshal-marshal reg (record t { mtime = now }) (restamped now t h),
          ))
  ]

  -- A task without an id is refused and the store is left as it was.
  pub put-nil :
      (now : ℤ) (t : Task) (store : MemoryStore Doc)
      → t.id ≡ uuid_nil
      → put now t store ≡ (t, store, some Error.task_without_id)
  unfolding put
  put-nil now t store e = ground (arith, eq_iff t.id uuid_nil)

  -- A task with an id is written without an error.
  pub put-named :
      (now : ℤ) (t : Task) (store : MemoryStore Doc) → t.id ≢ uuid_nil → (put now t store).2 ≡ none
  unfolding put
  put-named now t store named = ground (arith, eq_iff t.id uuid_nil)

  -- After `Delete` nothing is found under the id; other ids are unaffected.
  pub get-delete :
      (store : MemoryStore Doc) (k j : String)
      → get reg (delete store k) j ≡ (if k == j then ok none else get reg store j)
  unfolding get delete
  get-delete store k j = ground (arith, Laws.get-delete store k j)

  -- One round of the loop over all tasks.
  pub for_each-round :
      {S E : Type 0} (lift : Error → E) (fn : S → Task → S × Option E) (s : S) (k : String)
      (doc : Doc) (kv : Dict Doc) (t : Task)
      → parse_task reg doc ≡ ok t
      → for_each reg lift fn s ((k, doc) ∷ kv)
        ≡ Store.unless_failed (fn s t) (λ u. for_each reg lift fn u kv)
  unfolding for_each Store.for_each visit
  for_each-round lift fn s k doc kv t e =
      ap (λ r. Store.unless_failed (call_back lift fn s r) (λ u. for_each reg lift fn u kv)) e

  -- One round that the callback does not end.
  for_each-read :
      {S E : Type 0} (lift : Error → E) (fn : S → Task → S × Option E) (s s' : S) (k : String)
      (doc : Doc) (kv : Dict Doc) (t : Task)
      → parse_task reg doc ≡ ok t
      → fn s t ≡ (s', none)
      → for_each reg lift fn s ((k, doc) ∷ kv) ≡ for_each reg lift fn s' kv
  for_each-read lift fn s s' k doc kv t e h =
      for_each-round lift fn s k doc kv t e
      ∙ ap (λ r. Store.unless_failed r (λ u. for_each reg lift fn u kv)) h

  pub for_each-unread :
      {S E : Type 0} (lift : Error → E) (fn : S → Task → S × Option E) (s : S) (k : String)
      (doc : Doc) (kv : Dict Doc) (f : Error)
      → parse_task reg doc ≡ err f
      → for_each reg lift fn s ((k, doc) ∷ kv) ≡ (s, some (lift f))
  unfolding for_each Store.for_each visit
  for_each-unread lift fn s k doc kv f e =
      ap (λ r. Store.unless_failed (call_back lift fn s r) (λ u. for_each reg lift fn u kv)) e

  -- A loop that collects what passes a test collects the readable tasks that pass it.
  pub for_each-collect :
      {E : Type 0} (lift : Error → E) (keep : Task → Bool)
      (fn : List Task → Task → List Task × Option E)
      → ((ts : List Task) (t : Task) → fn ts t ≡ ((if keep t then ts ++ t ∷ [] else ts), none))
      → (kv : Dict Doc) (acc : List Task)
      → (for_each reg lift fn acc kv).0 ≡ acc ++ sift keep (readable reg kv)
  unfolding readable sift
  for_each-collect lift keep fn h [] acc = unfold for_each Store.for_each in sym (append-nil acc)
  for_each-collect lift keep fn h ((k, doc) ∷ kv) acc = elim (Result-cases (parse_task reg doc)) [
    | inl (t, e) ↦
        rw (for_each-read lift fn acc _ k doc kv t e (h acc t), e, readable)
          (elim (Bool-cases (keep t)) [
            | inl kept ↦
                rw (kept, sift)
                  (for_each-collect lift keep fn h kv (acc ++ t ∷ [])
                    ∙ append_assoc acc (t ∷ []) (sift keep (readable reg kv)))
            | inr dropped ↦ rw (dropped, sift) (for_each-collect lift keep fn h kv acc)
          ])
    | inr (f, e) ↦ rw (for_each-unread lift fn acc k doc kv f e, e, readable) (sym (append-nil acc))
  ]
