-- ===== src/JsonStore/Reading.antt =====
-- What the store of tasks gives back: reads after writes, and the loop over all tasks.
use batch_scheduler.Base.{
  Bool, Option, none, some, List, [], ◌∷◌, String, ◌≡◌, All, arith, Bool-cases, inl, inr, subst,
  Option-cases,
}
use batch_scheduler.Base.Outcome.{Result, ok, err, >>=-eq-ok, Result-cases}
use batch_scheduler.Base.Dict.{Dict, All-insert, All-erase}
use batch_scheduler.Base.Dict
use batch_scheduler.Base.Int.{ℤ, pos, ◌<ℤ◌}
use batch_scheduler.Task.{Task, zero_task, uuid_nil}
use batch_scheduler.Task.Codec.{
  RawTask, Registry, marshal, unmarshal, unmarshal_action, unmarshal_run,
}
use batch_scheduler.Store.{MemoryStore}
use batch_scheduler.Store
use batch_scheduler.Base.Sort.{Holds}
use batch_scheduler.JsonStore.{
  Doc, task, malformed, Error, put, delete, get, parse_task, delete_with_clause, has_unreadable,
  store_clause,
}
use text.Mathlib.Text.{◌==◌}

-- A task that can be scheduled: it asks for some of each resource, and for some time.
pub record IsSound (t : Task) : Type 0 where
  pub needs_cpu : pos 0 <ℤ t.cpu
  pub needs_ram : pos 0 <ℤ t.ram
  pub needs_time : pos 0 <ℤ t.max_exection_time

-- A stored value that encodes such a task, if it encodes a task.
abbrev pub IsSoundDoc : String × Doc → Type 0
IsSoundDoc (k, task raw) =
    (pos 0 <ℤ raw.cpu) × (pos 0 <ℤ raw.ram) × (pos 0 <ℤ raw.max_exection_time)
IsSoundDoc (k, malformed) = Unit

pub put-IsSound :
    (now : ℤ) (t : Task) (store : MemoryStore Doc)
    → IsSound t
    → All IsSoundDoc store.kv
    → All IsSoundDoc (put now t store).1.kv × IsSound (put now t store).0
unfolding put Store.put marshal
put-IsSound now t store h all = elim (Bool-cases (t.id == uuid_nil)) [
  | inl e ↦ rw (e, put) (all, h)
  | inr e ↦
      rw (e, put)
        (
          All-insert IsSoundDoc t.id (task (marshal (record t { mtime = now }))) store.kv
              (h.needs_cpu, h.needs_ram, h.needs_time) all,
          record { needs_cpu = h.needs_cpu; needs_ram = h.needs_ram; needs_time = h.needs_time },
        )
]

pub delete-IsSound :
    (store : MemoryStore Doc) (id : String)
    → All IsSoundDoc store.kv
    → All IsSoundDoc (delete store id).kv
unfolding delete Store.delete
delete-IsSound store id all = All-erase IsSoundDoc id store.kv all

delete_all-IsSound :
    (ks : List String) (kv : Dict Doc) → All IsSoundDoc kv → All IsSoundDoc (Store.delete_all ks kv)
unfolding Store.delete_all
delete_all-IsSound [] kv h = h
delete_all-IsSound (k ∷ ks) kv h = delete_all-IsSound ks _ (All-erase IsSoundDoc k kv h)

module _ (reg : Registry) where
  -- The tasks of the stored values, in their order, up to the first that cannot be read.
  unfoldable pub readable : Dict Doc → List Task
  readable [] = []
  readable ((_, doc) ∷ kv) =
      let rest = readable kv in elim (parse_task reg doc) [ ok t ↦ t ∷ rest | err _ ↦ [] ]

  unmarshal_keeps :
      (raw : RawTask) (t : Task)
      → unmarshal reg zero_task raw ≡ ok t
      → (t.cpu ≡ raw.cpu) × (t.ram ≡ raw.ram) × (t.max_exection_time ≡ raw.max_exection_time)
  unfolding unmarshal
  unmarshal_keeps raw t e =
      let (a, _, e1) = >>=-eq-ok (unmarshal_action reg raw.action) _ e in
      let (r, _, e2) = >>=-eq-ok (unmarshal_run reg none raw.run) _ e1 in
      (ground arith, ground arith, ground arith)

  -- A task that is read keeps the demands that are written.
  pub parse_task-IsSound :
      (k : String) (doc : Doc) (t : Task)
      → IsSoundDoc (k, doc)
      → parse_task reg doc ≡ ok t
      → IsSound t
  unfolding parse_task
  parse_task-IsSound k (task raw) t h e = elim (Result-cases (unmarshal reg zero_task raw)) [
    | inl (u, eu) ↦
        let (e1, e2, e3) = unmarshal_keeps raw u eu in
        let same : u ≡ t = ground arith in
        subst IsSound same
          (record { needs_cpu = rw e1 h.0; needs_ram = rw e2 h.1; needs_time = rw e3 h.2 })
    | inr (f, ef) ↦ absurd (ground arith)
  ]
  parse_task-IsSound k malformed t h e = cc

  pub readable-IsSound : (kv : Dict Doc) → All IsSoundDoc kv → All IsSound (readable kv)
  unfolding readable
  readable-IsSound [] h = tt
  readable-IsSound ((k, doc) ∷ kv) h = elim (Result-cases (parse_task reg doc)) [
    | inl (t, e) ↦ rw (e, readable) (parse_task-IsSound k doc t h.0 e, readable-IsSound kv h.1)
    | inr (_, e) ↦ rw (e, readable) tt
  ]

  pub get-IsSound :
      (store : MemoryStore Doc) (id : String) (t : Task)
      → All IsSoundDoc store.kv
      → get reg store id ≡ ok (some t)
      → IsSound t
  unfolding get Store.get
  get-IsSound store id t h e = elim (Option-cases (Dict.lookup id store.kv)) [
    | inl missing ↦ absurd (not_found (rw (missing, get) at e))
    | inr (doc, found) ↦ elim (Result-cases (parse_task reg doc)) [
      | inl (u, read) ↦
          let same : u ≡ t = ground (arith, found, read, e) in
          subst IsSound same
            (parse_task-IsSound id doc u (Dict.All-lookup IsSoundDoc id store.kv doc h found) read)
      | inr (f, unread) ↦ absurd (ground (arith, found, unread, e))
    ]
  ]
    where
      not_found : ◌≡◌ {A = Result Error (Option Task)} (ok none) (ok (some t)) → ⊥
      not_found e = cc

  pub delete_with_clause-IsSound :
      (fn : Task → Bool) (store : MemoryStore Doc)
      → All IsSoundDoc store.kv
      → Holds (λ u. All IsSoundDoc u.kv) (delete_with_clause reg fn store)
  unfolding delete_with_clause Store.delete_with_clause
  delete_with_clause-IsSound fn store h = elim (Bool-cases (has_unreadable reg store.kv)) [
    | inl unread ↦ rw (unread, delete_with_clause) tt
    | inr read ↦
        rw (read, delete_with_clause)
          (delete_all-IsSound (Store.todos (store_clause reg fn) store.kv) store.kv h)
  ]
