-- ===== src/BoltStore/Refines.antt =====
-- store/bbolt.go against store/memory.go: both keep the promise of the interface in store/store.go.
use batch_scheduler.Base.{
  String, Option, none, some, List, [], ◌∷◌, if◌then◌else◌, ◌≡◌, ◌≢◌, refl, ap, All, Bool-cases,
  inl, inr,
}
use batch_scheduler.Base.Outcome.{Result, ok, err}
use batch_scheduler.BoltStore.{Bytes, Bucket, BoltStore, Error, copied, put, get, delete}
use batch_scheduler.Store.{MemoryStore}
use batch_scheduler.Store
use batch_scheduler.Store.Laws.{get-put, get-delete}
use text.Mathlib.Text.{◌==◌}

-- A call of the interface, and its answer.
pub data Call : Type 0 where
  puts : String → Bytes → Call
  gets deletes : String → Call

pub data Answer : Type 0 where
  done : Answer
  value : Option Bytes → Answer
  failed : Error → Answer

-- The calls of a client of the memory store, one after the other.
unfoldable pub on_memory : List Call → MemoryStore Bytes → List Answer
on_memory [] m = []
on_memory (puts k v ∷ calls) m = done ∷ on_memory calls (Store.put m k v)
on_memory (gets k ∷ calls) m = value (Store.get m k) ∷ on_memory calls m
on_memory (deletes k ∷ calls) m = done ∷ on_memory calls (Store.delete m k)

abbrev pub answer : Option Error → Answer
answer none = done
answer (some e) = failed e

abbrev pub answer_get : Result Error (Option Bytes) → Answer
answer_get (err e) = failed e
answer_get (ok v) = value v

module _ {B : Type 0} (bolt : Bucket B) where
  -- The same for the store on disk.
  unfoldable pub on_bolt : List Call → BoltStore B → List Answer
  on_bolt [] s = []
  on_bolt (puts k v ∷ calls) s = let (s', e) = put bolt k v s in answer e ∷ on_bolt calls s'
  on_bolt (gets k ∷ calls) s = answer_get (get bolt k s) ∷ on_bolt calls s
  on_bolt (deletes k ∷ calls) s = let (s', e) = delete bolt k s in answer e ∷ on_bolt calls s'

  -- The bucket holds what the memory store holds, as far as `Get` shows it.
  abbrev pub Represents : B → MemoryStore Bytes → Type 0
  Represents b m = (k : String) → copied bolt (bolt.get b k) ≡ Store.get m k

  -- A call that the database accepts and that writes no empty value.
  abbrev pub IsFine : (String → Bytes → Type 0) → Call → Type 0
  IsFine Accepts (puts k v) = Accepts k v × (v ≢ [])
  IsFine Accepts (gets k) = Unit
  IsFine Accepts (deletes k) = Unit

  -- What the database documents of `Put` and `Delete`.
  abbrev pub Puts : (String → Bytes → Type 0) → Type 0
  Puts Accepts =
      (b : B) (k : String) (v : Bytes)
      → Accepts k v
      → (b' : B) × (bolt.put b k v ≡ some b')
        × ((j : String) → bolt.get b' j ≡ (if k == j then some v else bolt.get b j))

  abbrev pub Deletes : Type 0
  Deletes =
      (b : B) (k : String)
      → (b' : B) × (bolt.delete b k ≡ some b')
        × ((j : String) → bolt.get b' j ≡ (if k == j then none else bolt.get b j))

  copied_full : (v : Bytes) → v ≢ [] → copied bolt (some v) ≡ some v
  copied_full [] h = absurd (h refl)
  copied_full (b ∷ v) h = refl

  put-Represents :
      (b b' : B) (m : MemoryStore Bytes) (k : String) (v : Bytes)
      → ((j : String) → bolt.get b' j ≡ (if k == j then some v else bolt.get b j))
      → v ≢ []
      → Represents b m
      → Represents b' (Store.put m k v)
  put-Represents b b' m k v law full h j = elim (Bool-cases (k == j)) [
    | inl same ↦ rw (law j, get-put m k j v, same) (copied_full v full)
    | inr other ↦ rw (law j, get-put m k j v, other) (h j)
  ]

  delete-Represents :
      (b b' : B) (m : MemoryStore Bytes) (k : String)
      → ((j : String) → bolt.get b' j ≡ (if k == j then none else bolt.get b j))
      → Represents b m
      → Represents b' (Store.delete m k)
  delete-Represents b b' m k law h j = elim (Bool-cases (k == j)) [
    | inl same ↦ rw (law j, get-delete m k j, same) refl
    | inr other ↦ rw (law j, get-delete m k j, other) (h j)
  ]

  -- On a store whose bucket is there and holds what a memory store holds, any calls of `Put`, `Get`
  -- and `Delete`, one after the other, give the same answers as on the memory store, where the
  -- database accepts each key and value that is put and no value is empty.
  pub on_bolt-eq-on_memory :
      (Accepts : String → Bytes → Type 0)
      → Puts Accepts
      → Deletes
      → (calls : List Call) (b : B) (m : MemoryStore Bytes) → All (IsFine Accepts) calls
      → Represents b m
      → on_bolt calls (record { bucket = some b }) ≡ on_memory calls m
  unfolding on_bolt on_memory put get delete
  on_bolt-eq-on_memory Accepts law law' [] b m fine h = refl
  on_bolt-eq-on_memory Accepts law law' (puts k v ∷ calls) b m ((accepted, full), fine) h =
      let (b', e, reads) = law b k v accepted in
      rw e (
        ap (λ l. done ∷ l)
          (on_bolt-eq-on_memory Accepts law law' calls b' (Store.put m k v) fine
            (put-Represents b b' m k v reads full h)))
  on_bolt-eq-on_memory Accepts law law' (gets k ∷ calls) b m (_, fine) h =
      rw (h k) (
        ap (λ l. value (Store.get m k) ∷ l)
          (on_bolt-eq-on_memory Accepts law law' calls b m fine h))
  on_bolt-eq-on_memory Accepts law law' (deletes k ∷ calls) b m (_, fine) h =
      let (b', e, reads) = law' b k in
      rw e (
        ap (λ l. done ∷ l)
          (on_bolt-eq-on_memory Accepts law law' calls b' (Store.delete m k) fine
            (delete-Represents b b' m k reads h)))
