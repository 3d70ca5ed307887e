-- ===== src/Pubsub/Blocked.antt =====
-- pubsub/pubsub.go: a subscriber that reads no more holds up everybody.
use batch_scheduler.Base.{
  ℕ, zero, suc, false, Option, none, some, List, [], ◌∷◌, ◌==◌, length, ◌≡◌, ◌≢◌, ◌⊎◌, inl, inr,
  refl, ap, ◌∙◌, subst, arith,
}
use batch_scheduler.Base.Sort.{Holds, Holds-bind, Holds-bind_eq}
use batch_scheduler.Pubsub.Buffers.{buffer_of-set_buffer}
use native.Mathlib.Decide.{ℕ_discrete}
use batch_scheduler.Scheduler.{Event}
use batch_scheduler.Scheduler.Loop.{take_at}
use batch_scheduler.Pubsub.{
  PubSub, Publishing, Subscribers, Step, subscribes, closes, publishes, sends, returns, receives,
  buffer_of, set_buffer, send, send_next, finish, return_from, receive, receive_from, publish,
  append, capacity,
}

-- Some entry of the list has the property.
abbrev pub Some {ℓ} : {A : Type ℓ} → (A → Type 0) → List A → Type 0
Some P [] = ⊥
Some P (x ∷ xs) = P x ⊎ Some P xs

take_at-Some {ℓ} :
    {A : Type ℓ} (P : A → Type 0) (i : ℕ) (xs : List A)
    → Some P xs
    → Holds (λ r. P r.0 ⊎ Some P r.1) (take_at i xs)
unfolding take_at
take_at-Some P i [] h = tt
take_at-Some P zero (x ∷ xs) h = h
take_at-Some P (suc i) (x ∷ xs) (inl hit) =
    Holds-bind_eq (λ r. P r.0 ⊎ Some P r.1) (take_at i xs) _ (λ r _. inr (inl hit))
take_at-Some P (suc i) (x ∷ xs) (inr there) =
    Holds-bind (λ r. P r.0 ⊎ Some P r.1) (λ r. P r.0 ⊎ Some P r.1) (take_at i xs) _
      (take_at-Some P i xs there)
      (λ r found. elim found [ inl first ↦ inl first | inr rest ↦ inr (inr rest) ])

-- The channel of the subscriber is full.
abbrev pub IsFull : ℕ → Option (List Event) → Type 0
IsFull id none = ⊥
IsFull id (some b) = length b ≡ capacity

-- A call sends next to the subscriber.
abbrev pub WaitsFor : ℕ → Publishing → Type 0
WaitsFor id call = (ids : List ℕ) × (call.remaining ≡ id ∷ ids)

-- A call waits for a subscriber whose channel is full.
abbrev pub IsHeld : ℕ → PubSub → Type 0
IsHeld id p = Some (WaitsFor id) p.publishing × IsFull id (buffer_of id p.subscribers)

-- A step in which the subscriber receives nothing.
abbrev pub IsQuiet : {p q : PubSub} → ℕ → Step p q → Type 0
IsQuiet id (subscribes free) = Unit
IsQuiet id (closes j free) = Unit
IsQuiet id (publishes evt) = Unit
IsQuiet id (sends i e) = Unit
IsQuiet id (returns i e) = Unit
IsQuiet id (receives j e) = j ≢ id

-- Steps in which the subscriber receives nothing.
pub data ReachQuiet (id : ℕ) (p : PubSub) : PubSub → Type 0 where
  start : ReachQuiet id p p
  next : {q r : PubSub} → ReachQuiet id p q → (s : Step q r) → IsQuiet id s → ReachQuiet id p r

append-IsFull : (id : ℕ) (evt : Event) (o : Option (List Event)) → IsFull id o → append evt o ≡ none
unfolding append
append-IsFull id evt none h = refl
append-IsFull id evt (some b) h = ground (arith, h)

-- A write to another channel leaves the channel full.
other-IsFull :
    (id j : ℕ) (b : List Event) (subs : Subscribers)
    → j ≢ id
    → IsFull id (buffer_of id subs)
    → IsFull id (buffer_of id (set_buffer j b subs))
other-IsFull id j b subs differs h =
    let apart : (j == id) ≡ false = ground (arith, differs) in
    rw (buffer_of-set_buffer j id b subs, apart) h

send_next-IsHeld :
    (id : ℕ) (call : Publishing) (ids : List ℕ) (others : List Publishing) (p : PubSub)
    → call.remaining ≡ ids
    → WaitsFor id call ⊎ Some (WaitsFor id) others
    → IsFull id (buffer_of id p.subscribers)
    → Holds (IsHeld id) (send_next call.event ids others p)
send_next-IsHeld id call [] others p e h full = tt
send_next-IsHeld id call (j ∷ ids) others p e h full = elim (ℕ_discrete j id) [
  | yes same ↦
      let refused : append call.event (buffer_of j p.subscribers) ≡ none =
        ap (λ k. append call.event (buffer_of k p.subscribers)) same
        ∙ append-IsFull id call.event (buffer_of id p.subscribers) full in
      rw refused tt
  | no differs ↦ Holds-bind_eq (IsHeld id) (append call.event (buffer_of j p.subscribers)) _ (λ b _.
      (
        elim h [
          | inl (ids', waits) ↦ absurd (differs (ground (arith, e, waits)))
          | inr rest ↦ inr rest
        ],
        other-IsFull id j b p.subscribers differs full,
      ))
]

return_from-IsHeld :
    (id : ℕ) (call : Publishing) (ids : List ℕ) (others : List Publishing) (p : PubSub)
    → call.remaining ≡ ids
    → WaitsFor id call ⊎ Some (WaitsFor id) others
    → IsFull id (buffer_of id p.subscribers)
    → Holds (IsHeld id) (return_from ids others p)
return_from-IsHeld id call (j ∷ ids) others p e h full = tt
return_from-IsHeld id call [] others p e (inl (ids', waits)) full =
    absurd (ground (arith, e, waits))
return_from-IsHeld id call [] others p e (inr rest) full = (rest, full)

receive_from-IsHeld :
    (id j : ℕ) (o : Option (List Event)) (p : PubSub)
    → j ≢ id
    → IsHeld id p
    → Holds (IsHeld id) (receive_from j o p)
receive_from-IsHeld id j none p differs h = tt
receive_from-IsHeld id j (some []) p differs h = tt
receive_from-IsHeld id j (some (evt ∷ b)) p differs (waits, full) =
    (waits, other-IsFull id j b p.subscribers differs full)

-- Nothing has the lock for writing while a call is held.
not_free : (p : PubSub) (id : ℕ) → Some (WaitsFor id) p.publishing → p.publishing ≢ []
not_free p id h e = subst (Some (WaitsFor id)) e h

Step-IsHeld : {p q : PubSub} (id : ℕ) (s : Step p q) → IsQuiet id s → IsHeld id p → IsHeld id q
unfolding publish send finish receive
Step-IsHeld {p} id (subscribes free) quiet h = absurd (not_free p id h.0 free)
Step-IsHeld {p} id (closes j free) quiet h = absurd (not_free p id h.0 free)
Step-IsHeld id (publishes evt) quiet h = (inr h.0, h.1)
Step-IsHeld {p} id (sends i e) quiet h = subst (Holds (IsHeld id)) e (
    Holds-bind (λ r. WaitsFor id r.0 ⊎ Some (WaitsFor id) r.1) (IsHeld id) (take_at i p.publishing)
      _ (take_at-Some (WaitsFor id) i p.publishing h.0)
      (λ r found. send_next-IsHeld id r.0 r.0.remaining r.1 p refl found h.1))
Step-IsHeld {p} id (returns i e) quiet h = subst (Holds (IsHeld id)) e (
    Holds-bind (λ r. WaitsFor id r.0 ⊎ Some (WaitsFor id) r.1) (IsHeld id) (take_at i p.publishing)
      _ (take_at-Some (WaitsFor id) i p.publishing h.0)
      (λ r found. return_from-IsHeld id r.0 r.0.remaining r.1 p refl found h.1))
Step-IsHeld {p} id (receives j e) quiet h =
    subst (Holds (IsHeld id)) e (receive_from-IsHeld id j (buffer_of j p.subscribers) p quiet h)

-- A call of `Publish` waits for a subscriber whose channel is full. As long as this subscriber
-- receives nothing, whatever the other goroutines do, a call is still under way, so that no
-- subscription can be opened or closed, that of this subscriber included.
pub ReachQuiet-IsHeld :
    (id : ℕ) {p q : PubSub} → IsHeld id p → ReachQuiet id p q → IsHeld id q × (q.publishing ≢ [])
ReachQuiet-IsHeld id {p} h start = (h, not_free p id h.0)
ReachQuiet-IsHeld id {p} {q} h (next r s quiet) =
    let held = Step-IsHeld id s quiet (ReachQuiet-IsHeld id h r).0 in (held, not_free q id held.0)
