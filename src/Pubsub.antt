-- ===== src/Pubsub.antt =====
-- pubsub/pubsub.go: subscribers with buffered channels, and publishers that send to each in turn.
--
-- The calls of `Publish` that are under way hold the lock for reading, so that they are what keeps
-- `Subscribe` and the end of a subscription from the lock; a step is what happens between two points
-- at which a goroutine can wait. The event loops behind the channels are the steps `receives`.
pub mod Buffers
pub mod Blocked
use batch_scheduler.Base.{
  ℕ, suc, ◌+◌, ◌%◌, ◌^◌, Bool, true, false, Option, none, some, List, [], ◌∷◌, ◌++◌, map,
  if◌then◌else◌, ltb, ◌==◌, length, ◌≡◌,
}
use batch_scheduler.Base.Sort.{◌>>=◌}
use batch_scheduler.Base.Int.{ℤ, pos, ◌+ℤ◌, ◌-ℤ◌}
use batch_scheduler.Scheduler.{Event}
use batch_scheduler.Scheduler.Loop.{take_at}

-- What the channel of each subscriber holds, by the subscriber's id.
abbrev pub Subscribers : Type 0
Subscribers = List (ℕ × List Event)

-- A call of `Publish`, with the subscribers that it has not sent to yet.
pub record Publishing : Type 0 where
  pub event : Event
  pub remaining : List ℕ

-- `PubSub`: `wg` is the counter of the wait group.
pub record PubSub : Type 0 where
  pub cpt : ℕ
  pub subscribers : Subscribers
  pub wg : ℤ
  pub publishing : List Publishing

-- `NewPubSub`
abbrev pub new_pubsub : PubSub
new_pubsub = record { cpt = 0; subscribers = []; wg = pos 0; publishing = [] }

-- The capacity of a channel.
abbrev pub capacity : ℕ
capacity = 100

unfoldable pub buffer_of : ℕ → Subscribers → Option (List Event)
buffer_of id [] = none
buffer_of id ((j, b) ∷ subs) = let rest = buffer_of id subs in if j == id then some b else rest

-- `p.subscribers[id] = …`
unfoldable pub set_buffer : ℕ → List Event → Subscribers → Subscribers
set_buffer id b [] = (id, b) ∷ []
set_buffer id b ((j, c) ∷ subs) =
    let rest = set_buffer id b subs in if j == id then (id, b) ∷ subs else (j, c) ∷ rest

-- `delete(p.subscribers, id)`
unfoldable pub remove : ℕ → Subscribers → Subscribers
remove id [] = []
remove id ((j, b) ∷ subs) = let rest = remove id subs in if j == id then rest else (j, b) ∷ rest

-- `Subscribe`, once it has the lock.
unfoldable pub subscribe : PubSub → PubSub
subscribe p = record p {
  cpt = (p.cpt + 1) % 2 ^ 64;
  subscribers = set_buffer p.cpt [] p.subscribers;
  wg = p.wg +ℤ pos 1;
}

-- The end of the subscription in its goroutine, once that has the lock.
unfoldable pub close_subscription : ℕ → PubSub → PubSub
close_subscription id p = record p { subscribers = remove id p.subscribers; wg = p.wg -ℤ pos 1 }

-- `Publish` up to its loop.
unfoldable pub publish : Event → PubSub → PubSub
publish evt p = record p {
  publishing =
      record { event = evt; remaining = map (λ entry. entry.0) p.subscribers } ∷ p.publishing;
}

-- `c <- evt`: it waits while the channel is full, and for ever where there is none.
unfoldable pub append : Event → Option (List Event) → Option (List Event)
append evt none = none
append evt (some b) = if ltb (length b) capacity then some (b ++ evt ∷ []) else none

-- One round of the loop of a call.
abbrev pub send_next : Event → List ℕ → List Publishing → PubSub → Option PubSub
send_next evt [] others p = none
send_next evt (id ∷ ids) others p = do
  b ← append evt (buffer_of id p.subscribers)
  some (record p {
    subscribers = set_buffer id b p.subscribers;
    publishing = record { event = evt; remaining = ids } ∷ others;
  })

unfoldable pub send : ℕ → PubSub → Option PubSub
send i p = do (call, others) ← take_at i p.publishing; send_next call.event call.remaining others p

-- The return of a call that has sent to all.
abbrev pub return_from : List ℕ → List Publishing → PubSub → Option PubSub
return_from [] others p = some (record p { publishing = others })
return_from (_ ∷ _) others p = none

unfoldable pub finish : ℕ → PubSub → Option PubSub
finish i p = do (call, others) ← take_at i p.publishing; return_from call.remaining others p

-- A receive of the subscriber.
abbrev pub receive_from : ℕ → Option (List Event) → PubSub → Option PubSub
receive_from id none p = none
receive_from id (some []) p = none
receive_from id (some (_ ∷ b)) p = some (record p { subscribers = set_buffer id b p.subscribers })

unfoldable pub receive : ℕ → PubSub → Option PubSub
receive id p = receive_from id (buffer_of id p.subscribers) p

-- A step of one of the goroutines. The lock is free for writing where no call of `Publish` is under
-- way.
pub data Step : PubSub → PubSub → Type 0 where
  subscribes : {p : PubSub} → p.publishing ≡ [] → Step p (subscribe p)
  closes : {p : PubSub} (id : ℕ) → p.publishing ≡ [] → Step p (close_subscription id p)
  publishes : {p : PubSub} (evt : Event) → Step p (publish evt p)
  sends : {p q : PubSub} (i : ℕ) → send i p ≡ some q → Step p q
  returns : {p q : PubSub} (i : ℕ) → finish i p ≡ some q → Step p q
  receives : {p q : PubSub} (id : ℕ) → receive id p ≡ some q → Step p q

-- The states that steps lead to.
pub data Reach (p : PubSub) : PubSub → Type 0 where
  here : Reach p p
  later : {q r : PubSub} → Reach p q → Step q r → Reach p r
