-- ===== src/Pubsub/Buffers.antt =====
-- pubsub/pubsub.go: what a write to one channel does to the others.
use batch_scheduler.Base.{ℕ, some, List, [], ◌∷◌, ◌==◌, if◌then◌else◌, ◌≡◌, refl, arith}
use batch_scheduler.Scheduler.{Event}
use batch_scheduler.Pubsub.{Subscribers, buffer_of, set_buffer}

pub buffer_of-set_buffer :
    (id j : ℕ) (b : List Event) (subs : Subscribers)
    → buffer_of j (set_buffer id b subs) ≡ (if id == j then some b else buffer_of j subs)
unfolding buffer_of set_buffer
buffer_of-set_buffer id j b [] = refl
buffer_of-set_buffer id j b ((k, c) ∷ subs) = ground (arith, buffer_of-set_buffer id j b subs)
