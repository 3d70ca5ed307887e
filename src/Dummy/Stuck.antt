-- ===== src/Dummy/Stuck.antt =====
-- task/dummy.go: an action that has run before ends no more.
use batch_scheduler.Base.{
  ℕ, ◌<◌, Option, none, some, List, [], ◌∷◌, ◌++◌, ◌==◌, ◌≡◌, refl, arith, All, Bool-cases, inl,
  inr, subst, false,
}
use batch_scheduler.Base.Sort.{Holds, Holds-bind, ◌>>=◌, Holds-self}
use batch_scheduler.Dummy.{
  DummyAction, Sender, asleep, sending, up, start_wait, wake, range, without, send, send_next,
  finish, finish_sender, give_up, Step, ups, waits, wakes, sends, finishes, gives_up, Reach, here,
  later,
}
use batch_scheduler.Scheduler.Loop.{take_at}
use batch_scheduler.Scheduler.Accounts.{All-take_at}

-- The goroutine has yet to send to a channel, before all others.
abbrev pub AwaitsFirst : ℕ → Sender → Type 0
AwaitsFirst c asleep = Unit
AwaitsFirst c (sending cs) = (rest : List ℕ) × (cs ≡ c ∷ rest)

-- The action's first waiter is gone: nobody receives from its channel, and every goroutine has yet
-- to send to it before it sends to another.
pub record IsStuck (c : ℕ) (da : DummyAction) : Type 0 where
  pub first : (rest : List ℕ) × (da.waiters ≡ c ∷ rest)
  pub gone : All (λ d. (d == c) ≡ false) da.receiving
  pub old : c < da.fresh
  pub senders : All (AwaitsFirst c) da.senders

without-gone : (c : ℕ) (ds : List ℕ) → All (λ d. (d == c) ≡ false) ds → without c ds ≡ none
unfolding without
without-gone c [] h = refl
without-gone c (d ∷ ds) h = rw (h.0, without) (rw (without-gone c ds h.1) refl)

All-without : (P : ℕ → Type 0) (c : ℕ) (ds : List ℕ) → All P ds → Holds (All P) (without c ds)
unfolding without
All-without P c [] h = tt
All-without P c (d ∷ ds) h = elim (Bool-cases (d == c)) [
  | inl hit ↦ rw (hit, without) h.1
  | inr miss ↦
      rw (miss, without)
        (Holds-bind (All P) (All P) (without c ds) _ (All-without P c ds h.1) (λ es k. (h.0, k)))
]

taken :
    (c i : ℕ) (da : DummyAction)
    → IsStuck c da
    → Holds (λ r. AwaitsFirst c r.0 × All (AwaitsFirst c) r.1) (take_at i da.senders)
taken c i da h =
    Holds-self (take_at i da.senders)
      (λ r e. All-take_at (AwaitsFirst c) i da.senders r.0 r.1 e h.senders)

-- No goroutine can send.
pub send-eq-none : (c i : ℕ) (da : DummyAction) → IsStuck c da → send i da ≡ none
unfolding send
send-eq-none c i da h = blocked (take_at i da.senders) (taken c i da h)
  where
    blocked :
        (o : Option (Sender × List Sender))
        → Holds (λ r. AwaitsFirst c r.0 × All (AwaitsFirst c) r.1) o
        → (o >>= λ found. send_next found da) ≡ none
    blocked none k = refl
    blocked (some (asleep, others)) k = refl
    blocked (some (sending [], others)) k = refl
    blocked (some (sending (d ∷ ds), others)) ((rest, e), k) =
        let same : d ≡ c = ground (arith, e) in rw (same, without-gone c da.receiving h.gone) refl

range-IsStuck :
    (c : ℕ) (da : DummyAction) (r : Sender × List Sender)
    → IsStuck c da
    → AwaitsFirst c r.0 × All (AwaitsFirst c) r.1
    → Holds (IsStuck c) (range r da)
range-IsStuck c da (asleep, others) h k = record {
  first = h.first;
  gone = h.gone;
  old = h.old;
  senders = (h.first, k.1);
}
range-IsStuck c da (sending cs, others) h k = tt

finish-IsStuck :
    (c : ℕ) (da : DummyAction) (r : Sender × List Sender)
    → IsStuck c da
    → AwaitsFirst c r.0 × All (AwaitsFirst c) r.1
    → Holds (IsStuck c) (finish_sender r da)
finish-IsStuck c da (asleep, others) h k = tt
finish-IsStuck c da (sending (d ∷ ds), others) h k = tt
finish-IsStuck c da (sending [], others) h ((rest, e), k) = cc

Step-IsStuck : {p q : DummyAction} (c : ℕ) → Step p q → IsStuck c p → IsStuck c q
unfolding up start_wait wake finish give_up
Step-IsStuck c ups h = record {
  first = h.first;
  gone = h.gone;
  old = h.old;
  senders = (tt, h.senders);
}
Step-IsStuck {p} c waits h =
    let (rest, e) = h.first in
    record {
      first = (rest ++ p.fresh ∷ [], rw (e) refl);
      gone = (let o = h.old in ground arith, h.gone);
      old = let o = h.old in omega arith;
      senders = h.senders;
    }
Step-IsStuck {p} c (wakes i e) h = subst (Holds (IsStuck c)) e (
    Holds-bind _ (IsStuck c) (take_at i p.senders) _ (taken c i p h)
      (λ r k. range-IsStuck c p r h k))
Step-IsStuck {p} c (sends i e) h = absurd (ground (arith, send-eq-none c i p h, e))
Step-IsStuck {p} c (finishes i e) h = subst (Holds (IsStuck c)) e (
    Holds-bind _ (IsStuck c) (take_at i p.senders) _ (taken c i p h)
      (λ r k. finish-IsStuck c p r h k))
Step-IsStuck {p} c (gives_up d why e) h = subst (Holds (IsStuck c)) e (
    Holds-bind (All (λ d. (d == c) ≡ false)) (IsStuck c) (without d p.receiving) _
      (All-without _ d p.receiving h.gone)
      (λ rest k. record { first = h.first; gone = k; old = h.old; senders = h.senders }))

-- The first call of `Wait` on an action has ended, and every goroutine of the action that is about to
-- send has yet to send to this call first. Then, whatever is started and waited for later, no
-- goroutine ever sends again, so that every later call of `Wait` ends by its context only.
pub Reach-IsStuck :
    (c : ℕ) {p q : DummyAction}
    → IsStuck c p
    → Reach p q
    → IsStuck c q × ((i : ℕ) → send i q ≡ none)
Reach-IsStuck c {p} h here = (h, λ i. send-eq-none c i p h)
Reach-IsStuck c {p} {q} h (later r s) =
    let stuck = Step-IsStuck c s (Reach-IsStuck c h r).0 in (stuck, λ i. send-eq-none c i q stuck)
