-- ===== src/Samples/Networks.antt =====
-- Networks of 256 addresses.
use batch_scheduler.Base.{
  ℕ, Option, none, some, List, [], ◌∷◌, ◌≡◌, ◌≢◌, ◌≤◌, ◌⊎◌, refl, String, Bool, true, false, All,
  arith, subst, sift,
}
use batch_scheduler.Base.Int.{pos, ◌<ℤ◌}
use batch_scheduler.Base.Outcome.{ok, Result}
use batch_scheduler.Base.Sort.{KeyLe}
use batch_scheduler.Base.{◌↔◌, Option-cases, inl, inr, sym, ◌∙◌, if◌then◌else◌}
use batch_scheduler.Base.Int.{◌≤ℤ◌}
use batch_scheduler.Network.{IpNet, next_available_network}
use batch_scheduler.Network
use batch_scheduler.Network.Blocks.{block, IsFree}
use batch_scheduler.Network.Available.{next_available_network-IsFree}

abbrev taken : List IpNet
taken = block 24 2 ∷ block 24 4 ∷ block 24 1 ∷ []

abbrev limit : IpNet
limit = record { ip = 1280; ones = 24; mapped = none }

next_available_network-IsFree_example :
    (r : Result Network.Error IpNet) × (next_available_network taken (block 24 1) limit 24 ≡ some r)
    × IsFree 24 1 (1 ∷ 2 ∷ 4 ∷ []) r
unfolding batch_scheduler.Base.Sort.sort Network.by_network
next_available_network-IsFree_example =
    next_available_network-IsFree taken limit 24 1 1 (2 ∷ 4 ∷ []) refl
      (omega arith, (omega arith, (omega arith, tt)))
      (omega arith, (omega arith, (omega arith, tt))) (omega arith)

free_between : next_available_network taken (block 24 1) limit 24 ≡ some (ok (block 24 3))
unfolding next_available_network batch_scheduler.Base.Sort.sort Network.by_network Network.int_pow
    Network.distance batch_scheduler.Base.Int.◌-ℤ◌ Network.last Network.search Network.net_distance
    Network.first_last Network.next_net
free_between = refl

-- A larger network that covers the first candidates takes the search out of the list.
covered :
    next_available_network
      (record { ip = 0; ones = 16; mapped = none } ∷ [])
      (block 24 0)
      (record { ip = 65536; ones = 16; mapped = none })
      24
    ≡ none
unfolding next_available_network batch_scheduler.Base.Sort.sort Network.int_pow Network.distance
    batch_scheduler.Base.Int.◌-ℤ◌ Network.last Network.search Network.net_distance
    Network.first_last
covered = refl
