-- ===== src/ProjectNetworks/Lowest.antt =====
-- compose/network.go: the subnet that `New` asks for.
use batch_scheduler.Base.{
  ℕ, suc, ◌-◌, ◌≤◌, String, true, false, none, some, List, [], ◌∷◌, ◌≡◌, refl, arith, All,
}
use batch_scheduler.Base.Outcome.{ok, err}
use batch_scheduler.Base.Int.{pos, ltb_ℤ, leb_ℤ, ◌-ℤ◌}
use batch_scheduler.Base.Sort.{sort_total, All-sort, HasKeys}
use batch_scheduler.Network.{
  IpNet, last, distance, net_distance, first_last, int_pow, search, search_sorted, final,
  by_network, to4, next_available_network,
}
use batch_scheduler.ProjectNetworks.{
  Daemon, new_networks, cannot_add, by_label, subnet_from_docker, add_network, new,
}
use native.Mathlib.Nat.{one-le-pow, mod-lt}

-- A network outside the first two blocks of 256 addresses, as every network in use is.
abbrev pub IsUsual : IpNet → Type 0
IsUsual n = 512 ≤ n.ip

last-le : (n : IpNet) → n.ip ≤ last n
unfolding last
last-le n =
    let below = mod-lt n.ip (one-le-pow (32 - n.ones) 2 (omega arith)) in ground (arith, below)

lowest_last : last new_networks.min ≡ 255
unfolding last
lowest_last = refl

far_away : (b : IpNet) → IsUsual b → net_distance new_networks.min b ≡ pos (last b - 255)
unfolding net_distance first_last
far_away b h = let above = last-le b in rw lowest_last (ground (arith, above, h))

search_lowest :
    (b : IpNet) (bs : List IpNet)
    → IsUsual b
    → search new_networks.max 24 (pos 256) new_networks.min (b ∷ bs) ≡ some (ok new_networks.min)
unfolding search
search_lowest b bs h =
    let above = last-le b in
    let positive : ltb_ℤ (pos (last b - 255)) (pos 0) ≡ false = ground arith in
    let far : leb_ℤ (pos 256) (pos (last b - 255)) ≡ true = ground (arith, above, h) in
    rw (far_away b h, positive, far) refl

final-IsUsual : (b : IpNet) (bs : List IpNet) → All IsUsual (b ∷ bs) → IsUsual (final b bs)
final-IsUsual b [] h = h.0
final-IsUsual b (c ∷ cs) h = final-IsUsual c cs h.1

sorted_lowest :
    (networks : List IpNet)
    → All IsUsual networks
    → search_sorted networks new_networks.min new_networks.max 24 ≡ some (ok new_networks.min)
unfolding int_pow distance ◌-ℤ◌
sorted_lowest [] h = refl
sorted_lowest (b ∷ bs) h =
    let no_room : ltb_ℤ (pos 256) (distance (last (final b bs)) 0) ≡ false = ground arith in
    rw no_room (search_lowest b bs h.0)

-- Whatever subnets are in use, the search answers with the lowest one.
next_available_network_lowest :
    (networks : List IpNet)
    → All IsUsual networks
    → next_available_network networks new_networks.min new_networks.max 24
      ≡ some (ok new_networks.min)
unfolding next_available_network by_network
next_available_network_lowest networks h =
    let (sorted, e) = sort_total by_network networks (has_keys networks) in
    rw e (sorted_lowest sorted (All-sort IsUsual by_network networks e h))
  where
    has_keys : (l : List IpNet) → HasKeys by_network l
    has_keys [] = tt
    has_keys (n ∷ l) = ((pos (to4 n), refl), has_keys l)

-- A round whose network is refused changes the daemon and nothing else.
refused_round :
    {S E : Type 0} (docker : Daemon S E) (rounds : ℕ) (project : String) (subnets : List IpNet)
    (s : S) (e : E)
    → All IsUsual subnets
    → (docker.network_create s (docker.network_name project 0 0) project new_networks.min).1
      ≡ some e
    → (docker.networks_prune
        (docker.network_create s (docker.network_name project 0 0) project new_networks.min).0).1
      ≡ none
    → add_network docker (suc rounds) new_networks project subnets s
      ≡ add_network docker rounds new_networks project subnets
          (docker.networks_prune
            (docker.network_create s
              (docker.network_name project 0 0)
              project
              new_networks.min).0).0
unfolding add_network
refused_round docker rounds project subnets s e usual refused pruned =
    ground (arith, next_available_network_lowest subnets usual, refused, pruned)

-- The subnets in use are usual ones, and no network is labelled with the project. The daemon is in
-- a state of a kind (`Occupied`) in which it refuses the lowest subnet, pruning unused networks
-- works, and neither a refused network nor pruning leads out of the kind. Then `New` with the
-- bounds of `NewNetworks` gives no network, however many other subnets are free: it asks for the
-- lowest subnet in both rounds. The daemon is left in a state of the kind.
pub new_stuck :
    {S E : Type 0} (docker : Daemon S E) (Occupied : S → Type 0) (s : S) (project : String)
    (subnets : List IpNet)
    → ((t : S) (name : String)
        → Occupied t
        → (e : E) × ((docker.network_create t name project new_networks.min).1 ≡ some e))
    → ((t : S) (name : String)
        → Occupied t
        → Occupied (docker.network_create t name project new_networks.min).0)
    → ((t : S) → Occupied t → (docker.networks_prune t).1 ≡ none)
    → ((t : S) → Occupied t → Occupied (docker.networks_prune t).0)
    → docker.network_list s (by_label project) ≡ ok []
    → subnet_from_docker docker s ≡ ok subnets
    → All IsUsual subnets
    → Occupied s
    → (s' : S) × (new docker new_networks project s ≡ some (s', err cannot_add)) × Occupied s'
unfolding new add_network
new_stuck docker Occupied s project subnets refuses stays prunes kept unknown read usual occupied =
    let name : String = docker.network_name project 0 0 in
    let s1 = (docker.networks_prune (docker.network_create s name project new_networks.min).0).0 in
    let s2 = (docker.networks_prune (docker.network_create s1 name project new_networks.min).0).0 in
    let h1 : Occupied s1 = kept _ (stays s name occupied) in
    (
      s2,
      (ground (
        arith,
        unknown,
        read,
        refused_round docker 1 project subnets s _ usual (refuses s name occupied).1
            (prunes _ (stays s name occupied)),
        refused_round docker 0 project subnets s1 _ usual (refuses s1 name h1).1
            (prunes _ (stays s1 name h1)),
      )),
      kept _ (stays s1 name h1),
    )
