-- ===== src/ProjectNetworks.antt =====
-- compose/network.go: the network of a project.
--
-- The Docker daemon is a parameter with its own state, and so is what Go's `net` and `fmt` do with
-- texts. The lock is left out: a call is one step.
pub mod Lowest
use batch_scheduler.Base.{
  ℕ, zero, suc, ◌/◌, ◌%◌, ◌^◌, String, Bool, true, false, Option, none, some, List, [], ◌∷◌,
  if◌then◌else◌, ◌++◌,
}
use batch_scheduler.Base.Outcome.{Result, ok, err}
use batch_scheduler.Network.{IpNet, next_available_network}
use batch_scheduler.Network
use text.Mathlib.Text.{◌==◌}

-- The filter of a list of networks.
pub data Filter : Type 0 where
  by_label by_driver by_name : String → Filter

-- What is read of a network of the daemon: its name and the subnets of its configuration.
pub record DockerNetwork : Type 0 where
  pub name : String
  pub subnets : List String

pub record Daemon (S E : Type 0) : Type 0 where
  pub network_list : S → Filter → Result E (List DockerNetwork)
  -- With the name, the project in the label, and the subnet.
  pub network_create : S → String → String → IpNet → S × Option E
  pub networks_prune : S → S × Option E
  pub network_remove : S → String → S × Option E
  -- `net.ParseCIDR`
  pub parse_cidr : String → Result E IpNet
  -- The text `batch-<project>-<third byte>-<fourth byte>`.
  pub network_name : String → ℕ → ℕ → String

pub data Error (E : Type 0) : Type 0 where
  from_daemon : E → Error E
  no_subnet : Network.Error → Error E
  cannot_add : Error E
  not_one : Error E

-- The fields of `Networks` that are no handle on the daemon and no lock.
pub record Networks : Type 0 where
  pub min : IpNet
  pub max : IpNet
  pub mask : ℕ

-- `NewNetworks`
abbrev pub new_networks : Networks
new_networks = record {
  min = record { ip = 0; ones = 24; mapped = some 2886860800 };
  max = record { ip = 0; ones = 24; mapped = some 2887262208 };
  mask = 24;
}

-- `IP[2]` and `IP[3]`, which are zeros in an address of sixteen bytes.
abbrev pub byte2 : IpNet → ℕ
byte2 n = n.ip / 2 ^ 8 % 2 ^ 8

abbrev pub byte3 : IpNet → ℕ
byte3 n = n.ip % 2 ^ 8

module _ {S E : Type 0} (docker : Daemon S E) where
  -- The inner loop, over the subnets of one network.
  unfoldable pub parse_subnets : List String → Result E (List IpNet)
  parse_subnets [] = ok []
  parse_subnets (config ∷ configs) = elim (docker.parse_cidr config) [
    | err e ↦ err e
    | ok subnet ↦ elim (parse_subnets configs) [
      | err e ↦ err e
      | ok subnets ↦ ok (subnet ∷ subnets)
    ]
  ]

  -- The outer loop, which passes over the default bridge.
  unfoldable pub parse_networks : List DockerNetwork → Result E (List IpNet)
  parse_networks [] = ok []
  parse_networks (network ∷ networks) =
      let rest = parse_networks networks in
      if network.name == "bridge" then rest else elim (parse_subnets network.subnets) [
        | err e ↦ err e
        | ok subnets ↦ elim rest [ err e ↦ err e | ok others ↦ ok (subnets ++ others) ]
      ]

  -- `SubnetFromDocker`
  unfoldable pub subnet_from_docker : S → Result E (List IpNet)
  subnet_from_docker s = elim (docker.network_list s (by_driver "bridge")) [
    | err e ↦ err e
    | ok networks ↦ parse_networks networks
  ]

  -- The loop of `New` for so many rounds; `none` is a panic of the search. The subnets were read
  -- once, before it.
  unfoldable pub add_network :
      ℕ → Networks → String → List IpNet → S → Option (S × Result (Error E) String)
  add_network zero n project subnets s = some (s, err cannot_add)
  add_network (suc rounds) n project subnets s =
      elim (next_available_network subnets n.min n.max n.mask) [
        | none ↦ none
        | some (err e) ↦ some (s, err (no_subnet e))
        | some (ok subnet) ↦
            let name = docker.network_name project (byte2 subnet) (byte3 subnet) in
            let (created, failed) = docker.network_create s name project subnet in
            let (pruned, failed') = docker.networks_prune created in
            let again = add_network rounds n project subnets pruned in
            elim failed [
              | none ↦ some (created, ok name)
              | some _ ↦ elim failed' [ some e ↦ some (pruned, err (from_daemon e)) | none ↦ again ]
            ]
      ]

  -- The part of `New` behind the search for a network of the project.
  abbrev pub new_network : Networks → String → S → Option (S × Result (Error E) String)
  new_network n project s = elim (subnet_from_docker s) [
    | err e ↦ some (s, err (from_daemon e))
    | ok subnets ↦ add_network 2 n project subnets s
  ]

  -- `New`
  unfoldable pub new : Networks → String → S → Option (S × Result (Error E) String)
  new n project s = elim (docker.network_list s (by_label project)) [
    | err e ↦ some (s, err (from_daemon e))
    | ok [] ↦ new_network n project s
    | ok (network ∷ _) ↦ some (s, ok network.name)
  ]

  -- `Remove`, with its error.
  unfoldable pub remove : String → S → S × Option (Error E)
  remove network s = elim (docker.network_list s (by_name network)) [
    | err e ↦ (s, some (from_daemon e))
    | ok [] ↦ (s, some not_one)
    | ok (_ ∷ _ ∷ _) ↦ (s, some not_one)
    | ok (_ ∷ []) ↦
        let (removed, failed) = docker.network_remove s network in
        elim failed [ none ↦ (removed, none) | some e ↦ (removed, some (from_daemon e)) ]
  ]
