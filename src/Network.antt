-- ===== src/Network.antt =====
-- network/network.go: the search for a network of addresses that is still free.
--
-- An address is a 32-bit number, and a mask the number `ones` of its leading ones, at most 32, as
-- the size of a mask gives it. `none` is the panic of an index out of range.
pub mod Blocks
pub mod Available
use batch_scheduler.Base.{
  ℕ, zero, suc, ◌+◌, ◌-◌, ◌*◌, ◌^◌, ◌%◌, Bool, true, false, Option, none, some, List, [], ◌∷◌,
  if◌then◌else◌, ltb, leb, ◌==◌, ◌&&◌,
}
use batch_scheduler.Base.Outcome.{Result, ok, err}
use batch_scheduler.Base.Sort.{sort, ◌>>=◌}
use batch_scheduler.Base.Int.{ℤ, pos, ltb_ℤ, leb_ℤ, ◌-ℤ◌}

-- `net.IPNet`. `ip` is the number in the first four bytes of its address, which is what the code
-- reads. An address of sixteen bytes that stands for one of four, as `net.IPv4` makes it, has zeros
-- there; it is then in `mapped`.
pub record IpNet : Type 0 where
  pub ip : ℕ
  pub ones : ℕ
  pub mapped : Option ℕ

pub data Error : Type 0 where
  beyond_max full : Error

-- `intPow`
abbrev int_pow_from : ℕ → ℕ → ℕ
int_pow_from n zero = n
int_pow_from n (suc m) = int_pow_from n m * n

unfoldable pub int_pow : ℕ → ℕ → ℕ
int_pow n zero = 1
int_pow n (suc m) = int_pow_from n m

-- The last address of `FirstLast`: `(first & mask) | (0xffffffff - mask)`, where the mask keeps the
-- leading ones.
unfoldable pub last : IpNet → ℕ
last n = n.ip - n.ip % 2 ^ (32 - n.ones) + (2 ^ (32 - n.ones) - 1)

-- `FirstLast`
unfoldable pub first_last : IpNet → ℕ × ℕ
first_last n = (n.ip, last n)

-- `Distance`
unfoldable pub distance : ℕ → ℕ → ℤ
distance a b = pos b -ℤ pos a

-- `NetDistance`
unfoldable pub net_distance : IpNet → IpNet → ℤ
net_distance a b =
    let (iaf, ial) = first_last a in
    let (ibf, ibl) = first_last b in
    if (iaf == ibf) && (ial == ibl)
    then pos 0
    else if leb ibf iaf && leb iaf ibl
    then pos iaf -ℤ pos ibl
    else if leb iaf ibf && leb ibf ial
    then pos ibf -ℤ pos ial
    else if ltb ibl iaf
    then pos (ial - ibl)
    else pos (ibl - ial)

-- `nextNet`
unfoldable pub next_net : IpNet → ℕ → IpNet
next_net a ones = record { ip = (last a + 1) % 2 ^ 32; ones = ones; mapped = none }

-- The loop of `NextAvailableNetwork` from a place of the sorted networks on. A network that overlaps
-- is passed without a test of the end.
unfoldable pub search : IpNet → ℕ → ℤ → IpNet → List IpNet → Option (Result Error IpNet)
search maxi ones size n [] = none
search maxi ones size n (b ∷ bs) =
    let n' = next_net n ones in
    let rest = search maxi ones size n' bs in
    let d = net_distance n b in
    if ltb_ℤ d (pos 0)
    then rest
    else if leb_ℤ size d
    then some (ok n)
    else if ltb_ℤ (pos 0) (distance maxi.ip n'.ip)
    then some (err beyond_max)
    else elim bs [ [] ↦ some (err full) | _ ∷ _ ↦ rest ]

-- `To4` of the address.
abbrev pub to4 : IpNet → ℕ
to4 n = elim n.mapped [ none ↦ n.ip | some ip ↦ ip ]

-- `ByNetwork`, with `ip4Less`
unfoldable pub by_network : IpNet → Option ℤ
by_network n = some (pos (to4 n))

-- The last network of a list.
abbrev pub final : IpNet → List IpNet → IpNet
final n [] = n
final n (b ∷ bs) = final b bs

-- `NextAvailableNetwork` once the networks are sorted.
abbrev pub search_sorted : List IpNet → IpNet → IpNet → ℕ → Option (Result Error IpNet)
search_sorted [] mini maxi ones = some (ok mini)
search_sorted (b ∷ bs) mini maxi ones =
    let top = final b bs in
    let size = pos (int_pow 2 (32 - ones)) in
    if ltb_ℤ size (distance (last top) maxi.ip)
    then some (ok (next_net top ones))
    else search maxi ones size mini (b ∷ bs)

-- `NextAvailableNetwork`
unfoldable pub next_available_network : List IpNet → IpNet → IpNet → ℕ → Option (Result Error IpNet)
next_available_network networks mini maxi ones = do
  sorted ← sort by_network networks
  search_sorted sorted mini maxi ones
