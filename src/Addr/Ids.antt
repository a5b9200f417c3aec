-- ===== src/Addr/Ids.antt =====
-- Networks and their ids: AddrNetwork of workloads/ir-workload/fuzzamoto-ir/src/lib.rs.
use bitcoin_antithesis.Prelude.{ℕ, ◌≡◌, ◌≤◌, ◌⊎◌, refl, arith}
use bitcoin_antithesis.Addr.{
  AddrNetwork, ipv4, ipv6, tor_v2, tor_v3, i2p, cjdns, yggdrasil, unknown, id, from_id,
}

-- Every id is the id of the network that is made of it.
pub id-from_id : (n : ℕ) → id (from_id n) ≡ n
unfolding id from_id
id-from_id n = ground arith

-- An unknown network does not have the id of a known one.
abbrev pub IsCanonical : AddrNetwork → Type 0
IsCanonical (unknown n) = (n ≡ 0) ⊎ (8 ≤ n)
IsCanonical _ = Unit

-- A network, if it is not a known one under the name unknown, is made of its id again.
pub from_id-id : (network : AddrNetwork) → IsCanonical network → from_id (id network) ≡ network
unfolding id from_id
from_id-id (unknown n) canonical = ground arith
from_id-id ipv4 canonical = refl
from_id-id ipv6 canonical = refl
from_id-id tor_v2 canonical = refl
from_id-id tor_v3 canonical = refl
from_id-id i2p canonical = refl
from_id-id cjdns canonical = refl
from_id-id yggdrasil canonical = refl
