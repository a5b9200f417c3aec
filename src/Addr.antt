-- ===== src/Addr.antt =====
-- Network addresses: workloads/ir-workload/fuzzamoto-ir/src/lib.rs, AddrNetwork and AddrRecord.
-- A `u8` is a native number; that it is below 256 is a hypothesis where it matters.
pub mod Ids
use bitcoin_antithesis.Prelude.{ℕ, List, Option, none, some, ◌==◌, if◌then◌else◌}

pub data AddrNetwork : Type 0 where
  ipv4 ipv6 tor_v2 tor_v3 i2p cjdns yggdrasil : AddrNetwork
  unknown : ℕ → AddrNetwork

unfoldable pub id : AddrNetwork → ℕ
id ipv4 = 0x01
id ipv6 = 0x02
id tor_v2 = 0x03
id tor_v3 = 0x04
id i2p = 0x05
id cjdns = 0x06
id yggdrasil = 0x07
id (unknown n) = n

unfoldable pub expected_payload_len : AddrNetwork → Option ℕ
expected_payload_len ipv4 = some 4
expected_payload_len ipv6 = some 16
expected_payload_len tor_v2 = some 10
expected_payload_len tor_v3 = some 32
expected_payload_len i2p = some 32
expected_payload_len cjdns = some 16
expected_payload_len yggdrasil = some 16
expected_payload_len (unknown _) = none

unfoldable pub from_id : ℕ → AddrNetwork
from_id n =
    if n == 0x01
    then ipv4
    else if n == 0x02
    then ipv6
    else if n == 0x03
    then tor_v2
    else if n == 0x04
    then tor_v3
    else if n == 0x05
    then i2p
    else if n == 0x06
    then cjdns
    else if n == 0x07
    then yggdrasil
    else unknown n

pub record V1Payload : Type 0 where
  pub time : ℕ
  pub services : ℕ
  pub ip : List ℕ
  pub port : ℕ

pub record V2Payload : Type 0 where
  pub time : ℕ
  pub services : ℕ
  pub network : AddrNetwork
  pub payload : List ℕ
  pub port : ℕ

pub data AddrRecord : Type 0 where
  v1 : V1Payload → AddrRecord
  v2 : V2Payload → AddrRecord
