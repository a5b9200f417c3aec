-- ===== src/Compiler/Addresses.antt =====
-- Lists of addresses: handle_addr_operations of workloads/ir-workload/fuzzamoto-ir/src/compiler.rs
-- and the conversions that it calls.
use Prim.Native.Nat.{bit_and, bit_or}
use bitcoin_antithesis.Prelude.{
  ℕ, Bool, true, false, ◌&&◌, ◌||◌, List, [], ◌∷◌, ◌++◌, Option, none, some, ◌==◌, ltb,
  if◌then◌else◌, length, take, drop,
}
use bitcoin_antithesis.Addr.{
  AddrNetwork, AddrRecord, V1Payload, V2Payload, v1, v2, ipv4, ipv6, tor_v2, tor_v3, i2p, cjdns,
  yggdrasil, unknown, expected_payload_len, id,
}
use bitcoin_antithesis.Operation.{
  Operation, begin_build_addr_list, begin_build_addr_list_v2, add_addr, add_addr_v2,
  end_build_addr_list, end_build_addr_list_v2,
}
use bitcoin_antithesis.Compiler.Bitcoin.{Bytes, Library, SocketAddr, Address, AddrV2, AddrV2Message}
use bitcoin_antithesis.Compiler.Values.{AddrList, AddrListV2}
use bitcoin_antithesis.Compiler.Types.Plain.{as_addr_record}
use bitcoin_antithesis.Compiler.Types.Network.{
  as_addr_list, as_addr_list_v2, as_addresses, as_addr_messages,
}
use bitcoin_antithesis.Compiler.State.{
  Exit, ok, err, panic, misc_error, Run, ◌>>=◌, raise, panics, get_input, update_input,
  append_variable, bytes_eq,
}

-- NETWORK, GETUTXO, BLOOM, WITNESS, COMPACT_FILTERS, NETWORK_LIMITED and P2P_V2.
abbrev pub service_flags : List ℕ
service_flags = 1 ∷ 2 ∷ 4 ∷ 8 ∷ 64 ∷ 1024 ∷ 2048 ∷ []

-- The loop over the flags, with the flags found so far.
unfoldable pub add_flags : List ℕ → ℕ → ℕ → ℕ
add_flags [] bits flags = flags
add_flags (flag ∷ rest) bits flags =
    add_flags rest bits (if bit_and bits flag == 0 then flags else bit_or flags flag)

unfoldable pub service_flags_from_bits : ℕ → ℕ
unfolding add_flags
service_flags_from_bits bits = add_flags service_flags bits 0

-- `Ipv6Addr::to_ipv4`: ::a.b.c.d and ::ffff:a.b.c.d.
unfoldable pub to_ipv4 : Bytes → Option Bytes
to_ipv4 ip =
    if bytes_eq (take 10 ip) (0 ∷ 0 ∷ 0 ∷ 0 ∷ 0 ∷ 0 ∷ 0 ∷ 0 ∷ 0 ∷ 0 ∷ [])
      && (bytes_eq (take 2 (drop 10 ip)) (0 ∷ 0 ∷ [])
          || bytes_eq (take 2 (drop 10 ip)) (255 ∷ 255 ∷ []))
    then some (drop 12 ip)
    else none

unfoldable pub socket_of : Bytes → ℕ → SocketAddr
unfolding to_ipv4
socket_of ip port = elim (to_ipv4 ip) [
  | some octets ↦ SocketAddr.v4 octets port
  | none ↦ SocketAddr.v6 ip port
]

-- The payload's length: the fixed one of the network, or at most 512.
abbrev pub fits_network : AddrNetwork → Bytes → Bool
fits_network network payload = elim (expected_payload_len network) [
  | some expected ↦ length payload == expected
  | none ↦ if ltb 512 (length payload) then false else true
]

-- The `try_into` of the fixed lengths cannot fail once the length is checked.
abbrev pub convert_addr : AddrNetwork → Bytes → Exit AddrV2
convert_addr ipv4 payload = ok (AddrV2.ipv4 payload)
convert_addr ipv6 payload = ok (AddrV2.ipv6 payload)
convert_addr tor_v2 payload = panic
convert_addr tor_v3 payload = ok (AddrV2.tor_v3 payload)
convert_addr i2p payload = ok (AddrV2.i2p payload)
convert_addr cjdns payload = ok (AddrV2.cjdns payload)
convert_addr yggdrasil payload = ok (AddrV2.unknown (id yggdrasil) payload)
convert_addr (unknown n) payload = ok (AddrV2.unknown n payload)

abbrev pub is_tor_v2 : AddrNetwork → Bool
is_tor_v2 tor_v2 = true
is_tor_v2 _ = false

abbrev pub with_addr : V2Payload → Exit AddrV2 → Exit AddrV2Message
with_addr p (ok a) = ok (record {
  time = p.time;
  services = service_flags_from_bits p.services;
  addr = a;
  port = p.port;
})
with_addr p (err e) = err e
with_addr p panic = panic
with_addr p (Exit.lost cause) = Exit.lost cause
with_addr p Exit.diverge = Exit.diverge

unfoldable pub addr_v2_to_message : AddrRecord → Exit AddrV2Message
addr_v2_to_message (v1 _) = err misc_error
addr_v2_to_message (v2 p) =
    if is_tor_v2 p.network
    then err misc_error
    else if fits_network p.network p.payload
    then with_addr p (convert_addr p.network p.payload)
    else err misc_error

-- A result in the compiler's monad.
unfoldable pub from_exit : {A : Type 0} → Exit A → Run A
from_exit r s = (r, s)

abbrev pub push_entry : ℕ × Address → AddrList → AddrList
push_entry e l = record l { entries = l.entries ++ e ∷ [] }

abbrev pub push_message : AddrV2Message → AddrListV2 → AddrListV2
push_message e l = record l { entries = l.entries ++ e ∷ [] }

module _ (lib : Library) where
  unfoldable pub addr_v1_to_network_address : V1Payload → ℕ × Address
  unfolding socket_of
  addr_v1_to_network_address p =
      (p.time, lib.new_address (socket_of p.ip p.port) (service_flags_from_bits p.services))

  unfoldable pub add_addr_record : AddrRecord → List ℕ → Run (Unit {0})
  add_addr_record (v1 p) inputs =
      update_input as_addr_list inputs 0 (push_entry (addr_v1_to_network_address p))
  add_addr_record (v2 _) inputs = raise misc_error

  unfoldable pub handle_addr_operations : Operation → List ℕ → Run (Unit {0})
  handle_addr_operations begin_build_addr_list inputs =
      append_variable as_addr_list (record { entries = [] })
  handle_addr_operations begin_build_addr_list_v2 inputs =
      append_variable as_addr_list_v2 (record { entries = [] })
  handle_addr_operations add_addr inputs = do
    r ← get_input as_addr_record inputs 1
    add_addr_record r inputs
  handle_addr_operations add_addr_v2 inputs = do
    r ← get_input as_addr_record inputs 1
    entry ← from_exit (addr_v2_to_message r)
    update_input as_addr_list_v2 inputs 0 (push_message entry)
  handle_addr_operations end_build_addr_list inputs = do
    l ← get_input as_addr_list inputs 0
    append_variable as_addresses l.entries
  handle_addr_operations end_build_addr_list_v2 inputs = do
    l ← get_input as_addr_list_v2 inputs 0
    append_variable as_addr_messages l.entries
  handle_addr_operations _ inputs = panics
