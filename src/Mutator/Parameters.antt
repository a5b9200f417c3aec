-- ===== src/Mutator/Parameters.antt =====
-- The change of an operation's parameters: workloads/ir-workload/fuzzamoto-ir/src/mutators/
-- operation.rs. The random choices and the byte mutator are parameters.
pub mod Kept
use bitcoin_antithesis.Prelude.{
  ℕ, ◌-◌, List, [], ◌∷◌, ◌++◌, Option, none, some, ltb, if◌then◌else◌, length, take, replicate,
}
use bitcoin_antithesis.Addr.{AddrNetwork, expected_payload_len}
use bitcoin_antithesis.Operation.{
  Operation, send_tx, send_tx_no_wit, build_pay_to_script_hash, build_pay_to_witness_script_hash,
  add_txid_inv, add_txid_with_witness_inv, add_wtxid_inv, add_filtered_block_inv, add_block_inv,
  add_block_with_witness_inv, add_compact_block_inv, build_pay_to_pub_key,
  build_pay_to_pub_key_hash, build_pay_to_witness_pub_key_hash,
}

-- The operations of which one is chosen in the place of another.
unfoldable pub replacements : Operation → List Operation
replacements send_tx_no_wit = send_tx ∷ []
replacements send_tx = send_tx_no_wit ∷ []
replacements build_pay_to_script_hash = build_pay_to_witness_script_hash ∷ []
replacements build_pay_to_witness_script_hash = build_pay_to_script_hash ∷ []
replacements add_txid_with_witness_inv = add_txid_inv ∷ add_wtxid_inv ∷ []
replacements add_txid_inv = add_txid_with_witness_inv ∷ add_wtxid_inv ∷ []
replacements add_wtxid_inv = add_txid_with_witness_inv ∷ add_txid_inv ∷ []
replacements add_filtered_block_inv =
    add_block_inv ∷ add_block_with_witness_inv ∷ add_compact_block_inv ∷ []
replacements add_block_inv =
    add_filtered_block_inv ∷ add_block_with_witness_inv ∷ add_compact_block_inv ∷ []
replacements add_block_with_witness_inv =
    add_filtered_block_inv ∷ add_block_inv ∷ add_compact_block_inv ∷ []
replacements add_compact_block_inv =
    add_block_inv ∷ add_block_with_witness_inv ∷ add_filtered_block_inv ∷ []
replacements build_pay_to_pub_key =
    build_pay_to_pub_key_hash ∷ build_pay_to_witness_pub_key_hash ∷ []
replacements build_pay_to_pub_key_hash =
    build_pay_to_pub_key ∷ build_pay_to_witness_pub_key_hash ∷ []
replacements build_pay_to_witness_pub_key_hash =
    build_pay_to_pub_key ∷ build_pay_to_pub_key_hash ∷ []
replacements _ = []

abbrev pub max_unknown_addr_payload : ℕ
max_unknown_addr_payload = 512

-- `Vec::resize`, and `Vec::truncate`.
abbrev pub resize : ℕ → ℕ → List ℕ → List ℕ
resize n value bytes =
    if ltb (length bytes) n then bytes ++ replicate (n - length bytes) value else take n bytes

abbrev pub truncate : ℕ → List ℕ → List ℕ
truncate n bytes = take n bytes

abbrev pub size_for : Option ℕ → ℕ → ℕ
size_for (some expected) chosen = expected
size_for none chosen = chosen

module _ (chosen_len : ℕ) (fill_bytes mutate_bytes : List ℕ → List ℕ) where
  -- An empty payload is filled; `chosen_len` is the `gen_range(1..=MAX_UNKNOWN_ADDR_PAYLOAD)`.
  unfoldable pub filled : AddrNetwork → List ℕ → List ℕ
  filled network [] = fill_bytes (resize (size_for (expected_payload_len network) chosen_len) 0 [])
  filled network (byte ∷ bytes) = byte ∷ bytes

  -- The payload is brought to the length of the network.
  unfoldable pub fitted : Option ℕ → List ℕ → List ℕ
  fitted (some expected) payload =
      if ltb (length payload) expected
      then resize expected 0 payload
      else if ltb expected (length payload)
      then truncate expected payload
      else payload
  fitted none [] = 0 ∷ []
  fitted none (byte ∷ bytes) =
      if ltb max_unknown_addr_payload (length (byte ∷ bytes))
      then truncate max_unknown_addr_payload (byte ∷ bytes)
      else byte ∷ bytes

  unfoldable pub mutate_addr_payload : AddrNetwork → List ℕ → List ℕ
  mutate_addr_payload network payload =
      fitted (expected_payload_len network) (mutate_bytes (filled network payload))
