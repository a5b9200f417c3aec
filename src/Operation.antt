-- ===== src/Operation.antt =====
-- The operations of the IR: workloads/ir-workload/fuzzamoto-ir/src/operation.rs, the data type.
-- Integers are native numbers (a signed one is a ℤ), bytes are lists of numbers, and a variant
-- with several named fields holds a record of them.
pub mod Blocks
pub mod Signature
pub mod Facts
use Prim.Native.String.{String}
use bitcoin_antithesis.Prelude.{ℕ, ℤ, List, Option}
use bitcoin_antithesis.Addr.{AddrRecord}

-- `std::time::Duration`.
pub record Duration : Type 0 where
  pub secs : ℕ
  pub nanos : ℕ

pub record TaprootLeafSpec : Type 0 where
  pub script : List ℕ
  pub version : ℕ
  pub merkle_path : List (List ℕ)

pub record TxoPayload : Type 0 where
  pub outpoint : List ℕ × ℕ
  pub value : ℕ
  pub script_pubkey : List ℕ
  pub spending_script_sig : List ℕ
  pub spending_witness : List (List ℕ)

pub record HeaderPayload : Type 0 where
  pub prev : List ℕ
  pub merkle_root : List ℕ
  pub nonce : ℕ
  pub bits : ℕ
  pub time : ℕ
  pub version : ℤ
  pub height : ℕ

pub record FilterLoadPayload : Type 0 where
  pub filter : List ℕ
  pub hash_funcs : ℕ
  pub tweak : ℕ
  pub flags : ℕ

pub data Operation : Type 0 where
  nop : ℕ → ℕ → Operation
  load_bytes : List ℕ → Operation
  load_msg_type : List ℕ → Operation
  load_node : ℕ → Operation
  load_connection : ℕ → Operation
  load_connection_type : String → Operation
  load_duration : Duration → Operation
  load_addr : AddrRecord → Operation
  load_time : ℕ → Operation
  load_amount : ℕ → Operation
  load_size : ℕ → Operation
  load_tx_version : ℕ → Operation
  load_block_version : ℤ → Operation
  load_lock_time : ℕ → Operation
  load_sequence : ℕ → Operation
  load_block_height : ℕ → Operation
  load_compact_filter_type : ℕ → Operation
  load_private_key : List ℕ → Operation
  load_sig_hash_flags : ℕ → Operation
  load_nonce : ℕ → Operation
  load_txo : TxoPayload → Operation
  load_taproot_annex : List ℕ → Operation
  load_header : HeaderPayload → Operation
  load_filter_load : FilterLoadPayload → Operation
  load_filter_add : List ℕ → Operation
  begin_build_block_txn : Operation
  add_tx_to_block_txn : Operation
  end_build_block_txn : Operation
  send_raw_message : Operation
  advance_time : Operation
  set_time : Operation
  build_raw_scripts : Operation
  build_pay_to_witness_script_hash : Operation
  build_pay_to_pub_key : Operation
  build_pay_to_pub_key_hash : Operation
  build_pay_to_witness_pub_key_hash : Operation
  build_pay_to_script_hash : Operation
  build_op_return_scripts : Operation
  build_pay_to_anchor : Operation
  build_pay_to_taproot : Operation
  build_compact_block : Operation
  begin_build_filter_load : Operation
  add_tx_to_filter : Operation
  add_txo_to_filter : Operation
  end_build_filter_load : Operation
  build_filter_add_from_tx : Operation
  build_filter_add_from_txo : Operation
  begin_witness_stack : Operation
  end_witness_stack : Operation
  add_witness : Operation
  begin_build_tx : Operation
  end_build_tx : Operation
  begin_build_tx_inputs : Operation
  end_build_tx_inputs : Operation
  begin_build_tx_outputs : Operation
  end_build_tx_outputs : Operation
  add_tx_output : Operation
  add_tx_input : Operation
  take_txo : Operation
  take_coinbase_txo : Operation
  begin_build_coinbase_tx : Operation
  end_build_coinbase_tx : Operation
  build_coinbase_tx_input : Operation
  begin_build_coinbase_tx_outputs : Operation
  end_build_coinbase_tx_outputs : Operation
  add_coinbase_tx_output : Operation
  begin_block_transactions : Operation
  end_block_transactions : Operation
  build_block : Operation
  add_tx : Operation
  begin_build_inventory : Operation
  end_build_inventory : Operation
  add_compact_block_inv : Operation
  add_txid_inv : Operation
  add_txid_with_witness_inv : Operation
  add_wtxid_inv : Operation
  add_block_inv : Operation
  add_block_with_witness_inv : Operation
  add_filtered_block_inv : Operation
  begin_build_addr_list : Operation
  end_build_addr_list : Operation
  add_addr : Operation
  begin_build_addr_list_v2 : Operation
  end_build_addr_list_v2 : Operation
  add_addr_v2 : Operation
  probe : Operation
  send_get_data : Operation
  send_inv : Operation
  send_get_addr : Operation
  send_addr : Operation
  send_addr_v2 : Operation
  send_tx : Operation
  send_tx_no_wit : Operation
  send_header : Operation
  send_block : Operation
  send_block_no_wit : Operation
  send_get_c_filters : Operation
  send_get_cf_headers : Operation
  send_get_cf_checkpt : Operation
  send_filter_load : Operation
  send_filter_add : Operation
  send_filter_clear : Operation
  send_compact_block : Operation
  send_block_txn : Operation
  taproot_scripts_use_annex : Operation
  taproot_txo_use_annex : Operation
  build_taproot_tree : List ℕ → Option TaprootLeafSpec → Operation
