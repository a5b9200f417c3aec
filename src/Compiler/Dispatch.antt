-- ===== src/Compiler/Dispatch.antt =====
-- The choice of the handler of an operation by compile_from: Compiler::compile_instruction of
-- workloads/ir-workload/fuzzamoto-ir/src/compiler.rs.
use bitcoin_antithesis.Prelude.{ℕ, List}
use bitcoin_antithesis.Operation.{
  Operation, nop, load_bytes, load_msg_type, load_node, load_connection, load_connection_type,
  load_duration, load_addr, load_time, load_amount, load_size, load_tx_version, load_block_version,
  load_lock_time, load_sequence, load_block_height, load_compact_filter_type, load_private_key,
  load_sig_hash_flags, load_nonce, load_txo, load_taproot_annex, load_header, load_filter_load,
  load_filter_add, begin_build_block_txn, add_tx_to_block_txn, end_build_block_txn,
  send_raw_message, advance_time, set_time, build_raw_scripts, build_pay_to_witness_script_hash,
  build_pay_to_pub_key, build_pay_to_pub_key_hash, build_pay_to_witness_pub_key_hash,
  build_pay_to_script_hash, build_op_return_scripts, build_pay_to_anchor, build_pay_to_taproot,
  build_compact_block, begin_build_filter_load, add_tx_to_filter, add_txo_to_filter,
  end_build_filter_load, build_filter_add_from_tx, build_filter_add_from_txo, begin_witness_stack,
  end_witness_stack, add_witness, begin_build_tx, end_build_tx, begin_build_tx_inputs,
  end_build_tx_inputs, begin_build_tx_outputs, end_build_tx_outputs, add_tx_output, add_tx_input,
  take_txo, take_coinbase_txo, begin_build_coinbase_tx, end_build_coinbase_tx,
  build_coinbase_tx_input, begin_build_coinbase_tx_outputs, end_build_coinbase_tx_outputs,
  add_coinbase_tx_output, begin_block_transactions, end_block_transactions, build_block, add_tx,
  begin_build_inventory, end_build_inventory, add_compact_block_inv, add_txid_inv,
  add_txid_with_witness_inv, add_wtxid_inv, add_block_inv, add_block_with_witness_inv,
  add_filtered_block_inv, begin_build_addr_list, end_build_addr_list, add_addr,
  begin_build_addr_list_v2, end_build_addr_list_v2, add_addr_v2, probe, send_get_data, send_inv,
  send_get_addr, send_addr, send_addr_v2, send_tx, send_tx_no_wit, send_header, send_block,
  send_block_no_wit, send_get_c_filters, send_get_cf_headers, send_get_cf_checkpt, send_filter_load,
  send_filter_add, send_filter_clear, send_compact_block, send_block_txn, taproot_scripts_use_annex,
  taproot_txo_use_annex, build_taproot_tree,
}
use bitcoin_antithesis.Compiler.Bitcoin.{Library}
use bitcoin_antithesis.Compiler.State.{Run}
use bitcoin_antithesis.Compiler.Loads.{handle_load_operations}
use bitcoin_antithesis.Compiler.Inventories.{
  handle_inventory_operations, handle_bip152_blocktxn_operations,
}
use bitcoin_antithesis.Compiler.Addresses.{handle_addr_operations}
use bitcoin_antithesis.Compiler.Filters.{
  handle_witness_operations, handle_filter_building_operations,
  handle_compact_block_building_operations,
}
use bitcoin_antithesis.Compiler.Taproot.{handle_taproot_conversions, handle_build_taproot_tree}
use bitcoin_antithesis.Compiler.Scripts.{handle_script_building_operations}
use bitcoin_antithesis.Compiler.Transactions.{
  handle_transaction_building_operations, handle_coinbase_building_operations,
}
use bitcoin_antithesis.Compiler.Blocks.{handle_block_building_operations}
use bitcoin_antithesis.Compiler.Sending.{
  handle_time_operations, handle_probe_operations, handle_message_sending_operations,
}

module _ (lib : Library) where
  unfoldable pub compile_instruction : Operation → List ℕ → Run (Unit {0})
  compile_instruction (nop a b) inputs = handle_load_operations (nop a b)
  compile_instruction (load_bytes a) inputs = handle_load_operations (load_bytes a)
  compile_instruction (load_msg_type a) inputs = handle_load_operations (load_msg_type a)
  compile_instruction (load_node a) inputs = handle_load_operations (load_node a)
  compile_instruction (load_connection a) inputs = handle_load_operations (load_connection a)
  compile_instruction (load_connection_type a) inputs =
      handle_load_operations (load_connection_type a)
  compile_instruction (load_duration a) inputs = handle_load_operations (load_duration a)
  compile_instruction (load_addr a) inputs = handle_load_operations (load_addr a)
  compile_instruction (load_time a) inputs = handle_load_operations (load_time a)
  compile_instruction (load_amount a) inputs = handle_load_operations (load_amount a)
  compile_instruction (load_size a) inputs = handle_load_operations (load_size a)
  compile_instruction (load_tx_version a) inputs = handle_load_operations (load_tx_version a)
  compile_instruction (load_block_version a) inputs = handle_load_operations (load_block_version a)
  compile_instruction (load_lock_time a) inputs = handle_load_operations (load_lock_time a)
  compile_instruction (load_sequence a) inputs = handle_load_operations (load_sequence a)
  compile_instruction (load_block_height a) inputs = handle_load_operations (load_block_height a)
  compile_instruction (load_compact_filter_type a) inputs =
      handle_load_operations (load_compact_filter_type a)
  compile_instruction (load_private_key a) inputs = handle_load_operations (load_private_key a)
  compile_instruction (load_sig_hash_flags a) inputs =
      handle_load_operations (load_sig_hash_flags a)
  compile_instruction (load_nonce a) inputs = handle_load_operations (load_nonce a)
  compile_instruction (load_txo a) inputs = handle_load_operations (load_txo a)
  compile_instruction (load_taproot_annex a) inputs = handle_load_operations (load_taproot_annex a)
  compile_instruction (load_header a) inputs = handle_load_operations (load_header a)
  compile_instruction (load_filter_load a) inputs = handle_load_operations (load_filter_load a)
  compile_instruction (load_filter_add a) inputs = handle_load_operations (load_filter_add a)
  compile_instruction begin_build_block_txn inputs =
      handle_bip152_blocktxn_operations lib begin_build_block_txn inputs
  compile_instruction add_tx_to_block_txn inputs =
      handle_bip152_blocktxn_operations lib add_tx_to_block_txn inputs
  compile_instruction end_build_block_txn inputs =
      handle_bip152_blocktxn_operations lib end_build_block_txn inputs
  compile_instruction send_raw_message inputs =
      handle_message_sending_operations lib send_raw_message inputs
  compile_instruction advance_time inputs = handle_time_operations advance_time
  compile_instruction set_time inputs = handle_time_operations set_time
  compile_instruction build_raw_scripts inputs =
      handle_script_building_operations lib build_raw_scripts inputs
  compile_instruction build_pay_to_witness_script_hash inputs =
      handle_script_building_operations lib build_pay_to_witness_script_hash inputs
  compile_instruction build_pay_to_pub_key inputs =
      handle_script_building_operations lib build_pay_to_pub_key inputs
  compile_instruction build_pay_to_pub_key_hash inputs =
      handle_script_building_operations lib build_pay_to_pub_key_hash inputs
  compile_instruction build_pay_to_witness_pub_key_hash inputs =
      handle_script_building_operations lib build_pay_to_witness_pub_key_hash inputs
  compile_instruction build_pay_to_script_hash inputs =
      handle_script_building_operations lib build_pay_to_script_hash inputs
  compile_instruction build_op_return_scripts inputs =
      handle_script_building_operations lib build_op_return_scripts inputs
  compile_instruction build_pay_to_anchor inputs =
      handle_script_building_operations lib build_pay_to_anchor inputs
  compile_instruction build_pay_to_taproot inputs =
      handle_script_building_operations lib build_pay_to_taproot inputs
  compile_instruction build_compact_block inputs =
      handle_compact_block_building_operations lib build_compact_block inputs
  compile_instruction begin_build_filter_load inputs =
      handle_filter_building_operations lib begin_build_filter_load inputs
  compile_instruction add_tx_to_filter inputs =
      handle_filter_building_operations lib add_tx_to_filter inputs
  compile_instruction add_txo_to_filter inputs =
      handle_filter_building_operations lib add_txo_to_filter inputs
  compile_instruction end_build_filter_load inputs =
      handle_filter_building_operations lib end_build_filter_load inputs
  compile_instruction build_filter_add_from_tx inputs =
      handle_filter_building_operations lib build_filter_add_from_tx inputs
  compile_instruction build_filter_add_from_txo inputs =
      handle_filter_building_operations lib build_filter_add_from_txo inputs
  compile_instruction begin_witness_stack inputs =
      handle_witness_operations begin_witness_stack inputs
  compile_instruction end_witness_stack inputs = handle_witness_operations end_witness_stack inputs
  compile_instruction add_witness inputs = handle_witness_operations add_witness inputs
  compile_instruction begin_build_tx inputs =
      handle_transaction_building_operations lib begin_build_tx inputs
  compile_instruction end_build_tx inputs =
      handle_transaction_building_operations lib end_build_tx inputs
  compile_instruction begin_build_tx_inputs inputs =
      handle_transaction_building_operations lib begin_build_tx_inputs inputs
  compile_instruction end_build_tx_inputs inputs =
      handle_transaction_building_operations lib end_build_tx_inputs inputs
  compile_instruction begin_build_tx_outputs inputs =
      handle_transaction_building_operations lib begin_build_tx_outputs inputs
  compile_instruction end_build_tx_outputs inputs =
      handle_transaction_building_operations lib end_build_tx_outputs inputs
  compile_instruction add_tx_output inputs =
      handle_transaction_building_operations lib add_tx_output inputs
  compile_instruction add_tx_input inputs =
      handle_transaction_building_operations lib add_tx_input inputs
  compile_instruction take_txo inputs = handle_transaction_building_operations lib take_txo inputs
  compile_instruction take_coinbase_txo inputs =
      handle_transaction_building_operations lib take_coinbase_txo inputs
  compile_instruction begin_build_coinbase_tx inputs =
      handle_coinbase_building_operations lib begin_build_coinbase_tx inputs
  compile_instruction end_build_coinbase_tx inputs =
      handle_coinbase_building_operations lib end_build_coinbase_tx inputs
  compile_instruction build_coinbase_tx_input inputs =
      handle_coinbase_building_operations lib build_coinbase_tx_input inputs
  compile_instruction begin_build_coinbase_tx_outputs inputs =
      handle_coinbase_building_operations lib begin_build_coinbase_tx_outputs inputs
  compile_instruction end_build_coinbase_tx_outputs inputs =
      handle_coinbase_building_operations lib end_build_coinbase_tx_outputs inputs
  compile_instruction add_coinbase_tx_output inputs =
      handle_coinbase_building_operations lib add_coinbase_tx_output inputs
  compile_instruction begin_block_transactions inputs =
      handle_block_building_operations lib begin_block_transactions inputs
  compile_instruction end_block_transactions inputs =
      handle_block_building_operations lib end_block_transactions inputs
  compile_instruction build_block inputs = handle_block_building_operations lib build_block inputs
  compile_instruction add_tx inputs = handle_block_building_operations lib add_tx inputs
  compile_instruction begin_build_inventory inputs =
      handle_inventory_operations lib begin_build_inventory inputs
  compile_instruction end_build_inventory inputs =
      handle_inventory_operations lib end_build_inventory inputs
  compile_instruction add_compact_block_inv inputs =
      handle_inventory_operations lib add_compact_block_inv inputs
  compile_instruction add_txid_inv inputs = handle_inventory_operations lib add_txid_inv inputs
  compile_instruction add_txid_with_witness_inv inputs =
      handle_inventory_operations lib add_txid_with_witness_inv inputs
  compile_instruction add_wtxid_inv inputs = handle_inventory_operations lib add_wtxid_inv inputs
  compile_instruction add_block_inv inputs = handle_inventory_operations lib add_block_inv inputs
  compile_instruction add_block_with_witness_inv inputs =
      handle_inventory_operations lib add_block_with_witness_inv inputs
  compile_instruction add_filtered_block_inv inputs =
      handle_inventory_operations lib add_filtered_block_inv inputs
  compile_instruction begin_build_addr_list inputs =
      handle_addr_operations lib begin_build_addr_list inputs
  compile_instruction end_build_addr_list inputs =
      handle_addr_operations lib end_build_addr_list inputs
  compile_instruction add_addr inputs = handle_addr_operations lib add_addr inputs
  compile_instruction begin_build_addr_list_v2 inputs =
      handle_addr_operations lib begin_build_addr_list_v2 inputs
  compile_instruction end_build_addr_list_v2 inputs =
      handle_addr_operations lib end_build_addr_list_v2 inputs
  compile_instruction add_addr_v2 inputs = handle_addr_operations lib add_addr_v2 inputs
  compile_instruction probe inputs = handle_probe_operations probe
  compile_instruction send_get_data inputs =
      handle_message_sending_operations lib send_get_data inputs
  compile_instruction send_inv inputs = handle_message_sending_operations lib send_inv inputs
  compile_instruction send_get_addr inputs =
      handle_message_sending_operations lib send_get_addr inputs
  compile_instruction send_addr inputs = handle_message_sending_operations lib send_addr inputs
  compile_instruction send_addr_v2 inputs =
      handle_message_sending_operations lib send_addr_v2 inputs
  compile_instruction send_tx inputs = handle_message_sending_operations lib send_tx inputs
  compile_instruction send_tx_no_wit inputs =
      handle_message_sending_operations lib send_tx_no_wit inputs
  compile_instruction send_header inputs = handle_message_sending_operations lib send_header inputs
  compile_instruction send_block inputs = handle_message_sending_operations lib send_block inputs
  compile_instruction send_block_no_wit inputs =
      handle_message_sending_operations lib send_block_no_wit inputs
  compile_instruction send_get_c_filters inputs =
      handle_message_sending_operations lib send_get_c_filters inputs
  compile_instruction send_get_cf_headers inputs =
      handle_message_sending_operations lib send_get_cf_headers inputs
  compile_instruction send_get_cf_checkpt inputs =
      handle_message_sending_operations lib send_get_cf_checkpt inputs
  compile_instruction send_filter_load inputs =
      handle_message_sending_operations lib send_filter_load inputs
  compile_instruction send_filter_add inputs =
      handle_message_sending_operations lib send_filter_add inputs
  compile_instruction send_filter_clear inputs =
      handle_message_sending_operations lib send_filter_clear inputs
  compile_instruction send_compact_block inputs =
      handle_message_sending_operations lib send_compact_block inputs
  compile_instruction send_block_txn inputs =
      handle_message_sending_operations lib send_block_txn inputs
  compile_instruction taproot_scripts_use_annex inputs =
      handle_taproot_conversions taproot_scripts_use_annex inputs
  compile_instruction taproot_txo_use_annex inputs =
      handle_taproot_conversions taproot_txo_use_annex inputs
  compile_instruction (build_taproot_tree a b) inputs =
      handle_build_taproot_tree lib (build_taproot_tree a b)
