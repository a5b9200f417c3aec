-- ===== src/Operation/Signature.antt =====
-- The typing of operations: the variables that each one takes and makes, and the check of the
-- inputs. workloads/ir-workload/fuzzamoto-ir/src/operation.rs.
use bitcoin_antithesis.Prelude.{ℕ, List, [], ◌∷◌, length, replicate}
use bitcoin_antithesis.Variable.{Variable}
use bitcoin_antithesis.Operation.{
  Operation, nop, load_bytes, load_msg_type, load_node, load_connection, load_connection_type,
  load_duration, load_addr, load_time, load_amount, load_size, load_tx_version, load_block_version,
  load_lock_time, load_sequence, load_block_height, load_compact_filter_type, load_private_key,
  load_sig_hash_flags, load_nonce, load_txo, load_taproot_annex, load_header, load_filter_load,
  load_filter_add, begin_build_block_txn, add_tx_to_block_txn, end_build_block_txn,
  send_raw_message, advance_time, set_time, build_raw_scripts, build_pay_to_witness_script_hash,
  build_pay_to_pub_key, build_pay_to_pub_key_hash, build_pay_to_witness_pub_key_hash,
  build_pay_to_script_hash, build_op_return_scripts, build_pay_to_anchor, build_pay_to_taproot,
  build_compact_block, begin_build_filter_load, add_tx_to_filter, add_txo_to_filter,
  end_build_filter_load, build_filter_add_from_tx, build_filter_add_from_txo, begin_witness_stack,
  end_witness_stack, add_witness, begin_build_tx, end_build_tx, begin_build_tx_inputs,
  end_build_tx_inputs, begin_build_tx_outputs, end_build_tx_outputs, add_tx_output, add_tx_input,
  take_txo, take_coinbase_txo, begin_build_coinbase_tx, end_build_coinbase_tx,
  build_coinbase_tx_input, begin_build_coinbase_tx_outputs, end_build_coinbase_tx_outputs,
  add_coinbase_tx_output, begin_block_transactions, end_block_transactions, build_block, add_tx,
  begin_build_inventory, end_build_inventory, add_compact_block_inv, add_txid_inv,
  add_txid_with_witness_inv, add_wtxid_inv, add_block_inv, add_block_with_witness_inv,
  add_filtered_block_inv, begin_build_addr_list, end_build_addr_list, add_addr,
  begin_build_addr_list_v2, end_build_addr_list_v2, add_addr_v2, send_get_data, send_inv,
  send_get_addr, send_addr, send_addr_v2, send_tx, send_tx_no_wit, send_header, send_block,
  send_block_no_wit, send_get_c_filters, send_get_cf_headers, send_get_cf_checkpt, send_filter_load,
  send_filter_add, send_filter_clear, send_compact_block, send_block_txn, taproot_scripts_use_annex,
  taproot_txo_use_annex, build_taproot_tree,
}

unfoldable pub get_output_variables : Operation → List Variable
get_output_variables (nop outputs _) = replicate outputs Variable.nop
get_output_variables (load_bytes _) = Variable.bytes ∷ []
get_output_variables (load_msg_type _) = Variable.msg_type ∷ []
get_output_variables (load_node _) = Variable.node ∷ []
get_output_variables (load_connection _) = Variable.connection ∷ []
get_output_variables (load_connection_type _) = Variable.connection_type ∷ []
get_output_variables (load_duration _) = Variable.duration ∷ []
get_output_variables (load_addr _) = Variable.addr_record ∷ []
get_output_variables (load_time _) = Variable.time ∷ []
get_output_variables (load_amount _) = Variable.const_amount ∷ []
get_output_variables (load_size _) = Variable.size ∷ []
get_output_variables (load_tx_version _) = Variable.tx_version ∷ []
get_output_variables (load_block_version _) = Variable.block_version ∷ []
get_output_variables (load_lock_time _) = Variable.lock_time ∷ []
get_output_variables (load_sequence _) = Variable.sequence ∷ []
get_output_variables (load_block_height _) = Variable.block_height ∷ []
get_output_variables (load_compact_filter_type _) = Variable.compact_filter_type ∷ []
get_output_variables (load_private_key _) = Variable.private_key ∷ []
get_output_variables (load_sig_hash_flags _) = Variable.sig_hash_flags ∷ []
get_output_variables (load_nonce _) = Variable.nonce ∷ []
get_output_variables (load_txo _) = Variable.txo ∷ []
get_output_variables (load_taproot_annex _) = Variable.taproot_annex ∷ []
get_output_variables (load_header _) = Variable.header ∷ []
get_output_variables (load_filter_load _) = Variable.const_filter_load ∷ []
get_output_variables (load_filter_add _) = Variable.filter_add ∷ []
get_output_variables end_build_block_txn = Variable.const_block_txn ∷ []
get_output_variables advance_time = Variable.time ∷ []
get_output_variables build_raw_scripts = Variable.scripts ∷ []
get_output_variables build_pay_to_witness_script_hash = Variable.scripts ∷ []
get_output_variables build_pay_to_pub_key = Variable.scripts ∷ []
get_output_variables build_pay_to_pub_key_hash = Variable.scripts ∷ []
get_output_variables build_pay_to_witness_pub_key_hash = Variable.scripts ∷ []
get_output_variables build_pay_to_script_hash = Variable.scripts ∷ []
get_output_variables build_op_return_scripts = Variable.scripts ∷ []
get_output_variables build_pay_to_anchor = Variable.scripts ∷ []
get_output_variables build_pay_to_taproot = Variable.scripts ∷ []
get_output_variables build_compact_block = Variable.compact_block ∷ []
get_output_variables end_build_filter_load = Variable.const_filter_load ∷ []
get_output_variables build_filter_add_from_tx = Variable.filter_add ∷ []
get_output_variables build_filter_add_from_txo = Variable.filter_add ∷ []
get_output_variables end_witness_stack = Variable.const_witness_stack ∷ []
get_output_variables end_build_tx = Variable.const_tx ∷ []
get_output_variables end_build_tx_inputs = Variable.const_tx_inputs ∷ []
get_output_variables end_build_tx_outputs = Variable.const_tx_outputs ∷ []
get_output_variables take_txo = Variable.txo ∷ []
get_output_variables take_coinbase_txo = Variable.txo ∷ []
get_output_variables end_build_coinbase_tx = Variable.coinbase_tx ∷ []
get_output_variables build_coinbase_tx_input = Variable.coinbase_input ∷ []
get_output_variables end_build_coinbase_tx_outputs = Variable.const_tx_outputs ∷ []
get_output_variables end_block_transactions = Variable.const_block_transactions ∷ []
get_output_variables build_block =
    Variable.header ∷ Variable.block ∷ Variable.const_coinbase_tx ∷ []
get_output_variables end_build_inventory = Variable.const_inventory ∷ []
get_output_variables end_build_addr_list = Variable.const_addr_list ∷ []
get_output_variables end_build_addr_list_v2 = Variable.const_addr_list_v2 ∷ []
get_output_variables taproot_scripts_use_annex = Variable.scripts ∷ []
get_output_variables taproot_txo_use_annex = Variable.txo ∷ []
get_output_variables (build_taproot_tree _ _) = Variable.taproot_spend_info ∷ []
get_output_variables _ = []

unfoldable pub get_input_variables : Operation → List Variable
get_input_variables begin_build_block_txn = Variable.block ∷ []
get_input_variables add_tx_to_block_txn = Variable.mut_block_txn ∷ Variable.const_tx ∷ []
get_input_variables end_build_block_txn = Variable.mut_block_txn ∷ []
get_input_variables send_raw_message = Variable.connection ∷ Variable.msg_type ∷ Variable.bytes ∷ []
get_input_variables advance_time = Variable.time ∷ Variable.duration ∷ []
get_input_variables set_time = Variable.time ∷ []
get_input_variables build_raw_scripts =
    Variable.bytes ∷ Variable.bytes ∷ Variable.const_witness_stack ∷ []
get_input_variables build_pay_to_witness_script_hash =
    Variable.bytes ∷ Variable.const_witness_stack ∷ []
get_input_variables build_pay_to_pub_key = Variable.private_key ∷ Variable.sig_hash_flags ∷ []
get_input_variables build_pay_to_pub_key_hash = Variable.private_key ∷ Variable.sig_hash_flags ∷ []
get_input_variables build_pay_to_witness_pub_key_hash =
    Variable.private_key ∷ Variable.sig_hash_flags ∷ []
get_input_variables build_pay_to_script_hash = Variable.bytes ∷ Variable.const_witness_stack ∷ []
get_input_variables build_op_return_scripts = Variable.size ∷ []
get_input_variables build_pay_to_taproot = Variable.taproot_spend_info ∷ []
get_input_variables build_compact_block = Variable.block ∷ Variable.nonce ∷ []
get_input_variables begin_build_filter_load = Variable.const_filter_load ∷ []
get_input_variables add_tx_to_filter = Variable.mut_filter_load ∷ Variable.const_tx ∷ []
get_input_variables add_txo_to_filter = Variable.mut_filter_load ∷ Variable.txo ∷ []
get_input_variables end_build_filter_load = Variable.mut_filter_load ∷ []
get_input_variables build_filter_add_from_tx = Variable.const_tx ∷ []
get_input_variables build_filter_add_from_txo = Variable.txo ∷ []
get_input_variables end_witness_stack = Variable.mut_witness_stack ∷ []
get_input_variables add_witness = Variable.mut_witness_stack ∷ Variable.bytes ∷ []
get_input_variables begin_build_tx = Variable.tx_version ∷ Variable.lock_time ∷ []
get_input_variables end_build_tx =
    Variable.mut_tx ∷ Variable.const_tx_inputs ∷ Variable.const_tx_outputs ∷ []
get_input_variables end_build_tx_inputs = Variable.mut_tx_inputs ∷ []
get_input_variables begin_build_tx_outputs = Variable.const_tx_inputs ∷ []
get_input_variables end_build_tx_outputs = Variable.mut_tx_outputs ∷ []
get_input_variables add_tx_output =
    Variable.mut_tx_outputs ∷ Variable.scripts ∷ Variable.const_amount ∷ []
get_input_variables add_tx_input = Variable.mut_tx_inputs ∷ Variable.txo ∷ Variable.sequence ∷ []
get_input_variables take_txo = Variable.const_tx ∷ []
get_input_variables take_coinbase_txo = Variable.const_coinbase_tx ∷ []
get_input_variables begin_build_coinbase_tx = Variable.tx_version ∷ Variable.lock_time ∷ []
get_input_variables end_build_coinbase_tx =
    Variable.mut_tx ∷ Variable.coinbase_input ∷ Variable.const_tx_outputs ∷ []
get_input_variables build_coinbase_tx_input = Variable.sequence ∷ []
get_input_variables begin_build_coinbase_tx_outputs = Variable.coinbase_input ∷ []
get_input_variables end_build_coinbase_tx_outputs = Variable.mut_tx_outputs ∷ []
get_input_variables add_coinbase_tx_output =
    Variable.mut_tx_outputs ∷ Variable.scripts ∷ Variable.const_amount ∷ []
get_input_variables end_block_transactions = Variable.mut_block_transactions ∷ []
get_input_variables build_block =
    Variable.coinbase_tx ∷ Variable.header ∷ Variable.time ∷ Variable.block_version
    ∷ Variable.const_block_transactions ∷ []
get_input_variables add_tx = Variable.mut_block_transactions ∷ Variable.const_tx ∷ []
get_input_variables end_build_inventory = Variable.mut_inventory ∷ []
get_input_variables add_compact_block_inv = Variable.mut_inventory ∷ Variable.block ∷ []
get_input_variables add_txid_inv = Variable.mut_inventory ∷ Variable.const_tx ∷ []
get_input_variables add_txid_with_witness_inv = Variable.mut_inventory ∷ Variable.const_tx ∷ []
get_input_variables add_wtxid_inv = Variable.mut_inventory ∷ Variable.const_tx ∷ []
get_input_variables add_block_inv = Variable.mut_inventory ∷ Variable.block ∷ []
get_input_variables add_block_with_witness_inv = Variable.mut_inventory ∷ Variable.block ∷ []
get_input_variables add_filtered_block_inv = Variable.mut_inventory ∷ Variable.block ∷ []
get_input_variables end_build_addr_list = Variable.mut_addr_list ∷ []
get_input_variables add_addr = Variable.mut_addr_list ∷ Variable.addr_record ∷ []
get_input_variables end_build_addr_list_v2 = Variable.mut_addr_list_v2 ∷ []
get_input_variables add_addr_v2 = Variable.mut_addr_list_v2 ∷ Variable.addr_record ∷ []
get_input_variables send_get_data = Variable.connection ∷ Variable.const_inventory ∷ []
get_input_variables send_inv = Variable.connection ∷ Variable.const_inventory ∷ []
get_input_variables send_get_addr = Variable.connection ∷ []
get_input_variables send_addr = Variable.connection ∷ Variable.const_addr_list ∷ []
get_input_variables send_addr_v2 = Variable.connection ∷ Variable.const_addr_list_v2 ∷ []
get_input_variables send_tx = Variable.connection ∷ Variable.const_tx ∷ []
get_input_variables send_tx_no_wit = Variable.connection ∷ Variable.const_tx ∷ []
get_input_variables send_header = Variable.connection ∷ Variable.header ∷ []
get_input_variables send_block = Variable.connection ∷ Variable.block ∷ []
get_input_variables send_block_no_wit = Variable.connection ∷ Variable.block ∷ []
get_input_variables send_get_c_filters =
    Variable.connection ∷ Variable.compact_filter_type ∷ Variable.block_height ∷ Variable.header
    ∷ []
get_input_variables send_get_cf_headers =
    Variable.connection ∷ Variable.compact_filter_type ∷ Variable.block_height ∷ Variable.header
    ∷ []
get_input_variables send_get_cf_checkpt =
    Variable.connection ∷ Variable.compact_filter_type ∷ Variable.header ∷ []
get_input_variables send_filter_load = Variable.connection ∷ Variable.const_filter_load ∷ []
get_input_variables send_filter_add = Variable.connection ∷ Variable.filter_add ∷ []
get_input_variables send_filter_clear = Variable.connection ∷ []
get_input_variables send_compact_block = Variable.connection ∷ Variable.compact_block ∷ []
get_input_variables send_block_txn = Variable.connection ∷ Variable.const_block_txn ∷ []
get_input_variables taproot_scripts_use_annex = Variable.scripts ∷ Variable.taproot_annex ∷ []
get_input_variables taproot_txo_use_annex = Variable.txo ∷ Variable.taproot_annex ∷ []
get_input_variables _ = []

unfoldable pub get_inner_output_variables : Operation → List Variable
get_inner_output_variables (nop _ inner_outputs) = replicate inner_outputs Variable.nop
get_inner_output_variables begin_build_block_txn = Variable.mut_block_txn ∷ []
get_inner_output_variables begin_build_filter_load = Variable.mut_filter_load ∷ []
get_inner_output_variables begin_witness_stack = Variable.mut_witness_stack ∷ []
get_inner_output_variables begin_build_tx = Variable.mut_tx ∷ []
get_inner_output_variables begin_build_tx_inputs = Variable.mut_tx_inputs ∷ []
get_inner_output_variables begin_build_tx_outputs = Variable.mut_tx_outputs ∷ []
get_inner_output_variables begin_build_coinbase_tx = Variable.mut_tx ∷ []
get_inner_output_variables begin_build_coinbase_tx_outputs = Variable.mut_tx_outputs ∷ []
get_inner_output_variables begin_block_transactions = Variable.mut_block_transactions ∷ []
get_inner_output_variables begin_build_inventory = Variable.mut_inventory ∷ []
get_inner_output_variables begin_build_addr_list = Variable.mut_addr_list ∷ []
get_inner_output_variables begin_build_addr_list_v2 = Variable.mut_addr_list_v2 ∷ []
get_inner_output_variables _ = []

unfoldable pub num_inner_outputs : Operation → ℕ
num_inner_outputs op = length (get_inner_output_variables op)

unfoldable pub num_outputs : Operation → ℕ
num_outputs op = length (get_output_variables op)

unfoldable pub num_inputs : Operation → ℕ
num_inputs op = length (get_input_variables op)
