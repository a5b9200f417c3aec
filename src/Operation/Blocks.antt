-- ===== src/Operation/Blocks.antt =====
-- Which operations open and close blocks: workloads/ir-workload/fuzzamoto-ir/src/operation.rs.
use bitcoin_antithesis.Prelude.{Bool, true, false, if◌then◌else◌}
use bitcoin_antithesis.Operation.{Operation}
use bitcoin_antithesis.Operation.{
  begin_build_tx, begin_build_inventory, begin_build_addr_list, begin_build_addr_list_v2,
  begin_build_tx_inputs, begin_build_tx_outputs, begin_witness_stack, begin_block_transactions,
  begin_build_filter_load, begin_build_coinbase_tx, begin_build_block_txn,
  begin_build_coinbase_tx_outputs, end_build_tx, end_build_tx_inputs, end_build_tx_outputs,
  end_build_inventory, end_build_addr_list, end_build_addr_list_v2, end_witness_stack,
  end_block_transactions, end_build_filter_load, end_build_coinbase_tx, end_build_block_txn,
  end_build_coinbase_tx_outputs,
}

unfoldable pub is_block_begin : Operation → Bool
is_block_begin begin_build_tx = true
is_block_begin begin_build_inventory = true
is_block_begin begin_build_addr_list = true
is_block_begin begin_build_addr_list_v2 = true
is_block_begin begin_build_tx_inputs = true
is_block_begin begin_build_tx_outputs = true
is_block_begin begin_witness_stack = true
is_block_begin begin_block_transactions = true
is_block_begin begin_build_filter_load = true
is_block_begin begin_build_coinbase_tx = true
is_block_begin begin_build_block_txn = true
is_block_begin begin_build_coinbase_tx_outputs = true
is_block_begin _ = false

unfoldable pub is_block_end : Operation → Bool
is_block_end end_build_tx = true
is_block_end end_build_tx_inputs = true
is_block_end end_build_tx_outputs = true
is_block_end end_build_inventory = true
is_block_end end_build_addr_list = true
is_block_end end_build_addr_list_v2 = true
is_block_end end_witness_stack = true
is_block_end end_block_transactions = true
is_block_end end_build_filter_load = true
is_block_end end_build_coinbase_tx = true
is_block_end end_build_block_txn = true
is_block_end end_build_coinbase_tx_outputs = true
is_block_end _ = false

unfoldable pub allow_insertion_in_block : Operation → Bool
allow_insertion_in_block op = if is_block_begin op then false else true

-- `end.is_matching_block_begin(begin)`.
unfoldable pub is_matching_block_begin : Operation → Operation → Bool
is_matching_block_begin end_build_tx begin_build_tx = true
is_matching_block_begin end_build_tx_inputs begin_build_tx_inputs = true
is_matching_block_begin end_build_tx_outputs begin_build_tx_outputs = true
is_matching_block_begin end_build_inventory begin_build_inventory = true
is_matching_block_begin end_build_addr_list begin_build_addr_list = true
is_matching_block_begin end_build_addr_list_v2 begin_build_addr_list_v2 = true
is_matching_block_begin end_witness_stack begin_witness_stack = true
is_matching_block_begin end_block_transactions begin_block_transactions = true
is_matching_block_begin end_build_filter_load begin_build_filter_load = true
is_matching_block_begin end_build_coinbase_tx begin_build_coinbase_tx = true
is_matching_block_begin end_build_coinbase_tx_outputs begin_build_coinbase_tx_outputs = true
is_matching_block_begin end_build_block_txn begin_build_block_txn = true
is_matching_block_begin _ _ = false
