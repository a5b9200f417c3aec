-- ===== src/Instruction.antt =====
-- Instructions: workloads/ir-workload/fuzzamoto-ir/src/instruction.rs.
pub mod Nop
use bitcoin_antithesis.Prelude.{
  ℕ, Bool, true, false, List, [], ◌==◌, ltb, if◌then◌else◌, length, Option, none, some,
}
use bitcoin_antithesis.Partial.{Partial, done, panics}
use bitcoin_antithesis.Operation.{Operation}
use bitcoin_antithesis.Operation.{
  nop, load_bytes, load_node, load_connection, load_connection_type, load_duration, load_addr,
  load_time, load_amount, load_size, load_tx_version, load_block_version, load_lock_time,
  load_sequence, load_block_height, load_private_key, load_sig_hash_flags, load_taproot_annex,
  begin_build_block_txn, end_build_block_txn, build_pay_to_pub_key, build_pay_to_pub_key_hash,
  build_pay_to_witness_pub_key_hash, build_pay_to_taproot, build_compact_block,
  begin_build_filter_load, end_build_filter_load, begin_witness_stack, end_witness_stack,
  begin_build_tx, end_build_tx, begin_build_tx_inputs, end_build_tx_inputs, begin_build_tx_outputs,
  end_build_tx_outputs, take_txo, take_coinbase_txo, begin_build_coinbase_tx, end_build_coinbase_tx,
  begin_build_coinbase_tx_outputs, end_build_coinbase_tx_outputs, begin_block_transactions,
  end_block_transactions, begin_build_inventory, end_build_inventory, add_compact_block_inv,
  add_txid_inv, add_txid_with_witness_inv, add_wtxid_inv, add_block_inv, add_block_with_witness_inv,
  add_filtered_block_inv, begin_build_addr_list, end_build_addr_list, begin_build_addr_list_v2,
  end_build_addr_list_v2, add_addr_v2, probe, send_tx, send_tx_no_wit, taproot_scripts_use_annex,
  taproot_txo_use_annex,
}
use bitcoin_antithesis.Operation.Blocks.{is_block_begin}
use bitcoin_antithesis.Operation.Signature.{num_inputs, num_outputs, num_inner_outputs}

pub record Instruction : Type 0 where
  pub inputs : List ℕ
  pub operation : Operation

pub data InstructionContext : Type 0 where
  global : InstructionContext
  build_tx : InstructionContext
  build_tx_inputs : InstructionContext
  build_tx_outputs : InstructionContext
  witness_stack : InstructionContext
  inventory : InstructionContext
  addr_list : InstructionContext
  addr_list_v2 : InstructionContext
  block_transactions : InstructionContext
  build_filter : InstructionContext
  build_coinbase_tx : InstructionContext
  build_coinbase_tx_outputs : InstructionContext
  build_block_txn : InstructionContext

unfoldable pub fixed_inputs : Operation → Bool
fixed_inputs end_build_tx = true
fixed_inputs begin_build_tx_inputs = true
fixed_inputs begin_build_tx_outputs = true
fixed_inputs end_build_tx_inputs = true
fixed_inputs end_build_tx_outputs = true
fixed_inputs begin_build_inventory = true
fixed_inputs end_build_inventory = true
fixed_inputs end_build_addr_list = true
fixed_inputs end_build_addr_list_v2 = true
fixed_inputs begin_block_transactions = true
fixed_inputs end_block_transactions = true
fixed_inputs take_txo = true
fixed_inputs take_coinbase_txo = true
fixed_inputs begin_build_coinbase_tx = true
fixed_inputs end_build_coinbase_tx = true
fixed_inputs begin_build_coinbase_tx_outputs = true
fixed_inputs end_build_coinbase_tx_outputs = true
fixed_inputs _ = false

-- The leading `assert!` makes the call panic on a wrong number of inputs.
unfoldable pub is_input_mutable : Instruction → Partial Bool
unfolding fixed_inputs
is_input_mutable i =
    if length i.inputs == num_inputs i.operation
    then done (if fixed_inputs i.operation then false else ltb 0 (length i.inputs))
    else panics

unfoldable pub is_mutable : Operation → Bool
is_mutable (load_amount _) = true
is_mutable (load_tx_version _) = true
is_mutable (load_sequence _) = true
is_mutable (load_lock_time _) = true
is_mutable (load_block_version _) = true
is_mutable (load_node _) = true
is_mutable (load_connection _) = true
is_mutable (load_connection_type _) = true
is_mutable (load_duration _) = true
is_mutable (load_addr _) = true
is_mutable (load_time _) = true
is_mutable (load_size _) = true
is_mutable (load_private_key _) = true
is_mutable (load_sig_hash_flags _) = true
is_mutable build_pay_to_pub_key = true
is_mutable build_pay_to_pub_key_hash = true
is_mutable build_pay_to_witness_pub_key_hash = true
is_mutable (load_block_height _) = true
is_mutable add_txid_with_witness_inv = true
is_mutable add_txid_inv = true
is_mutable add_wtxid_inv = true
is_mutable add_compact_block_inv = true
is_mutable add_block_inv = true
is_mutable add_block_with_witness_inv = true
is_mutable add_filtered_block_inv = true
is_mutable send_tx_no_wit = true
is_mutable send_tx = true
is_mutable add_addr_v2 = true
is_mutable (load_bytes _) = true
is_mutable (load_taproot_annex _) = true
is_mutable build_pay_to_taproot = true
is_mutable taproot_scripts_use_annex = true
is_mutable taproot_txo_use_annex = true
is_mutable _ = false

unfoldable pub is_operation_mutable : Instruction → Bool
unfolding is_mutable
is_operation_mutable i = is_mutable i.operation

unfoldable pub may_nop : Operation → Bool
may_nop (nop _ _) = false
may_nop begin_build_tx = false
may_nop end_build_tx = false
may_nop begin_build_tx_inputs = false
may_nop end_build_tx_inputs = false
may_nop begin_build_tx_outputs = false
may_nop end_build_tx_outputs = false
may_nop begin_witness_stack = false
may_nop begin_build_inventory = false
may_nop end_build_inventory = false
may_nop begin_build_addr_list = false
may_nop end_build_addr_list = false
may_nop begin_build_addr_list_v2 = false
may_nop end_build_addr_list_v2 = false
may_nop end_witness_stack = false
may_nop end_block_transactions = false
may_nop begin_block_transactions = false
may_nop begin_build_filter_load = false
may_nop end_build_filter_load = false
may_nop build_compact_block = false
may_nop begin_build_coinbase_tx = false
may_nop end_build_coinbase_tx = false
may_nop begin_build_coinbase_tx_outputs = false
may_nop end_build_coinbase_tx_outputs = false
may_nop begin_build_block_txn = false
may_nop end_build_block_txn = false
may_nop probe = false
may_nop _ = true

unfoldable pub is_noppable : Instruction → Bool
unfolding may_nop
is_noppable i = may_nop i.operation

-- The arms of the inner match, whose last one is `unimplemented!`.
unfoldable pub context_of : Operation → Partial (Option InstructionContext)
context_of begin_build_tx = done (some build_tx)
context_of begin_build_tx_inputs = done (some build_tx_inputs)
context_of begin_build_tx_outputs = done (some build_tx_outputs)
context_of begin_witness_stack = done (some witness_stack)
context_of begin_build_inventory = done (some inventory)
context_of begin_build_addr_list = done (some addr_list)
context_of begin_build_addr_list_v2 = done (some addr_list_v2)
context_of begin_block_transactions = done (some block_transactions)
context_of begin_build_filter_load = done (some build_filter)
context_of begin_build_coinbase_tx = done (some build_coinbase_tx)
context_of begin_build_block_txn = done (some build_block_txn)
context_of begin_build_coinbase_tx_outputs = done (some build_coinbase_tx_outputs)
context_of _ = panics

unfoldable pub entered_context_after_execution : Operation → Partial (Option InstructionContext)
unfolding context_of
entered_context_after_execution op = if is_block_begin op then context_of op else done none

unfoldable pub nop_instruction : Instruction → Instruction
nop_instruction i = record {
  inputs = [];
  operation = nop (num_outputs i.operation) (num_inner_outputs i.operation);
}
