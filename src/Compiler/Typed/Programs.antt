-- ===== src/Compiler/Typed/Programs.antt =====
-- Programs that the builder accepts are compiled without a failed lookup: compiler.rs of workloads/
-- ir-workload/fuzzamoto-ir/src against builder.rs.
use bitcoin_antithesis.Prelude.{ℕ, List}
use bitcoin_antithesis.Operation.{Operation, nop}
use bitcoin_antithesis.Operation.Signature.{get_input_variables}
use bitcoin_antithesis.Compiler.Bitcoin.{Library}
use bitcoin_antithesis.Compiler.Dispatch.{compile_instruction}
use bitcoin_antithesis.Compiler.Typed.{Types, HasTypes, extend, compiled_types}
use bitcoin_antithesis.Compiler.Typed.Handlers.{
  handle_load_operations-Types, handle_witness_operations-Types, handle_time_operations-Types,
  handle_probe_operations-Types, handle_inventory_operations-Types,
  handle_bip152_blocktxn_operations-Types, handle_compact_block_building_operations-Types,
  handle_message_sending_operations-Types,
}
use bitcoin_antithesis.Compiler.Typed.Lists.{
  handle_addr_operations-Types, handle_filter_building_operations-Types,
}
use bitcoin_antithesis.Compiler.Typed.Scripts.{
  handle_taproot_conversions-Types, handle_build_taproot_tree-Types,
  handle_script_building_operations-Types,
}
use bitcoin_antithesis.Compiler.Typed.Transactions.{
  handle_transaction_building_operations-Types, handle_coinbase_building_operations-Types,
}
use bitcoin_antithesis.Compiler.Typed.Blocks.{handle_block_building_operations-Types}

-- An instruction on inputs of its types makes variables of its types, or fails for another reason.
pub compile_instruction-Types :
    {Γ : List ℕ} (lib : Library) (op : Operation) (inputs : List ℕ)
    → HasTypes Γ inputs (get_input_variables op)
    → Types Γ (compile_instruction lib op inputs) (extend Γ (compiled_types op))
unfolding compile_instruction
compile_instruction-Types lib (nop a b) inputs h = handle_load_operations-Types (nop a b) inputs h
compile_instruction-Types lib _ inputs h = search (
  handle_load_operations-Types, handle_witness_operations-Types, handle_time_operations-Types,
  handle_probe_operations-Types, handle_inventory_operations-Types,
  handle_bip152_blocktxn_operations-Types, handle_compact_block_building_operations-Types,
  handle_message_sending_operations-Types, handle_addr_operations-Types,
  handle_filter_building_operations-Types, handle_taproot_conversions-Types,
  handle_build_taproot_tree-Types, handle_script_building_operations-Types,
  handle_transaction_building_operations-Types, handle_coinbase_building_operations-Types,
  handle_block_building_operations-Types,
)
