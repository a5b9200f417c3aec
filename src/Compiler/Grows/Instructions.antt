-- ===== src/Compiler/Grows/Instructions.antt =====
-- An instruction only adds to the records of the compiler, and a probe adds neither a variable nor an
-- action that counts: compiler.rs of workloads/ir-workload/fuzzamoto-ir/src.
use bitcoin_antithesis.Prelude.{ℕ, ◌≡◌, refl, true, List, [], ◌∷◌, not, arith}
use bitcoin_antithesis.Operation.{Operation, nop, probe}
use bitcoin_antithesis.Compiler.Bitcoin.{Library}
use bitcoin_antithesis.Compiler.State.{CompiledAction, Compiler, emit}
use bitcoin_antithesis.Compiler.Dispatch.{compile_instruction}
use bitcoin_antithesis.Compiler.Sending.{handle_probe_operations}
use bitcoin_antithesis.Compiler.Compile.{is_probe, is_probe_action, count_if-append, actions_of}
use bitcoin_antithesis.Compiler.Grows.{Growing}
use bitcoin_antithesis.Compiler.Grows.Handlers.{
  handle_load_operations-Growing, handle_witness_operations-Growing, handle_time_operations-Growing,
  handle_probe_operations-Growing, handle_inventory_operations-Growing,
  handle_bip152_blocktxn_operations-Growing, handle_compact_block_building_operations-Growing,
  handle_message_sending_operations-Growing, handle_addr_operations-Growing,
  handle_filter_building_operations-Growing,
}
use bitcoin_antithesis.Compiler.Grows.Chain.{
  handle_taproot_conversions-Growing, handle_build_taproot_tree-Growing,
  handle_script_building_operations-Growing, handle_transaction_building_operations-Growing,
  handle_coinbase_building_operations-Growing,
}
use bitcoin_antithesis.Compiler.Grows.Blocks.{handle_block_building_operations-Growing}

ruleset handlers = (
  handle_load_operations-Growing, handle_witness_operations-Growing, handle_time_operations-Growing,
  handle_probe_operations-Growing, handle_inventory_operations-Growing,
  handle_bip152_blocktxn_operations-Growing, handle_compact_block_building_operations-Growing,
  handle_message_sending_operations-Growing, handle_addr_operations-Growing,
  handle_filter_building_operations-Growing, handle_taproot_conversions-Growing,
  handle_build_taproot_tree-Growing, handle_script_building_operations-Growing,
  handle_transaction_building_operations-Growing, handle_coinbase_building_operations-Growing,
  handle_block_building_operations-Growing,
)

pub compile_instruction-Growing :
    (lib : Library) (op : Operation) (inputs : List ℕ) → Growing (compile_instruction lib op inputs)
unfolding compile_instruction
compile_instruction-Growing lib (nop a b) inputs = search handlers
compile_instruction-Growing lib _ inputs = search handlers

pub compile_instruction-probe :
    (lib : Library) (op : Operation) (inputs : List ℕ) (s : Compiler)
    → is_probe op ≡ true
    → (let t = (compile_instruction lib op inputs s).1 in
        (t.output.metadata ≡ s.output.metadata) × (actions_of t ≡ actions_of s))
unfolding compile_instruction handle_probe_operations emit
compile_instruction-probe lib probe inputs s h = (
  refl,
  omega (
    arith,
    count_if-append (λ a. not (is_probe_action a)) s.output.actions (CompiledAction.probe ∷ []),
  ),
)
compile_instruction-probe lib _ inputs s h = cc
