-- ===== src/Tests/Nops.antt =====
-- Nopped instructions and entered contexts, on single operations.
use bitcoin_antithesis.Prelude.{◌≡◌, refl, false, [], ◌∷◌, length}
use bitcoin_antithesis.Operation.{begin_build_inventory, add_txid_inv}
use bitcoin_antithesis.Operation.Blocks.{is_block_begin, is_block_end}
use bitcoin_antithesis.Operation.Signature.{num_inputs, num_outputs, num_inner_outputs}
use bitcoin_antithesis.Instruction.{nop_instruction, is_noppable, may_nop}
use bitcoin_antithesis.Instruction.Nop.{
  nop_instruction-keeps, is_noppable-no_block, EntersContext, entered_context-EntersContext,
}
use bitcoin_antithesis.Tests.{instr}

entered_context-EntersContext_example : EntersContext begin_build_inventory
entered_context-EntersContext_example = entered_context-EntersContext begin_build_inventory

nop_instruction-keeps_example :
    (num_outputs (nop_instruction (instr [] begin_build_inventory)).operation
      ≡ num_outputs begin_build_inventory)
    × (num_inner_outputs (nop_instruction (instr [] begin_build_inventory)).operation
        ≡ num_inner_outputs begin_build_inventory)
    × (length (nop_instruction (instr [] begin_build_inventory)).inputs
        ≡ num_inputs (nop_instruction (instr [] begin_build_inventory)).operation)
    × (is_block_begin (nop_instruction (instr [] begin_build_inventory)).operation ≡ false)
    × (is_block_end (nop_instruction (instr [] begin_build_inventory)).operation ≡ false)
nop_instruction-keeps_example = nop_instruction-keeps (instr [] begin_build_inventory)

is_noppable-no_block_example :
    (is_block_begin add_txid_inv ≡ false) × (is_block_end add_txid_inv ≡ false)
unfolding is_noppable may_nop
is_noppable-no_block_example = is_noppable-no_block (instr (1 ∷ 3 ∷ []) add_txid_inv) refl
