-- ===== src/Instruction/Nop.antt =====
-- What nopping keeps, and which instructions it is offered for.
use bitcoin_antithesis.Prelude.{
  ℕ, zero, suc, ◌≢◌, ◌≡◌, refl, ap, true, false, length, replicate, arith, none, some,
}
use bitcoin_antithesis.Partial.{done}
use bitcoin_antithesis.Variable.{Variable}
use bitcoin_antithesis.Operation.{
  Operation, nop, begin_build_tx, begin_build_tx_inputs, begin_build_tx_outputs,
  begin_witness_stack, begin_build_inventory, begin_build_addr_list, begin_build_addr_list_v2,
  begin_block_transactions, begin_build_filter_load, begin_build_coinbase_tx, begin_build_block_txn,
  begin_build_coinbase_tx_outputs,
}
use bitcoin_antithesis.Operation.Blocks.{is_block_begin, is_block_end}
use bitcoin_antithesis.Operation.Signature.{
  get_input_variables, get_output_variables, get_inner_output_variables, num_inputs, num_outputs,
  num_inner_outputs,
}
use bitcoin_antithesis.Instruction.{
  Instruction, InstructionContext, may_nop, is_noppable, context_of,
  entered_context_after_execution, nop_instruction, global, build_tx, build_tx_inputs,
  build_tx_outputs, witness_stack, inventory, addr_list, addr_list_v2, block_transactions,
  build_filter, build_coinbase_tx, build_coinbase_tx_outputs, build_block_txn,
}

length-replicate {ℓ} : {A : Type ℓ} (n : ℕ) (a : A) → length (replicate n a) ≡ n
length-replicate zero a = refl
length-replicate (suc n) a = ap suc (length-replicate n a)

-- A nopped instruction takes no input, keeps the number of outputs and of inner outputs, and opens
-- and closes no block.
pub nop_instruction-keeps :
    (i : Instruction)
    → (num_outputs (nop_instruction i).operation ≡ num_outputs i.operation)
      × (num_inner_outputs (nop_instruction i).operation ≡ num_inner_outputs i.operation)
      × (length (nop_instruction i).inputs ≡ num_inputs (nop_instruction i).operation)
      × (is_block_begin (nop_instruction i).operation ≡ false)
      × (is_block_end (nop_instruction i).operation ≡ false)
unfolding nop_instruction num_outputs num_inner_outputs num_inputs get_input_variables
    get_output_variables get_inner_output_variables is_block_begin is_block_end
nop_instruction-keeps i = (
  length-replicate (num_outputs i.operation) Variable.nop,
  length-replicate (num_inner_outputs i.operation) Variable.nop,
  refl,
  refl,
  refl,
)

may_nop-no_block :
    (op : Operation) → may_nop op ≡ true → (is_block_begin op ≡ false) × (is_block_end op ≡ false)
unfolding may_nop is_block_begin is_block_end
may_nop-no_block (nop _ _) h = (refl, refl)
may_nop-no_block _ h = ground arith

-- An instruction that may be nopped neither opens nor closes a block.
pub is_noppable-no_block :
    (i : Instruction)
    → is_noppable i ≡ true
    → (is_block_begin i.operation ≡ false) × (is_block_end i.operation ≡ false)
unfolding is_noppable
is_noppable-no_block i h = may_nop-no_block i.operation h

-- A block beginning enters a context of its own, and other operations enter none.
abbrev pub EntersContext : Operation → Type 0
EntersContext op =
    (is_block_begin op ≡ true
      → (c : InstructionContext) × (entered_context_after_execution op ≡ done (some c))
        × (c ≢ global))
    × (is_block_begin op ≡ false → entered_context_after_execution op ≡ done none)

-- A block beginning enters a context, and it is not the global one; any other operation enters
-- none. The match never reaches its `unimplemented!`.
pub entered_context-EntersContext : (op : Operation) → EntersContext op
unfolding entered_context_after_execution context_of is_block_begin
entered_context-EntersContext (nop _ _) = ((λ h. cc), (λ h. refl))
entered_context-EntersContext begin_build_tx = ((λ h. (build_tx, refl, cc)), (λ h. cc))
entered_context-EntersContext begin_build_tx_inputs =
    ((λ h. (build_tx_inputs, refl, cc)), (λ h. cc))
entered_context-EntersContext begin_build_tx_outputs =
    ((λ h. (build_tx_outputs, refl, cc)), (λ h. cc))
entered_context-EntersContext begin_witness_stack = ((λ h. (witness_stack, refl, cc)), (λ h. cc))
entered_context-EntersContext begin_build_inventory = ((λ h. (inventory, refl, cc)), (λ h. cc))
entered_context-EntersContext begin_build_addr_list = ((λ h. (addr_list, refl, cc)), (λ h. cc))
entered_context-EntersContext begin_build_addr_list_v2 =
    ((λ h. (addr_list_v2, refl, cc)), (λ h. cc))
entered_context-EntersContext begin_block_transactions =
    ((λ h. (block_transactions, refl, cc)), (λ h. cc))
entered_context-EntersContext begin_build_filter_load = ((λ h. (build_filter, refl, cc)), (λ h. cc))
entered_context-EntersContext begin_build_coinbase_tx =
    ((λ h. (build_coinbase_tx, refl, cc)), (λ h. cc))
entered_context-EntersContext begin_build_block_txn =
    ((λ h. (build_block_txn, refl, cc)), (λ h. cc))
entered_context-EntersContext begin_build_coinbase_tx_outputs =
    ((λ h. (build_coinbase_tx_outputs, refl, cc)), (λ h. cc))
entered_context-EntersContext _ = ((λ h. cc), (λ h. refl))
