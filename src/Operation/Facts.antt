-- ===== src/Operation/Facts.antt =====
-- What the tables say of blocks: which variables the beginnings, the ends and the other operations
-- take and make. workloads/ir-workload/fuzzamoto-ir/src/operation.rs.
use bitcoin_antithesis.Prelude.{
  ℕ, zero, suc, ◌≡◌, refl, true, false, List, ◌∷◌, replicate, arith, All,
}
use bitcoin_antithesis.Variable.{Variable, is_block_local}
use bitcoin_antithesis.Operation.{Operation}
use bitcoin_antithesis.Operation.{
  nop, end_build_tx, end_build_tx_inputs, end_build_tx_outputs, end_build_inventory,
  end_build_addr_list, end_build_addr_list_v2, end_witness_stack, end_block_transactions,
  end_build_filter_load, end_build_coinbase_tx, end_build_block_txn, end_build_coinbase_tx_outputs,
}
use bitcoin_antithesis.Operation.Blocks.{is_block_begin, is_block_end}
use bitcoin_antithesis.Operation.Signature.{
  get_input_variables, get_output_variables, get_inner_output_variables,
}

abbrev pub NotLocal : Variable → Type 0
NotLocal v = is_block_local v ≡ false

replicate-NotLocal : (n : ℕ) → All NotLocal (replicate n Variable.nop)
unfolding is_block_local
replicate-NotLocal zero = tt
replicate-NotLocal (suc n) = (refl, replicate-NotLocal n)

-- What an operation makes outside its block is never a block's own variable.
pub outputs-NotLocal : (op : Operation) → All NotLocal (get_output_variables op)
unfolding get_output_variables is_block_local
outputs-NotLocal (nop outputs _) = replicate-NotLocal outputs
outputs-NotLocal _ = search (tt, refl)

-- Only the beginning of a block, and a nop, make inner variables.
pub inner-NotLocal :
    (op : Operation) → is_block_begin op ≡ false → All NotLocal (get_inner_output_variables op)
unfolding get_inner_output_variables is_block_begin
inner-NotLocal (nop _ inner) h = replicate-NotLocal inner
inner-NotLocal _ h = ground arith

-- The end of a block takes a variable of the block first.
pub block_end-input :
    (op : Operation)
    → is_block_end op ≡ true
    → (v : Variable) × (vs : List Variable) × (get_input_variables op ≡ v ∷ vs)
      × (is_block_local v ≡ true)
unfolding get_input_variables is_block_end is_block_local
block_end-input (nop _ _) h = cc
block_end-input end_build_tx h = (_, _, refl, refl)
block_end-input end_build_tx_inputs h = (_, _, refl, refl)
block_end-input end_build_tx_outputs h = (_, _, refl, refl)
block_end-input end_build_inventory h = (_, _, refl, refl)
block_end-input end_build_addr_list h = (_, _, refl, refl)
block_end-input end_build_addr_list_v2 h = (_, _, refl, refl)
block_end-input end_witness_stack h = (_, _, refl, refl)
block_end-input end_block_transactions h = (_, _, refl, refl)
block_end-input end_build_filter_load h = (_, _, refl, refl)
block_end-input end_build_coinbase_tx h = (_, _, refl, refl)
block_end-input end_build_block_txn h = (_, _, refl, refl)
block_end-input end_build_coinbase_tx_outputs h = (_, _, refl, refl)
block_end-input _ h = cc

-- No operation both begins and ends a block.
pub begin-not_end : (op : Operation) → is_block_begin op ≡ true → is_block_end op ≡ false
unfolding is_block_begin is_block_end
begin-not_end (nop _ _) h = refl
begin-not_end _ h = ground arith
