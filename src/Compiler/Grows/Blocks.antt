-- ===== src/Compiler/Grows/Blocks.antt =====
-- The building of blocks only adds to the records: compiler.rs of workloads/ir-workload/
-- fuzzamoto-ir/src.
use bitcoin_antithesis.Prelude.{ℕ, refl, List, ◌^◌}
use bitcoin_antithesis.Operation.{Operation, nop}
use bitcoin_antithesis.Compiler.Bitcoin.{Library, Block, BlockHeader, Transaction}
use bitcoin_antithesis.Compiler.Values.{CoinbaseTx, Header}
use bitcoin_antithesis.Compiler.Mining.{fixup_witness, fixup_commitments, fixup_proof_of_work, mine}
use bitcoin_antithesis.Compiler.Blocks.{
  set_height, record_block, get_timestamp_input, append_block, build_block_from,
  handle_block_building_operations,
}
use bitcoin_antithesis.Compiler.Grows.{
  Growing, growing, on_option-Growing, diverges-Growing, pure-Growing, update_metadata-Growing,
}
use bitcoin_antithesis.Compiler.Grows.Chain.{coinbase_txos-Growing}

record_block-Growing :
    (lib : Library) (h : BlockHeader) (i j : ℕ) (vars : List ℕ)
    → Growing (record_block lib h i j vars)
unfolding record_block
record_block-Growing lib h i j vars = update_metadata-Growing _ λ m. (refl, refl, refl)

module _ (lib : Library) where
  fixup_commitments-Growing : (b : Block) → Growing (fixup_commitments lib b)
  unfolding fixup_commitments fixup_witness
  fixup_commitments-Growing b = search growing depth 9

  fixup_proof_of_work-Growing : (h : BlockHeader) → Growing (fixup_proof_of_work lib h)
  unfolding fixup_proof_of_work
  fixup_proof_of_work-Growing h =
      on_option-Growing (mine lib (2 ^ 32) h) _ _ diverges-Growing pure-Growing

  set_height-Growing : (h : Header) (t : Transaction) → Growing (set_height lib h t)
  unfolding set_height
  set_height-Growing h t = search growing

  get_timestamp_input-Growing :
      (inputs : List ℕ) (i : ℕ) → Growing (get_timestamp_input lib inputs i)
  unfolding get_timestamp_input
  get_timestamp_input-Growing inputs i = search growing

  append_block-Growing :
      (h : Header) (coinbase : CoinbaseTx) (t : Transaction) (b : Block) (vars : List ℕ)
      → Growing (append_block lib h coinbase t b vars)
  unfolding append_block
  append_block-Growing h coinbase t b vars =
      search (growing, coinbase_txos-Growing, record_block-Growing) depth 12

  build_block_from-Growing : (inputs : List ℕ) → Growing (build_block_from lib inputs)
  unfolding build_block_from
  build_block_from-Growing inputs =
      search
        (
          growing, get_timestamp_input-Growing, set_height-Growing, fixup_commitments-Growing,
          fixup_proof_of_work-Growing, append_block-Growing,
        )
        depth 20

  pub handle_block_building_operations-Growing :
      (op : Operation) (inputs : List ℕ) → Growing (handle_block_building_operations lib op inputs)
  unfolding handle_block_building_operations
  handle_block_building_operations-Growing (nop a b) inputs = search growing
  handle_block_building_operations-Growing _ inputs = search (growing, build_block_from-Growing)
