-- ===== src/Compiler/Filters.antt =====
-- Witness stacks, bloom filters and compact blocks: handle_witness_operations,
-- handle_filter_building_operations and handle_compact_block_building_operations of workloads/
-- ir-workload/fuzzamoto-ir/src/compiler.rs.
use bitcoin_antithesis.Prelude.{ℕ, List, [], ◌∷◌, ◌++◌}
use bitcoin_antithesis.Partial.{Partial, done}
use bitcoin_antithesis.Bloom.{filter_insert}
use bitcoin_antithesis.Operation.{
  Operation, begin_witness_stack, add_witness, end_witness_stack, begin_build_filter_load,
  add_tx_to_filter, add_txo_to_filter, end_build_filter_load, build_filter_add_from_tx,
  build_filter_add_from_txo, build_compact_block,
}
use bitcoin_antithesis.Compiler.Bitcoin.{Bytes, Library}
use bitcoin_antithesis.Compiler.Values.{Witness, no_witness}
use bitcoin_antithesis.Compiler.Types.Numbers.{as_u64}
use bitcoin_antithesis.Compiler.Types.Plain.{as_bytes}
use bitcoin_antithesis.Compiler.Types.Network.{as_filter_load, as_filter_add, as_compact_block}
use bitcoin_antithesis.Compiler.Types.Coins.{as_txo, as_witness, as_tx}
use bitcoin_antithesis.Compiler.Types.Blocks.{as_block}
use bitcoin_antithesis.Compiler.State.{
  Run, ◌>>=◌, pure, panics, unwrap, input_index, get_variable, get_input, write_variable,
  update_input, append_variable,
}

abbrev pub push_stack : Bytes → Witness → Witness
push_stack b w = record w { stack = w.stack ++ b ∷ [] }

unfoldable pub handle_witness_operations : Operation → List ℕ → Run (Unit {0})
handle_witness_operations begin_witness_stack inputs = append_variable as_witness no_witness
handle_witness_operations add_witness inputs = do
  b ← get_input as_bytes inputs 1
  update_input as_witness inputs 0 (push_stack b)
handle_witness_operations end_witness_stack inputs = do
  w ← get_input as_witness inputs 0
  append_variable as_witness w
handle_witness_operations _ inputs = panics

unfoldable pub from_partial : {A : Type 0} → Partial A → Run A
from_partial Partial.panics = panics
from_partial (done a) = pure a

module _ (lib : Library) where
  -- The filter that the reference points to takes the key.
  unfoldable pub insert_key : List ℕ → Bytes → Run (Unit {0})
  insert_key inputs key = do
    i ← input_index inputs 0
    f ← get_variable as_filter_load i
    bits ← from_partial (filter_insert lib.murmur3 f.filter f.hash_funcs key)
    write_variable as_filter_load i (record f { filter = bits })

  unfoldable pub handle_filter_building_operations : Operation → List ℕ → Run (Unit {0})
  handle_filter_building_operations begin_build_filter_load inputs = do
    f ← get_input as_filter_load inputs 0
    append_variable as_filter_load f
  handle_filter_building_operations add_tx_to_filter inputs = do
    t ← get_input as_tx inputs 1
    insert_key inputs t.id
  handle_filter_building_operations add_txo_to_filter inputs = do
    t ← get_input as_txo inputs 1
    insert_key inputs t.prev_out.0
  handle_filter_building_operations end_build_filter_load inputs = do
    f ← get_input as_filter_load inputs 0
    append_variable as_filter_load f
  handle_filter_building_operations build_filter_add_from_tx inputs = do
    t ← get_input as_tx inputs 0
    append_variable as_filter_add t.id
  handle_filter_building_operations build_filter_add_from_txo inputs = do
    t ← get_input as_txo inputs 0
    append_variable as_filter_add t.scripts.script_pubkey
  handle_filter_building_operations _ inputs = panics

  unfoldable pub handle_compact_block_building_operations : Operation → List ℕ → Run (Unit {0})
  handle_compact_block_building_operations build_compact_block inputs = do
    b ← get_input as_block inputs 0
    nonce ← get_input as_u64 inputs 1
    header_and_shortids ← unwrap (lib.short_ids b nonce)
    append_variable as_compact_block header_and_shortids
  handle_compact_block_building_operations _ inputs = panics
