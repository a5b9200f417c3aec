-- ===== src/Compiler/Grows/Chain.antt =====
-- The handlers of scripts, transactions and blocks only add to the records: compiler.rs of
-- workloads/ir-workload/fuzzamoto-ir/src.
use bitcoin_antithesis.Prelude.{ℕ, suc, List, [], ◌∷◌}
use bitcoin_antithesis.Operation.{Operation, TaprootLeafSpec, nop, build_taproot_tree}
use bitcoin_antithesis.Compiler.Bitcoin.{Bytes, Library, NodeInfo, SpendInfo, TxOut}
use bitcoin_antithesis.Compiler.Values.{Scripts, TaprootKeypair, Tx}
use bitcoin_antithesis.Compiler.State.{Run}
use bitcoin_antithesis.Compiler.Taproot.{
  use_annex, handle_taproot_conversions, taproot_script, combine_path, build_key_spend,
  build_script_spend, handle_build_taproot_tree,
}
use bitcoin_antithesis.Compiler.Scripts.{
  push_all, build_signed, p2wpkh_parts, handle_script_building_operations,
}
use bitcoin_antithesis.Compiler.Transactions.{
  add_tx_input_at, take_from, handle_transaction_building_operations,
  handle_coinbase_building_operations,
}
use bitcoin_antithesis.Compiler.Blocks.{coinbase_txos}
use bitcoin_antithesis.Compiler.Grows.{Growing, growing, bind-Growing}
use bitcoin_antithesis.Compiler.Grows.Signing.{finalize_tx-Growing}

use_annex-Growing : (scripts : Scripts) (var : ℕ) → Growing (use_annex scripts var)
unfolding use_annex
use_annex-Growing scripts var = search growing

pub handle_taproot_conversions-Growing :
    (op : Operation) (inputs : List ℕ) → Growing (handle_taproot_conversions op inputs)
unfolding handle_taproot_conversions
handle_taproot_conversions-Growing (nop a b) inputs = search growing
handle_taproot_conversions-Growing _ inputs = search (growing, use_annex-Growing) depth 9

add_tx_input_at-Growing : (inputs : List ℕ) → Growing (add_tx_input_at inputs)
unfolding add_tx_input_at
add_tx_input_at-Growing inputs = search growing depth 9

take_from-Growing : (index : ℕ) (t : Tx) → Growing (take_from index t)
unfolding take_from
take_from-Growing index t = search growing

pub coinbase_txos-Growing :
    (txid : Bytes) (index : ℕ) (os : List TxOut) (scripts : List Scripts)
    → Growing (coinbase_txos txid index os scripts)
unfolding coinbase_txos
coinbase_txos-Growing txid index [] scripts = search growing
coinbase_txos-Growing txid index (o ∷ []) scripts = search growing
coinbase_txos-Growing txid index (o ∷ p ∷ rest) scripts = bind-Growing _ _ (search growing) λ s.
    bind-Growing _ _ (coinbase_txos-Growing txid (suc index) (p ∷ rest) scripts)
      λ txos. search growing

module _ (lib : Library) where
  combine_path-Growing :
      (path : List Bytes) (node : NodeInfo) → Growing (combine_path lib path node)
  unfolding combine_path
  combine_path-Growing [] node = search growing
  combine_path-Growing (hash ∷ path) node =
      bind-Growing _ _ (search growing)
        λ h. bind-Growing _ _ (search growing) λ combined. combine_path-Growing path combined

  taproot_script-Growing : (s : SpendInfo) → Growing (taproot_script lib s)
  unfolding taproot_script
  taproot_script-Growing s = search growing

  build_key_spend-Growing : (keypair : TaprootKeypair) → Growing (build_key_spend lib keypair)
  unfolding build_key_spend
  build_key_spend-Growing keypair = search (growing, taproot_script-Growing)

  build_script_spend-Growing :
      (keypair : TaprootKeypair) (leaf : TaprootLeafSpec)
      → Growing (build_script_spend lib keypair leaf)
  unfolding build_script_spend
  build_script_spend-Growing keypair leaf =
      search (growing, taproot_script-Growing, combine_path-Growing) depth 9

  pub handle_build_taproot_tree-Growing :
      (op : Operation) → Growing (handle_build_taproot_tree lib op)
  unfolding handle_build_taproot_tree
  handle_build_taproot_tree-Growing (build_taproot_tree a b) =
      search (growing, build_key_spend-Growing, build_script_spend-Growing)
  handle_build_taproot_tree-Growing _ = search growing

  push_all-Growing : (stack : List Bytes) (script : Bytes) → Growing (push_all lib stack script)
  unfolding push_all
  push_all-Growing [] script = search growing
  push_all-Growing (elem ∷ stack) script =
      bind-Growing _ _ (search growing) λ pushed. push_all-Growing stack pushed

  p2wpkh_parts-Growing : (key : Bytes) → Growing (p2wpkh_parts lib key)
  unfolding p2wpkh_parts
  p2wpkh_parts-Growing key = search growing

  build_signed-Growing :
      (op : Operation) (scripts_for : Bytes → Run (Bytes × Bytes × List Bytes)) (inputs : List ℕ)
      → ((key : Bytes) → Growing (scripts_for key))
      → Growing (build_signed lib op scripts_for inputs)
  unfolding build_signed
  build_signed-Growing op scripts_for inputs h = search growing depth 12

  pub handle_script_building_operations-Growing :
      (op : Operation) (inputs : List ℕ) → Growing (handle_script_building_operations lib op inputs)
  unfolding handle_script_building_operations
  handle_script_building_operations-Growing (nop a b) inputs = search growing
  handle_script_building_operations-Growing _ inputs =
      search (growing, push_all-Growing, build_signed-Growing, p2wpkh_parts-Growing) depth 7

  pub handle_transaction_building_operations-Growing :
      (op : Operation) (inputs : List ℕ)
      → Growing (handle_transaction_building_operations lib op inputs)
  unfolding handle_transaction_building_operations
  handle_transaction_building_operations-Growing (nop a b) inputs = search growing
  handle_transaction_building_operations-Growing _ inputs =
      search (growing, add_tx_input_at-Growing, take_from-Growing, finalize_tx-Growing)

  pub handle_coinbase_building_operations-Growing :
      (op : Operation) (inputs : List ℕ)
      → Growing (handle_coinbase_building_operations lib op inputs)
  unfolding handle_coinbase_building_operations
  handle_coinbase_building_operations-Growing (nop a b) inputs = search growing
  handle_coinbase_building_operations-Growing _ inputs = search growing depth 7
