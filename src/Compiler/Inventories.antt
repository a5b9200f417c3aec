-- ===== src/Compiler/Inventories.antt =====
-- Inventories and block transactions for peers: handle_inventory_operations and
-- handle_bip152_blocktxn_operations of workloads/ir-workload/fuzzamoto-ir/src/compiler.rs.
use bitcoin_antithesis.Prelude.{ℕ, List, [], ◌∷◌, ◌++◌}
use bitcoin_antithesis.Operation.{
  Operation, begin_build_inventory, end_build_inventory, add_txid_with_witness_inv, add_wtxid_inv,
  add_txid_inv, add_compact_block_inv, add_block_inv, add_block_with_witness_inv,
  add_filtered_block_inv, begin_build_block_txn, add_tx_to_block_txn, end_build_block_txn,
}
use bitcoin_antithesis.Compiler.Bitcoin.{Library, Inventory, Transaction, BlockTxn}
use bitcoin_antithesis.Compiler.Types.Network.{as_inventory}
use bitcoin_antithesis.Compiler.Types.Coins.{as_tx}
use bitcoin_antithesis.Compiler.Types.Blocks.{as_block, as_block_txn}
use bitcoin_antithesis.Compiler.State.{Run, ◌>>=◌, panics, get_input, update_input, append_variable}

abbrev pub push {ℓ} : {A : Type ℓ} → A → List A → List A
push x xs = xs ++ x ∷ []

abbrev pub push_transaction : Transaction → BlockTxn → BlockTxn
push_transaction t b = record b { transactions = b.transactions ++ t ∷ [] }

module _ (lib : Library) where
  unfoldable pub handle_inventory_operations : Operation → List ℕ → Run (Unit {0})
  handle_inventory_operations begin_build_inventory inputs = append_variable as_inventory []
  handle_inventory_operations end_build_inventory inputs = do
    inv ← get_input as_inventory inputs 0
    append_variable as_inventory inv
  handle_inventory_operations add_txid_with_witness_inv inputs = do
    t ← get_input as_tx inputs 1
    update_input as_inventory inputs 0
        (push (Inventory.witness_transaction (lib.compute_txid t.tx)))
  handle_inventory_operations add_wtxid_inv inputs = do
    t ← get_input as_tx inputs 1
    update_input as_inventory inputs 0 (push (Inventory.wtx (lib.compute_wtxid t.tx)))
  handle_inventory_operations add_txid_inv inputs = do
    t ← get_input as_tx inputs 1
    update_input as_inventory inputs 0 (push (Inventory.transaction (lib.compute_txid t.tx)))
  handle_inventory_operations add_compact_block_inv inputs = do
    b ← get_input as_block inputs 1
    update_input as_inventory inputs 0 (push (Inventory.compact_block (lib.block_hash b.header)))
  handle_inventory_operations add_block_inv inputs = do
    b ← get_input as_block inputs 1
    update_input as_inventory inputs 0 (push (Inventory.block (lib.block_hash b.header)))
  handle_inventory_operations add_block_with_witness_inv inputs = do
    b ← get_input as_block inputs 1
    update_input as_inventory inputs 0 (push (Inventory.witness_block (lib.block_hash b.header)))
  handle_inventory_operations add_filtered_block_inv inputs = do
    b ← get_input as_block inputs 1
    update_input as_inventory inputs 0 (push (Inventory.unknown 3 (lib.block_hash b.header)))
  handle_inventory_operations _ inputs = panics

  unfoldable pub handle_bip152_blocktxn_operations : Operation → List ℕ → Run (Unit {0})
  handle_bip152_blocktxn_operations begin_build_block_txn inputs = do
    b ← get_input as_block inputs 0
    append_variable as_block_txn
        (record { block_hash = lib.block_hash b.header; transactions = [] })
  handle_bip152_blocktxn_operations add_tx_to_block_txn inputs = do
    t ← get_input as_tx inputs 1
    update_input as_block_txn inputs 0 (push_transaction t.tx)
  handle_bip152_blocktxn_operations end_build_block_txn inputs = do
    b ← get_input as_block_txn inputs 0
    append_variable as_block_txn b
  handle_bip152_blocktxn_operations _ inputs = panics
