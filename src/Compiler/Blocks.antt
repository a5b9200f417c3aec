-- ===== src/Compiler/Blocks.antt =====
-- Blocks: handle_block_building_operations and build_block of workloads/ir-workload/fuzzamoto-ir/
-- src/compiler.rs.
use bitcoin_antithesis.Prelude.{
  ℕ, suc, ◌+◌, ◌%◌, ◌^◌, ℤ, List, [], ◌∷◌, ◌++◌, map, length, get_elem?, set,
}
use bitcoin_antithesis.Operation.{
  Operation, begin_block_transactions, add_tx, end_block_transactions, build_block,
}
use bitcoin_antithesis.Compiler.Bitcoin.{Bytes, Library, Transaction, TxOut, Block, BlockHeader}
use bitcoin_antithesis.Compiler.Values.{Header, Txo, Tx, Scripts, CoinbaseTx, BlockTransactions}
use bitcoin_antithesis.Compiler.Types.Numbers.{as_i32}
use bitcoin_antithesis.Compiler.Types.Plain.{as_live_time}
use bitcoin_antithesis.Compiler.Types.Network.{as_header}
use bitcoin_antithesis.Compiler.Types.Coins.{as_tx}
use bitcoin_antithesis.Compiler.Types.Blocks.{as_coinbase_tx, as_block_transactions, as_block}
use bitcoin_antithesis.Compiler.State.{
  Run, ◌>>=◌, ◌>>◌, pure, panics, unwrap, gets, input_at, get_input, update_input, update_metadata,
  append_variable, or_insert, bytes_eq,
}
use bitcoin_antithesis.Compiler.Mining.{zeros, fixup_commitments, fixup_proof_of_work}

abbrev pub to_bitcoin_header : Header → BlockHeader
to_bitcoin_header h = record {
  version = h.version;
  prev_blockhash = h.prev;
  merkle_root = h.merkle_root;
  bits = h.bits;
  nonce = h.nonce;
  time = h.time;
}

abbrev pub push_tx : Tx → ℕ → BlockTransactions → BlockTransactions
push_tx t index b = record { txs = b.txs ++ t ∷ []; var_indices = b.var_indices ++ index ∷ [] }

-- A txo for each output but the last; `scripts[index]` panics out of bounds.
unfoldable pub coinbase_txos : Bytes → ℕ → List TxOut → List Scripts → Run (List Txo)
coinbase_txos txid index [] scripts = pure []
coinbase_txos txid index (o ∷ []) scripts = pure []
coinbase_txos txid index (o ∷ p ∷ rest) scripts = do
  s ← unwrap (get_elem? scripts index)
  txos ← coinbase_txos txid (suc index) (p ∷ rest) scripts
  pure (record { prev_out = (txid, index % 2 ^ 32); scripts = s; value = o.value } ∷ txos)

module _ (lib : Library) where
  -- `tx.input[0].script_sig = ...`.
  unfoldable pub set_height : Header → Transaction → Run Transaction
  set_height h t = do
    i ← unwrap (get_elem? t.input 0)
    pure (record t {
      input = set t.input 0 (record i {
        script_sig = lib.push_int (lib.push_int [] ((h.height + 1) % 2 ^ 32)) 0xffffffff;
      });
    })

  abbrev assembled : Header → ℕ → ℤ → Transaction → BlockTransactions → Block
  assembled h time version coinbase b = record {
    header = record {
      version = version;
      prev_blockhash = lib.block_hash (to_bitcoin_header h);
      merkle_root = zeros;
      bits = h.bits;
      nonce = h.nonce;
      time = time % 2 ^ 32;
    };
    txdata = coinbase ∷ map (λ t. t.tx) b.txs;
  }

  abbrev header_of : Header → BlockHeader → Header
  header_of prev h = record {
    prev = h.prev_blockhash;
    merkle_root = h.merkle_root;
    nonce = h.nonce;
    bits = h.bits;
    time = h.time;
    version = h.version;
    height = (prev.height + 1) % 2 ^ 32;
  }

  unfoldable pub record_block : BlockHeader → ℕ → ℕ → List ℕ → Run (Unit {0})
  record_block h header_var block_var tx_vars = update_metadata λ m. record m {
    block_tx_var_map =
        or_insert bytes_eq (lib.block_hash h) (header_var, block_var, tx_vars) m.block_tx_var_map;
  }

  -- The system's time, which a time variable stands for.
  unfoldable pub get_timestamp_input : List ℕ → ℕ → Run ℕ
  get_timestamp_input inputs index = do
    live_time ← get_input as_live_time inputs index
    gets (λ s. lib.system_time s.output.metadata.instructions)

  -- The three variables of a block: its header, the block, and its coinbase transaction.
  unfoldable pub append_block : Header → CoinbaseTx → Transaction → Block → List ℕ → Run (Unit {0})
  append_block h coinbase t b tx_vars = do
    txos ← coinbase_txos (lib.compute_txid t) 0 t.output coinbase.scripts
    header_var ← gets (λ s. length s.variables)
    append_variable as_header (header_of h b.header)
    block_var ← gets (λ s. length s.variables)
    append_variable as_block b
    record_block b.header header_var block_var tx_vars
    append_variable as_tx (record coinbase.tx { tx = t; txos = txos; id = lib.compute_txid t })

  unfoldable pub build_block_from : List ℕ → Run (Unit {0})
  build_block_from inputs = do
    coinbase ← get_input as_coinbase_tx inputs 0
    h ← get_input as_header inputs 1
    time ← get_timestamp_input inputs 2
    version ← get_input as_i32 inputs 3
    b ← get_input as_block_transactions inputs 4
    t ← set_height h coinbase.tx.tx
    committed ← fixup_commitments lib (assembled h time version t b)
    header ← fixup_proof_of_work lib committed.header
    append_block h coinbase t (record committed { header = header }) b.var_indices

  unfoldable pub handle_block_building_operations : Operation → List ℕ → Run (Unit {0})
  handle_block_building_operations begin_block_transactions inputs =
      append_variable as_block_transactions (record { txs = []; var_indices = [] })
  handle_block_building_operations add_tx inputs = do
    t ← get_input as_tx inputs 1
    index ← input_at inputs 1
    update_input as_block_transactions inputs 0 (push_tx t index)
  handle_block_building_operations end_block_transactions inputs = do
    b ← get_input as_block_transactions inputs 0
    append_variable as_block_transactions b
  handle_block_building_operations build_block inputs = build_block_from inputs
  handle_block_building_operations _ inputs = panics
