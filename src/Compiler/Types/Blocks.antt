-- ===== src/Compiler/Types/Blocks.antt =====
-- The Rust types of coinbases and blocks, for the downcasts of compiler.rs in workloads/ir-workload/
-- fuzzamoto-ir/src.
use bitcoin_antithesis.Prelude.{◌≡◌, refl, Option, none, some, arith}
use bitcoin_antithesis.Compiler.Bitcoin.{Block, BlockTxn}
use bitcoin_antithesis.Compiler.Values.{Value, CoinbaseInput, CoinbaseTx, BlockTransactions}
use bitcoin_antithesis.Compiler.Types.{RustType, IsDowncast, type_id}

unfoldable pub cast_coinbase_input : Value → Option CoinbaseInput
cast_coinbase_input (Value.coinbase_input x) = some x
cast_coinbase_input _ = none

cast_coinbase_input_ok :
    (v : Value)
    → type_id v ≡ 29
    → (a : CoinbaseInput) × (cast_coinbase_input v ≡ some a) × (Value.coinbase_input a ≡ v)
unfolding type_id cast_coinbase_input
cast_coinbase_input_ok (Value.coinbase_input x) e = (x, refl, refl)
cast_coinbase_input_ok _ e = absurd (omega arith)

pub coinbase_input_laws : IsDowncast 29 (Value.coinbase_input) cast_coinbase_input
unfolding type_id cast_coinbase_input
coinbase_input_laws = record {
  wrap_id = λ _. refl;
  cast_wrap = λ _. refl;
  cast_ok = cast_coinbase_input_ok;
}

abbrev pub as_coinbase_input : RustType CoinbaseInput
as_coinbase_input = record {
  id = 29;
  wrap = Value.coinbase_input;
  cast = cast_coinbase_input;
  laws = coinbase_input_laws;
}

unfoldable pub cast_coinbase_tx : Value → Option CoinbaseTx
cast_coinbase_tx (Value.coinbase_tx x) = some x
cast_coinbase_tx _ = none

cast_coinbase_tx_ok :
    (v : Value)
    → type_id v ≡ 30
    → (a : CoinbaseTx) × (cast_coinbase_tx v ≡ some a) × (Value.coinbase_tx a ≡ v)
unfolding type_id cast_coinbase_tx
cast_coinbase_tx_ok (Value.coinbase_tx x) e = (x, refl, refl)
cast_coinbase_tx_ok _ e = absurd (omega arith)

pub coinbase_tx_laws : IsDowncast 30 (Value.coinbase_tx) cast_coinbase_tx
unfolding type_id cast_coinbase_tx
coinbase_tx_laws = record {
  wrap_id = λ _. refl;
  cast_wrap = λ _. refl;
  cast_ok = cast_coinbase_tx_ok;
}

abbrev pub as_coinbase_tx : RustType CoinbaseTx
as_coinbase_tx = record {
  id = 30;
  wrap = Value.coinbase_tx;
  cast = cast_coinbase_tx;
  laws = coinbase_tx_laws;
}

unfoldable pub cast_block_transactions : Value → Option BlockTransactions
cast_block_transactions (Value.block_transactions x) = some x
cast_block_transactions _ = none

cast_block_transactions_ok :
    (v : Value)
    → type_id v ≡ 31
    → (a : BlockTransactions) × (cast_block_transactions v ≡ some a)
      × (Value.block_transactions a ≡ v)
unfolding type_id cast_block_transactions
cast_block_transactions_ok (Value.block_transactions x) e = (x, refl, refl)
cast_block_transactions_ok _ e = absurd (omega arith)

pub block_transactions_laws : IsDowncast 31 (Value.block_transactions) cast_block_transactions
unfolding type_id cast_block_transactions
block_transactions_laws = record {
  wrap_id = λ _. refl;
  cast_wrap = λ _. refl;
  cast_ok = cast_block_transactions_ok;
}

abbrev pub as_block_transactions : RustType BlockTransactions
as_block_transactions = record {
  id = 31;
  wrap = Value.block_transactions;
  cast = cast_block_transactions;
  laws = block_transactions_laws;
}

unfoldable pub cast_block : Value → Option Block
cast_block (Value.block x) = some x
cast_block _ = none

cast_block_ok :
    (v : Value) → type_id v ≡ 32 → (a : Block) × (cast_block v ≡ some a) × (Value.block a ≡ v)
unfolding type_id cast_block
cast_block_ok (Value.block x) e = (x, refl, refl)
cast_block_ok _ e = absurd (omega arith)

pub block_laws : IsDowncast 32 (Value.block) cast_block
unfolding type_id cast_block
block_laws = record { wrap_id = λ _. refl; cast_wrap = λ _. refl; cast_ok = cast_block_ok }

abbrev pub as_block : RustType Block
as_block = record { id = 32; wrap = Value.block; cast = cast_block; laws = block_laws }

unfoldable pub cast_block_txn : Value → Option BlockTxn
cast_block_txn (Value.block_txn x) = some x
cast_block_txn _ = none

cast_block_txn_ok :
    (v : Value)
    → type_id v ≡ 33
    → (a : BlockTxn) × (cast_block_txn v ≡ some a) × (Value.block_txn a ≡ v)
unfolding type_id cast_block_txn
cast_block_txn_ok (Value.block_txn x) e = (x, refl, refl)
cast_block_txn_ok _ e = absurd (omega arith)

pub block_txn_laws : IsDowncast 33 (Value.block_txn) cast_block_txn
unfolding type_id cast_block_txn
block_txn_laws = record { wrap_id = λ _. refl; cast_wrap = λ _. refl; cast_ok = cast_block_txn_ok }

abbrev pub as_block_txn : RustType BlockTxn
as_block_txn = record {
  id = 33;
  wrap = Value.block_txn;
  cast = cast_block_txn;
  laws = block_txn_laws;
}
