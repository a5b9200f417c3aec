-- ===== src/Compiler/Transactions.antt =====
-- Transactions and coinbases: handle_transaction_building_operations, add_tx_input and
-- handle_coinbase_building_operations of workloads/ir-workload/fuzzamoto-ir/src/compiler.rs. The
-- builds are release builds, in which u64 arithmetic wraps.
use bitcoin_antithesis.Prelude.{
  ℕ, suc, ◌+◌, ◌-◌, ◌%◌, ◌^◌, ℤ, pos, negsuc, List, [], ◌∷◌, ◌++◌, map, ltb, leb, if◌then◌else◌,
  length, get_elem?,
}
use bitcoin_antithesis.Operation.{
  Operation, begin_build_tx, end_build_tx, begin_build_tx_inputs, end_build_tx_inputs,
  begin_build_tx_outputs, end_build_tx_outputs, add_tx_output, add_tx_input, take_txo,
  take_coinbase_txo, begin_build_coinbase_tx, end_build_coinbase_tx, build_coinbase_tx_input,
  begin_build_coinbase_tx_outputs, end_build_coinbase_tx_outputs, add_coinbase_tx_output,
}
use bitcoin_antithesis.Compiler.Bitcoin.{Library, TxIn}
use bitcoin_antithesis.Compiler.Values.{Scripts, TxOutputs, TxInputs, Tx, CoinbaseTx, new_txo}
use bitcoin_antithesis.Compiler.Types.Numbers.{as_u64, as_u32}
use bitcoin_antithesis.Compiler.Types.Coins.{as_txo, as_scripts, as_tx, as_tx_inputs, as_tx_outputs}
use bitcoin_antithesis.Compiler.Types.Blocks.{as_coinbase_input, as_coinbase_tx}
use bitcoin_antithesis.Compiler.State.{
  Run, ◌>>=◌, ◌>>◌, panics, on_option, input_index, input_at, get_variable, get_input,
  write_variable, update_input, append_variable,
}
use bitcoin_antithesis.Compiler.Mining.{zeros, create_witness_commitment_output}
use bitcoin_antithesis.Compiler.Signing.{finalize_tx, output_of}

-- A `u32` cast to an `i32`.
unfoldable pub as_signed : ℕ → ℤ
as_signed w = if ltb w (2 ^ 31) then pos w else negsuc (2 ^ 32 - w - 1)

abbrev pub empty_tx : ℕ → ℕ → Tx
empty_tx version lock_time = record {
  tx = record { version = as_signed version; lock_time = lock_time; input = []; output = [] };
  txos = [];
  output_selector = 0;
  id = zeros;
}

-- The amount of an output is cut to what the inputs have left.
unfoldable pub push_output : Scripts → ℕ → TxOutputs → TxOutputs
push_output scripts amount o =
    let paid = if leb amount o.fees then amount else o.fees in
    record { outputs = o.outputs ++ (scripts, paid) ∷ []; fees = o.fees - paid }

unfoldable pub push_input : ℕ → ℕ → ℕ → TxInputs → TxInputs
push_input txo_var sequence_var value i = record {
  inputs = i.inputs ++ record { txo_var = txo_var; sequence_var = sequence_var } ∷ [];
  total_value = (i.total_value + value) % 2 ^ 64;
}

unfoldable pub add_tx_input_at : List ℕ → Run (Unit {0})
add_tx_input_at inputs = do
  txo ← get_input as_txo inputs 1
  sequence ← get_input as_u32 inputs 2
  txo_var ← input_at inputs 1
  sequence_var ← input_at inputs 2
  update_input as_tx_inputs inputs 0 (push_input txo_var sequence_var txo.value)

-- The next output of the transaction, in turn; a transaction without outputs gives an empty one.
unfoldable pub take_from : ℕ → Tx → Run (Unit {0})
take_from index t =
    on_option (get_elem? t.txos (t.output_selector % length t.txos))
      (append_variable as_txo (new_txo zeros))
      λ txo. do
        write_variable as_tx index (record t { output_selector = suc t.output_selector })
        append_variable as_txo txo

abbrev pub empty_outputs : ℕ → TxOutputs
empty_outputs fees = record { outputs = []; fees = fees }

module _ (lib : Library) where
  unfoldable pub handle_transaction_building_operations : Operation → List ℕ → Run (Unit {0})
  handle_transaction_building_operations begin_build_tx inputs = do
    version ← get_input as_u32 inputs 0
    lock_time ← get_input as_u32 inputs 1
    append_variable as_tx (empty_tx version lock_time)
  handle_transaction_building_operations end_build_tx inputs = finalize_tx lib inputs
  handle_transaction_building_operations begin_build_tx_inputs inputs =
      append_variable as_tx_inputs (record { inputs = []; total_value = 0 })
  handle_transaction_building_operations end_build_tx_inputs inputs = do
    tx_inputs ← get_input as_tx_inputs inputs 0
    append_variable as_tx_inputs tx_inputs
  handle_transaction_building_operations add_tx_input inputs = add_tx_input_at inputs
  handle_transaction_building_operations begin_build_tx_outputs inputs = do
    tx_inputs ← get_input as_tx_inputs inputs 0
    append_variable as_tx_outputs (empty_outputs tx_inputs.total_value)
  handle_transaction_building_operations end_build_tx_outputs inputs = do
    tx_outputs ← get_input as_tx_outputs inputs 0
    append_variable as_tx_outputs tx_outputs
  handle_transaction_building_operations add_tx_output inputs = do
    scripts ← get_input as_scripts inputs 1
    amount ← get_input as_u64 inputs 2
    update_input as_tx_outputs inputs 0 (push_output scripts amount)
  handle_transaction_building_operations take_txo inputs = do
    index ← input_index inputs 0
    t ← get_variable as_tx index
    take_from index t
  handle_transaction_building_operations take_coinbase_txo inputs = do
    index ← input_index inputs 0
    t ← get_variable as_tx index
    take_from index t
  handle_transaction_building_operations _ inputs = panics

  abbrev coinbase_txin : ℕ → TxIn
  coinbase_txin sequence = record {
    previous_output = (zeros, 0xffffffff);
    script_sig = [];
    sequence = sequence;
    witness = zeros ∷ [];
  }

  unfoldable pub coinbase_tx_of : Tx → ℕ → TxOutputs → CoinbaseTx
  coinbase_tx_of t sequence o = record {
    tx = record t {
      tx = record t.tx {
        input = t.tx.input ++ coinbase_txin sequence ∷ [];
        output =
            (t.tx.output ++ map output_of o.outputs)
            ++ create_witness_commitment_output lib zeros ∷ [];
      };
    };
    scripts = map (λ output. output.0) o.outputs;
  }

  -- 25 bitcoins.
  unfoldable pub handle_coinbase_building_operations : Operation → List ℕ → Run (Unit {0})
  handle_coinbase_building_operations begin_build_coinbase_tx inputs = do
    version ← get_input as_u32 inputs 0
    lock_time ← get_input as_u32 inputs 1
    append_variable as_tx (empty_tx version lock_time)
  handle_coinbase_building_operations end_build_coinbase_tx inputs = do
    t ← get_input as_tx inputs 0
    coinbase_input ← get_input as_coinbase_input inputs 1
    tx_outputs ← get_input as_tx_outputs inputs 2
    if leb (2 ^ 32) coinbase_input.sequence
        then panics
        else append_variable as_coinbase_tx (coinbase_tx_of t coinbase_input.sequence tx_outputs)
  handle_coinbase_building_operations build_coinbase_tx_input inputs = do
    sequence ← get_input as_u32 inputs 0
    append_variable as_coinbase_input (record { sequence = sequence; total_value = 2500000000 })
  handle_coinbase_building_operations begin_build_coinbase_tx_outputs inputs = do
    coinbase_input ← get_input as_coinbase_input inputs 0
    append_variable as_tx_outputs (empty_outputs coinbase_input.total_value)
  handle_coinbase_building_operations end_build_coinbase_tx_outputs inputs = do
    tx_outputs ← get_input as_tx_outputs inputs 0
    append_variable as_tx_outputs tx_outputs
  handle_coinbase_building_operations add_coinbase_tx_output inputs = do
    scripts ← get_input as_scripts inputs 1
    amount ← get_input as_u64 inputs 2
    update_input as_tx_outputs inputs 0 (push_output scripts amount)
  handle_coinbase_building_operations _ inputs = panics
