-- ===== src/Tests/Outputs.antt =====
-- The compiler's outputs, takes and batches at concrete inputs.
use bitcoin_antithesis.Prelude.{arith, take, drop, ℕ, ◌+◌, ◌≤◌, ◌≡◌, refl, [], ◌∷◌, none}
use bitcoin_antithesis.Builder.State.{Builder, new_builder}
use bitcoin_antithesis.Builder.Runs.{run}
use bitcoin_antithesis.Compiler.Values.{Scripts, Txo, Tx, Value}
use bitcoin_antithesis.Compiler.State.{
  Compiler, ok, err, variable_not_found, new_compiler, update_metadata, gets, pure, emit,
  append_variable, get_input, get_variable, found, downcast, input_index, or_raise, ◌>>=◌,
}
use bitcoin_antithesis.Compiler.Types.Numbers.{cast_usize}
use bitcoin_antithesis.Compiler.Loads.{handle_load_operations, update_connection_map}
use bitcoin_antithesis.Compiler.Sending.{handle_time_operations, handle_message_sending_operations}
use bitcoin_antithesis.Compiler.Arms.{compile_operation}
use bitcoin_antithesis.Compiler.Dispatch.{compile_instruction}
use bitcoin_antithesis.Compiler.Transactions.{empty_tx, empty_outputs}
use bitcoin_antithesis.Compiler.Compile.{
  set_compiled, batch_steps, batch_step, record_batch_indices, compile, compile_from, compile_steps,
  compile_step, record_indices,
}
use bitcoin_antithesis.Compiler.Batches.First.{IsFirstBatch, compile_from-IsFirstBatch}
use bitcoin_antithesis.Compiler.Batches.Whole.{IsWhole, compile_from-IsWhole}
use bitcoin_antithesis.Compiler.Inventories.{handle_inventory_operations}
use bitcoin_antithesis.Compiler.Spent.{add_outputs, total, IsGranted, add_outputs-IsGranted}
use bitcoin_antithesis.Compiler.Taken.{selecting, take_times, take_times-in_order}
use bitcoin_antithesis.Tests.{send_inventory, one_node, advancing}
use bitcoin_antithesis.Tests.Compiled.{plain}

abbrev anyone : Scripts
anyone = record {
  script_pubkey = 0x51 ∷ [];
  script_sig = [];
  witness = record { stack = [] };
  requires_signing = none;
}

-- The second amount is more than what is left.
add_outputs-IsGranted_example :
    let o = add_outputs ((anyone, 30) ∷ (anyone, 90) ∷ []) (empty_outputs 100) in
    IsGranted ((anyone, 30) ∷ (anyone, 90) ∷ []) o.outputs
    × (total o.outputs + o.fees ≡ 100)
    × (120 ≤ 100 → o.outputs ≡ (anyone, 30) ∷ (anyone, 90) ∷ [])
add_outputs-IsGranted_example = add_outputs-IsGranted ((anyone, 30) ∷ (anyone, 90) ∷ []) 100

abbrev coin_of : ℕ → Txo
coin_of value = record { prev_out = ([], 0); scripts = anyone; value = value }

abbrev two_coins : Tx
two_coins = record (empty_tx 2 0) { txos = coin_of 5 ∷ coin_of 7 ∷ [] }

abbrev holding : Compiler
holding = record {
  variables = selecting two_coins 0 ∷ [];
  output = record {
    actions = [];
    metadata = record {
      block_tx_var_map = [];
      connection_map = [];
      action_indices = [];
      variable_indices = 0 ∷ [];
      instructions = 1;
    };
  };
  last_compiled_instruction = 0;
}

take_times-in_order_example :
    (s' : Compiler) × (take_times plain 0 2 holding ≡ (ok tt, s'))
    × (s'.variables ≡ selecting two_coins 2 ∷ Value.txo (coin_of 5) ∷ Value.txo (coin_of 7) ∷ [])
take_times-in_order_example = take_times-in_order plain 0 two_coins holding refl

abbrev built : Builder
built = run send_inventory.instructions (new_builder one_node)

compile_from-IsFirstBatch_example :
    IsFirstBatch new_compiler 4
      (compile plain send_inventory new_compiler)
      (compile_from plain built new_compiler)
unfolding new_compiler new_builder
compile_from-IsFirstBatch_example =
    compile_from-IsFirstBatch plain send_inventory built new_compiler refl refl refl

abbrev half_built : Builder
half_built = run (take 2 send_inventory.instructions) (new_builder one_node)

half_compiled :
    compile_from plain half_built new_compiler
    ≡ (ok [], (compile_from plain half_built new_compiler).1)
unfolding compile_from batch_steps batch_step compile_instruction record_batch_indices set_compiled
    update_metadata gets pure append_variable or_raise ◌>>=◌ new_compiler new_builder
    handle_load_operations update_connection_map handle_inventory_operations
half_compiled = refl

compile_from-IsWhole_example :
    IsWhole [] 0
      (compile_from plain built (compile_from plain half_built new_compiler).1)
      (compile_from plain built new_compiler)
unfolding new_compiler new_builder
compile_from-IsWhole_example =
    compile_from-IsWhole plain half_built built (drop 2 send_inventory.instructions) new_compiler
      (compile_from plain half_built new_compiler).1 [] refl (omega arith) half_compiled

-- The program is valid, but the compiler has no variable 4: it makes none for the advanced time.
advancing_fails : (compile plain advancing new_compiler).0 ≡ err variable_not_found
unfolding compile compile_steps compile_step compile_operation record_indices update_metadata gets
    pure emit append_variable get_input get_variable found downcast input_index or_raise ◌>>=◌
    new_compiler handle_load_operations update_connection_map handle_time_operations
    handle_message_sending_operations cast_usize
advancing_fails = refl
