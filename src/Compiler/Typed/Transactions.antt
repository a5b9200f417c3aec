-- ===== src/Compiler/Typed/Transactions.antt =====
-- The handlers of transactions and coinbases keep the types of the variables: compiler.rs of
-- workloads/ir-workload/fuzzamoto-ir/src.
use bitcoin_antithesis.Prelude.{
  ℕ, ◌≡◌, ◌%◌, inl, inr, Option-cases, List, [], ◌∷◌, ◌++◌, map, some, length, get_elem?, All,
  All-get,
}
use bitcoin_antithesis.Operation.{Operation, nop, end_build_coinbase_tx}
use bitcoin_antithesis.Operation.Signature.{
  get_input_variables, get_output_variables, get_inner_output_variables,
}
use bitcoin_antithesis.Compiler.Bitcoin.{Library}
use bitcoin_antithesis.Compiler.Values.{Scripts, Tx, new_txo}
use bitcoin_antithesis.Compiler.State.{
  ◌>>=◌, on_option, input_index, get_variable, get_input, update_input,
}
use bitcoin_antithesis.Compiler.Types.Numbers.{as_u32, as_u64}
use bitcoin_antithesis.Compiler.Types.Coins.{as_txo, as_tx, as_tx_inputs, as_tx_outputs, as_scripts}
use bitcoin_antithesis.Compiler.Types.Blocks.{as_coinbase_input, as_coinbase_tx}
use bitcoin_antithesis.Compiler.Refers.{ScriptsRefers, TxoRefers, InputRefers, All-snoc}
use bitcoin_antithesis.Compiler.Transactions.{
  push_input, push_output, add_tx_input_at, take_from, coinbase_tx_of,
  handle_transaction_building_operations, handle_coinbase_building_operations,
}
use bitcoin_antithesis.Compiler.Typed.{
  Types, HasTypes, HasInput, extend, type_of, compiled_types, step-Types, if-Types, panics-Types,
}
use bitcoin_antithesis.Compiler.Typed.Access.{
  typed, input_index-Types, input_at-Types, input-Types, variable-Types, update_input-Types,
  write_variable-Types, append_variable-Types,
}
use bitcoin_antithesis.Compiler.Typed.Signing.{finalize_tx-Types}

take_from-Types :
    {Γ : List ℕ} (index : ℕ) (t : Tx)
    → get_elem? Γ index ≡ some 26
    → All (TxoRefers Γ) t.txos
    → Types Γ (take_from index t) (Γ ++ 14 ∷ [])
unfolding take_from on_option new_txo
take_from-Types {Γ} index t h refers =
    elim (Option-cases (get_elem? t.txos (t.output_selector % length t.txos))) [
      | inl none_there ↦ rw none_there (append_variable-Types as_txo _ tt)
      | inr (txo, there) ↦ rw there (
          step-Types _ _ (write_variable-Types as_tx index _ h refers)
            λ _. append_variable-Types as_txo txo (All-get (TxoRefers Γ) t.txos _ refers there))
    ]

take_input-Types :
    {Γ : List ℕ} (inputs : List ℕ)
    → HasInput Γ inputs 0 26
    → Types Γ
        (do index ← input_index inputs 0; t ← get_variable as_tx index; take_from index t)
        (Γ ++ 14 ∷ [])
take_input-Types inputs h =
    input_index-Types inputs 0 _ h
      λ index has. variable-Types as_tx index _ has λ t refers. take_from-Types index t has refers

-- The new input refers to an output and to a sequence.
add_tx_input_at-Types :
    {Γ : List ℕ} (inputs : List ℕ)
    → HasInput Γ inputs 0 27
    → HasInput Γ inputs 1 14
    → HasInput Γ inputs 2 3
    → Types Γ (add_tx_input_at inputs) Γ
unfolding add_tx_input_at push_input
add_tx_input_at-Types {Γ} inputs h0 h1 h2 = input-Types as_txo inputs 1 _ h1 λ txo _.
    input-Types as_u32 inputs 2 _ h2 λ sequence _. input_at-Types inputs 1 _ h1 λ txo_var is_txo.
      input_at-Types inputs 2 _ h2 λ sequence_var is_sequence.
        update_input-Types as_tx_inputs inputs 0 _ h0
          λ a refers. All-snoc (InputRefers Γ) a.inputs _ refers (is_txo, is_sequence)

add_output-Types :
    {Γ : List ℕ} (inputs : List ℕ)
    → HasInput Γ inputs 0 28
    → HasInput Γ inputs 1 24
    → HasInput Γ inputs 2 2
    → Types Γ
        (do
          scripts ← get_input as_scripts inputs 1
          amount ← get_input as_u64 inputs 2
          update_input as_tx_outputs inputs 0 (push_output scripts amount))
        Γ
unfolding push_output
add_output-Types {Γ} inputs h0 h1 h2 = input-Types as_scripts inputs 1 _ h1 λ scripts signs.
    input-Types as_u64 inputs 2 _ h2 λ amount _.
      update_input-Types as_tx_outputs inputs 0 _ h0
        λ a refers. All-snoc (λ p. ScriptsRefers Γ p.0) a.outputs _ refers signs

coinbase_scripts-refer :
    (Γ : List ℕ) (os : List (Scripts × ℕ))
    → All (λ p. ScriptsRefers Γ p.0) os
    → All (ScriptsRefers Γ) (map (λ output. output.0) os)
coinbase_scripts-refer Γ [] h = tt
coinbase_scripts-refer Γ (o ∷ os) (h, hs) = (h, coinbase_scripts-refer Γ os hs)

end_coinbase-Types :
    {Γ : List ℕ} (lib : Library) (inputs : List ℕ)
    → HasInput Γ inputs 0 26
    → HasInput Γ inputs 1 29
    → HasInput Γ inputs 2 28
    → Types Γ (handle_coinbase_building_operations lib end_build_coinbase_tx inputs) (Γ ++ 30 ∷ [])
unfolding handle_coinbase_building_operations coinbase_tx_of
end_coinbase-Types {Γ} lib inputs h0 h1 h2 = input-Types as_tx inputs 0 _ h0 λ t _.
    input-Types as_coinbase_input inputs 1 _ h1 λ coinbase_input _.
      input-Types as_tx_outputs inputs 2 _ h2 λ tx_outputs refers. if-Types _ _ _ panics-Types (
        append_variable-Types as_coinbase_tx _ (coinbase_scripts-refer Γ tx_outputs.outputs refers))

module _ (lib : Library) where
  pub handle_transaction_building_operations-Types :
      {Γ : List ℕ} (op : Operation) (inputs : List ℕ)
      → HasTypes Γ inputs (get_input_variables op)
      → Types Γ
          (handle_transaction_building_operations lib op inputs)
          (extend Γ (compiled_types op))
  unfolding handle_transaction_building_operations get_input_variables get_output_variables
      get_inner_output_variables type_of compiled_types
  handle_transaction_building_operations-Types (nop a b) inputs h = search typed
  handle_transaction_building_operations-Types _ inputs h =
      search (typed, add_tx_input_at-Types, add_output-Types, take_input-Types, finalize_tx-Types)

  pub handle_coinbase_building_operations-Types :
      {Γ : List ℕ} (op : Operation) (inputs : List ℕ)
      → HasTypes Γ inputs (get_input_variables op)
      → Types Γ (handle_coinbase_building_operations lib op inputs) (extend Γ (compiled_types op))
  unfolding handle_coinbase_building_operations get_input_variables get_output_variables
      get_inner_output_variables type_of compiled_types
  handle_coinbase_building_operations-Types (nop a b) inputs h = search typed
  handle_coinbase_building_operations-Types _ inputs h =
      search (typed, add_output-Types, end_coinbase-Types) depth 7
