-- ===== src/Compiler/Typed/Blocks.antt =====
-- The handlers of blocks keep the types of the variables: compiler.rs of workloads/ir-workload/
-- fuzzamoto-ir/src.
use bitcoin_antithesis.Prelude.{
  ℕ, suc, ◌≡◌, refl, ◌⊎◌, inl, inr, Option-cases, List, [], ◌∷◌, ◌++◌, ◌%◌, ◌^◌, get_elem?, All,
  All-get,
}
use bitcoin_antithesis.Operation.{Operation, nop, add_tx, build_block}
use bitcoin_antithesis.Compiler.Bitcoin.{Bytes, Library, Block, BlockHeader, Transaction, TxOut}
use bitcoin_antithesis.Compiler.Values.{Value, Scripts, Txo, CoinbaseTx, Header}
use bitcoin_antithesis.Compiler.State.{
  Compiler, ok, panic, Run, ◌>>=◌, pure, unwrap, panics, input_at, get_input, update_input,
}
use bitcoin_antithesis.Compiler.Refers.{ScriptsRefers, TxoRefers, Refers-later, All-map}
use bitcoin_antithesis.Compiler.Mining.{fixup_witness, fixup_commitments, fixup_proof_of_work, mine}
use bitcoin_antithesis.Compiler.Blocks.{
  push_tx, coinbase_txos, set_height, record_block, get_timestamp_input, append_block,
  build_block_from, handle_block_building_operations,
}
use bitcoin_antithesis.Operation.Signature.{
  get_input_variables, get_output_variables, get_inner_output_variables,
}
use bitcoin_antithesis.Compiler.Types.Network.{as_header}
use bitcoin_antithesis.Compiler.Types.Coins.{as_tx}
use bitcoin_antithesis.Compiler.Types.Blocks.{as_block, as_block_transactions}
use bitcoin_antithesis.Compiler.Typed.{
  Types, HasTypes, HasTypes-get, HasInput, extend, type_of, compiled_types, bind-Types, step-Types,
  pure-Types, diverges-Types, on_option-Types,
}
use bitcoin_antithesis.Compiler.Typed.Access.{
  typed, input-Types, input_at-Types, update_input-Types, append_variable-Types,
}

record_block-Types :
    {Γ : List ℕ} (lib : Library) (h : BlockHeader) (i j : ℕ) (vars : List ℕ)
    → Types Γ (record_block lib h i j vars) Γ
unfolding record_block
record_block-Types lib h i j vars = search typed

-- The outputs of a coinbase refer to what its scripts refer to.
coinbase_txos_cases :
    (Γ : List ℕ) (txid : Bytes) (index : ℕ) (os : List TxOut) (scripts : List Scripts)
    (s : Compiler)
    → All (ScriptsRefers Γ) scripts
    → (coinbase_txos txid index os scripts s ≡ (panic, s))
      ⊎ ((txos : List Txo) × (coinbase_txos txid index os scripts s ≡ (ok txos, s))
          × All (TxoRefers Γ) txos)
unfolding coinbase_txos ◌>>=◌ pure unwrap panics
coinbase_txos_cases Γ txid index [] scripts s h = inr ([], refl, tt)
coinbase_txos_cases Γ txid index (o ∷ []) scripts s h = inr ([], refl, tt)
coinbase_txos_cases Γ txid index (o ∷ p ∷ rest) scripts s h =
    elim (Option-cases (get_elem? scripts index)) [
      | inl missing ↦ inl (rw missing refl)
      | inr (found, there) ↦ elim (coinbase_txos_cases Γ txid (suc index) (p ∷ rest) scripts s h) [
        | inl fails ↦ inl (rw (there, fails) refl)
        | inr (txos, made, refers) ↦
            let txo : Txo = record {
              prev_out = (txid, index % 2 ^ 32);
              scripts = found;
              value = o.value;
            } in
            inr (
              txo ∷ txos,
              rw (there, made) refl,
              (All-get (ScriptsRefers Γ) scripts index h there, refers),
            )
      ]
    ]

coinbase_txos-Types :
    {B : Type 0} {Γ Δ : List ℕ} (txid : Bytes) (index : ℕ) (os : List TxOut)
    (scripts : List Scripts) (f : List Txo → Run B)
    → All (ScriptsRefers Γ) scripts
    → ((txos : List Txo) → All (TxoRefers Γ) txos → Types Γ (f txos) Δ)
    → Types Γ (coinbase_txos txid index os scripts >>= f) Δ
unfolding ◌>>=◌
coinbase_txos-Types {Γ} txid index os scripts f h g = record {
  ends = λ s e. elim (coinbase_txos_cases Γ txid index os scripts s h) [
    | inl fails ↦ rw fails tt
    | inr (txos, made, refers) ↦ rw made ((g txos refers).ends s e)
  ];
}

-- After the header and the block.
refers_later : (Γ : List ℕ) (x : Txo) → TxoRefers Γ x → TxoRefers ((Γ ++ 13 ∷ []) ++ 32 ∷ []) x
refers_later Γ x h =
    Refers-later (Γ ++ 13 ∷ []) 32 (Value.txo x) (Refers-later Γ 13 (Value.txo x) h)

module _ (lib : Library) {Γ : List ℕ} where
  fixup_commitments-Types : (b : Block) → Types Γ (fixup_commitments lib b) Γ
  unfolding fixup_commitments fixup_witness
  fixup_commitments-Types b = search typed depth 9

  fixup_proof_of_work-Types : (h : BlockHeader) → Types Γ (fixup_proof_of_work lib h) Γ
  unfolding fixup_proof_of_work
  fixup_proof_of_work-Types h = on_option-Types (mine lib (2 ^ 32) h) _ _ diverges-Types pure-Types

  set_height-Types : (h : Header) (t : Transaction) → Types Γ (set_height lib h t) Γ
  unfolding set_height
  set_height-Types h t = search typed

  get_timestamp_input-Types :
      (inputs : List ℕ) (i : ℕ)
      → HasInput Γ inputs i 12
      → Types Γ (get_timestamp_input lib inputs i) Γ
  unfolding get_timestamp_input
  get_timestamp_input-Types inputs i h = search typed

  -- A header, a block and a transaction.
  append_block-Types :
      (h : Header) (coinbase : CoinbaseTx) (t : Transaction) (b : Block) (vars : List ℕ)
      → All (ScriptsRefers Γ) coinbase.scripts
      → Types Γ (append_block lib h coinbase t b vars) (extend Γ (13 ∷ 32 ∷ 26 ∷ []))
  unfolding append_block
  append_block-Types h coinbase t b vars signs =
      coinbase_txos-Types _ 0 t.output coinbase.scripts _ signs λ txos refers.
        step-Types _ _ (search typed) λ header_var.
          bind-Types _ _ (append_variable-Types as_header _ tt) λ _.
            step-Types _ _ (search typed) λ block_var.
              bind-Types _ _ (append_variable-Types as_block _ tt) λ _.
                step-Types _ _ (record_block-Types lib _ _ _ _)
                  λ _. append_variable-Types as_tx _ (All-map txos (refers_later Γ) refers)

  build_block_from-Types :
      (inputs : List ℕ)
      → HasTypes Γ inputs (get_input_variables build_block)
      → Types Γ (build_block_from lib inputs) (extend Γ (13 ∷ 32 ∷ 26 ∷ []))
  unfolding build_block_from get_input_variables type_of
  build_block_from-Types inputs h =
      search
        (
          typed, get_timestamp_input-Types, set_height-Types, fixup_commitments-Types,
          fixup_proof_of_work-Types, append_block-Types,
        )
        depth 20

add_tx-Types :
    {Γ : List ℕ} (inputs : List ℕ)
    → HasInput Γ inputs 0 31
    → HasInput Γ inputs 1 26
    → Types Γ
        (do
          t ← get_input as_tx inputs 1
          index ← input_at inputs 1
          update_input as_block_transactions inputs 0 (push_tx t index))
        Γ
add_tx-Types inputs h0 h1 = input-Types as_tx inputs 1 _ h1 λ t _.
    input_at-Types inputs 1 _ h1
      λ index _. update_input-Types as_block_transactions inputs 0 _ h0 λ b _. tt

module _ (lib : Library) where
  pub handle_block_building_operations-Types :
      {Γ : List ℕ} (op : Operation) (inputs : List ℕ)
      → HasTypes Γ inputs (get_input_variables op)
      → Types Γ (handle_block_building_operations lib op inputs) (extend Γ (compiled_types op))
  unfolding handle_block_building_operations get_input_variables get_output_variables
      get_inner_output_variables type_of compiled_types
  handle_block_building_operations-Types (nop a b) inputs h = search typed
  handle_block_building_operations-Types add_tx inputs h = search (add_tx-Types, HasTypes-get)
  handle_block_building_operations-Types build_block inputs h = build_block_from-Types lib inputs h
  handle_block_building_operations-Types _ inputs h = search typed
