-- ===== src/Compiler/Typed/Signing.antt =====
-- finalize_tx keeps the types of the variables, and makes a transaction: compiler.rs of workloads/
-- ir-workload/fuzzamoto-ir/src.
use bitcoin_antithesis.Prelude.{ℕ, suc, List, [], ◌∷◌, ◌++◌, Option, none, some, get_elem?, All}
use bitcoin_antithesis.Operation.{Operation, nop}
use bitcoin_antithesis.Compiler.Bitcoin.{Bytes, Library, Transaction, TxIn, TxOut}
use bitcoin_antithesis.Compiler.Values.{
  SigningRequest, legacy, taproot, TaprootRequest, TaprootLeaf, TaprootSpendInfo, TxInput, Txo,
  Scripts, Value,
}
use bitcoin_antithesis.Compiler.State.{
  Compiler, misc_error, get_variable, found, downcast, ◌>>=◌, pure, raise, or_raise, expect,
  on_option,
}
use bitcoin_antithesis.Compiler.Scripts.{or_else}
use bitcoin_antithesis.Compiler.Types.{RustType}
use bitcoin_antithesis.Compiler.Types.Coins.{
  as_spend_info, as_tx, as_tx_inputs, as_tx_outputs, as_txo,
}
use bitcoin_antithesis.Compiler.Refers.{
  HasTypeIfAny, RequestRefers, ScriptsRefers, TxoRefers, InputRefers,
}
use bitcoin_antithesis.Compiler.Types.Plain.{as_bytes}
use bitcoin_antithesis.Compiler.Signing.{
  build_txin, build_prevout, change_input, misc_only, or_misc, get_annex, checked_key,
  push_signature, sign_legacy, sign_segwit, sign_with, sign_script_spend, sign_key_spend,
  sign_taproot, sign_request, sign_inputs, txos_from, finalize_tx,
}
use bitcoin_antithesis.Compiler.Typed.{Ends, Types, Fits, HasInput, step-Types}
use bitcoin_antithesis.Compiler.Typed.Access.{
  typed, each-Types, expected-Types, input-Types, append_variable-Types,
}

module _ {Γ : List ℕ} where
  build_txin-Types : (i : TxInput) → InputRefers Γ i → Types Γ (build_txin i) Γ
  unfolding build_txin
  build_txin-Types i (txo, sequence) = search typed

  build_prevout-Types : (i : TxInput) → InputRefers Γ i → Types Γ (build_prevout i) Γ
  unfolding build_prevout
  build_prevout-Types i (txo, sequence) = search typed

  change_input-Types :
      (idx : ℕ) (f : TxIn → TxIn) (t : Transaction) → Types Γ (change_input idx f t) Γ
  unfolding change_input
  change_input-Types idx f t = search typed

  misc_only_cast :
      {A : Type 0} (s : Compiler) (o : Option A) → Fits Γ s → Ends Γ (misc_only (downcast o, s))
  unfolding misc_only downcast
  misc_only_cast s none e = tt
  misc_only_cast s (some a) e = e

  misc_only_lookup :
      {A : Type 0} (T : RustType A) (s : Compiler) (o : Option Value)
      → Fits Γ s
      → Ends Γ (misc_only (found T o, s))
  unfolding misc_only found
  misc_only_lookup T s none e = tt
  misc_only_lookup T s (some v) e = misc_only_cast s (T.cast v) e

  -- The missing annex is an error of its own.
  annex_lookup-Types : (var : ℕ) → Types Γ (or_misc (get_variable as_bytes var)) Γ
  unfolding or_misc get_variable
  annex_lookup-Types var = record {
    ends = λ s e. misc_only_lookup as_bytes s (get_elem? s.variables var) e;
  }

  get_annex-Types : (var : Option ℕ) → Types Γ (get_annex var) Γ
  unfolding get_annex
  get_annex-Types none = search typed
  get_annex-Types (some var) = search (typed, annex_lookup-Types)

ruleset inputs_typed = (typed, change_input-Types, get_annex-Types)

txos_from-refers :
    (Γ : List ℕ) (id : Bytes) (index : ℕ) (os : List (Scripts × ℕ))
    → All (λ p. ScriptsRefers Γ p.0) os
    → All (TxoRefers Γ) (txos_from id index os)
txos_from-refers Γ id index [] h = tt
txos_from-refers Γ id index (o ∷ os) (h, hs) = (h, txos_from-refers Γ id (suc index) os hs)

module _ (lib : Library) {Γ : List ℕ} where
  checked_key-Types : (key : Bytes) → Types Γ (checked_key lib key) Γ
  unfolding checked_key
  checked_key-Types key = search typed

  sign_legacy-Types :
      (idx : ℕ) (txo : Txo) (key : Bytes) (flag : ℕ) (t : Transaction)
      → Types Γ (sign_legacy lib idx txo key flag t) Γ
  unfolding sign_legacy push_signature
  sign_legacy-Types idx txo key flag t = search (inputs_typed, checked_key-Types) depth 9

  sign_segwit-Types :
      (idx : ℕ) (txo : Txo) (key : Bytes) (flag : ℕ) (t : Transaction)
      → Types Γ (sign_segwit lib idx txo key flag t) Γ
  unfolding sign_segwit
  sign_segwit-Types idx txo key flag t = search (inputs_typed, checked_key-Types) depth 9

  sign_with-Types :
      (op : Operation) (idx : ℕ) (txo : Txo) (key : Bytes) (flag : ℕ) (t : Transaction)
      → Types Γ (sign_with lib op idx txo key flag t) Γ
  unfolding sign_with
  sign_with-Types (nop a b) idx txo key flag t = search typed
  sign_with-Types _ idx txo key flag t = search (typed, sign_legacy-Types, sign_segwit-Types)

  sign_script_spend-Types :
      (idx : ℕ) (prevouts : List TxOut) (s : TaprootSpendInfo) (annex : Option Bytes)
      (leaf : TaprootLeaf) (t : Transaction)
      → Types Γ (sign_script_spend lib idx prevouts s annex leaf t) Γ
  unfolding sign_script_spend
  sign_script_spend-Types idx prevouts s annex leaf t =
      search (inputs_typed, checked_key-Types) depth 9

  sign_key_spend-Types :
      (idx : ℕ) (prevouts : List TxOut) (s : TaprootSpendInfo) (annex : Option Bytes)
      (t : Transaction)
      → Types Γ (sign_key_spend lib idx prevouts s annex t) Γ
  unfolding sign_key_spend
  sign_key_spend-Types idx prevouts s annex t = search (inputs_typed, checked_key-Types) depth 9

  -- A spend that the request names is there.
  sign_taproot-Types :
      (idx : ℕ) (prevouts : List TxOut) (r : TaprootRequest) (t : Transaction)
      → HasTypeIfAny Γ r.spend_info_var 25
      → Types Γ (sign_taproot lib idx prevouts r t) Γ
  unfolding sign_taproot or_raise pure raise ◌>>=◌
  sign_taproot-Types idx prevouts r t h = spends r.spend_info_var h
    where
      spends :
          (v : Option ℕ)
          → HasTypeIfAny Γ v 25
          → Types Γ
              (do
                var ← or_raise misc_error v
                spend_info ← expect (get_variable as_spend_info var)
                annex ← get_annex r.annex_var
                on_option
                    (or_else r.selected_leaf spend_info.selected_leaf)
                    (sign_key_spend lib idx prevouts spend_info annex t)
                    λ leaf. sign_script_spend lib idx prevouts spend_info annex leaf t)
              Γ
      spends none h = record { ends = λ s e. tt }
      spends (some var) h = record {
        ends = λ s e.
            (expected-Types as_spend_info var _ h (λ spend_info refers.
                search (inputs_typed, sign_key_spend-Types, sign_script_spend-Types) depth 9)).ends
              s e;
      }

  sign_request-Types :
      (idx : ℕ) (prevouts : List TxOut) (txo : Txo) (r : Option SigningRequest) (t : Transaction)
      → RequestRefers Γ r
      → Types Γ (sign_request lib idx prevouts txo r t) Γ
  unfolding sign_request
  sign_request-Types idx prevouts txo none t h = search typed
  sign_request-Types idx prevouts txo (some (legacy r)) t (key, flag) =
      search (typed, sign_with-Types)
  sign_request-Types idx prevouts txo (some (taproot r)) t h = sign_taproot-Types idx prevouts r t h

  sign_inputs-Types :
      (idx : ℕ) (prevouts : List TxOut) (is : List TxInput) (t : Transaction)
      → All (InputRefers Γ) is
      → Types Γ (sign_inputs lib idx prevouts is t) Γ
  unfolding sign_inputs
  sign_inputs-Types idx prevouts [] t h = search typed
  sign_inputs-Types idx prevouts (i ∷ rest) t (h, hs) =
      expected-Types as_txo i.txo_var _ h.0 λ txo refers.
        step-Types _ _ (sign_request-Types idx prevouts txo _ t refers)
          λ signed. sign_inputs-Types (suc idx) prevouts rest signed hs

  pub finalize_tx-Types :
      (inputs : List ℕ)
      → HasInput Γ inputs 0 26
      → HasInput Γ inputs 1 27
      → HasInput Γ inputs 2 28
      → Types Γ (finalize_tx lib inputs) (Γ ++ 26 ∷ [])
  unfolding finalize_tx
  finalize_tx-Types inputs tx tx_inputs tx_outputs =
      input-Types as_tx_inputs inputs 1 _ tx_inputs λ spent spent_refers.
        input-Types as_tx_outputs inputs 2 _ tx_outputs λ paid paid_refers.
          input-Types as_tx inputs 0 _ tx λ t t_refers.
            step-Types _ _
              (each-Types (InputRefers Γ) build_txin spent.inputs build_txin-Types spent_refers)
              λ input.
                step-Types _ _
                  (each-Types (InputRefers Γ) build_prevout spent.inputs build_prevout-Types
                    spent_refers)
                  λ prevouts.
                    step-Types _ _ (sign_inputs-Types 0 prevouts spent.inputs _ spent_refers)
                      λ signed.
                        append_variable-Types as_tx _
                          (txos_from-refers Γ _ 0 paid.outputs paid_refers)
