-- ===== src/Compiler/Signing.antt =====
-- The end of a transaction: finalize_tx of workloads/ir-workload/fuzzamoto-ir/src/compiler.rs, which
-- fills in the inputs and outputs and signs the inputs.
use bitcoin_antithesis.Prelude.{
  ℕ, suc, ◌%◌, ◌^◌, Bool, true, false, List, [], ◌∷◌, ◌++◌, map, Option, none, some, ◌==◌,
  if◌then◌else◌, get_elem?, set,
}
use bitcoin_antithesis.Operation.{
  Operation, build_pay_to_pub_key, build_pay_to_pub_key_hash, build_pay_to_witness_pub_key_hash,
}
use bitcoin_antithesis.Compiler.Bitcoin.{Bytes, Library, Transaction, TxIn, TxOut}
use bitcoin_antithesis.Compiler.Values.{
  Txo, Scripts, TxInput, Tx, TaprootLeaf, TaprootSpendInfo, SigningRequest, TaprootRequest, legacy,
  taproot,
}
use bitcoin_antithesis.Compiler.Types.Numbers.{as_u32, as_u8}
use bitcoin_antithesis.Compiler.Types.Plain.{as_bytes, as_array32}
use bitcoin_antithesis.Compiler.Types.Coins.{
  as_txo, as_spend_info, as_tx, as_tx_inputs, as_tx_outputs,
}
use bitcoin_antithesis.Compiler.State.{
  Exit, err, misc_error, Run, Compiler, ◌>>=◌, pure, raise, panics, or_raise, unwrap, expect,
  on_option, each, get_variable, get_input, append_variable,
}
use bitcoin_antithesis.Compiler.Taproot.{build_control_block}
use bitcoin_antithesis.Compiler.Scripts.{or_else}

abbrev pub output_of : Scripts × ℕ → TxOut
output_of (scripts, amount) = record { value = amount; script_pubkey = scripts.script_pubkey }

abbrev txin_of : Txo → ℕ → TxIn
txin_of txo sequence = record {
  previous_output = txo.prev_out;
  script_sig = txo.scripts.script_sig;
  sequence = sequence;
  witness = txo.scripts.witness.stack;
}

-- The closures unwrap the lookups.
unfoldable pub build_txin : TxInput → Run TxIn
build_txin i = do
  txo ← expect (get_variable as_txo i.txo_var)
  sequence ← expect (get_variable as_u32 i.sequence_var)
  pure (txin_of txo sequence)

unfoldable pub build_prevout : TxInput → Run TxOut
build_prevout i = do
  txo ← expect (get_variable as_txo i.txo_var)
  pure (record { value = txo.value; script_pubkey = txo.scripts.script_pubkey })

-- `tx.input[idx]` is changed; an index out of bounds panics.
unfoldable pub change_input : ℕ → (TxIn → TxIn) → Transaction → Run Transaction
change_input idx f t = do
  i ← unwrap (get_elem? t.input idx)
  pure (record t { input = set t.input idx (f i) })

abbrev push_witness : List Bytes → TxIn → TxIn
push_witness elems i = record i { witness = i.witness ++ elems }

abbrev pub is_annex : Bytes → Bool
is_annex [] = false
is_annex (b ∷ _) = b == 0x50

-- A failed lookup is an error here, and so is an annex that does not start with 0x50.
unfoldable pub misc_only : {A : Type 0} → Exit A × Compiler → Exit A × Compiler
misc_only (err _, s) = (err misc_error, s)
misc_only r = r

unfoldable pub or_misc : {A : Type 0} → Run A → Run A
unfolding misc_only
or_misc m s = misc_only (m s)

unfoldable pub get_annex : Option ℕ → Run (Option Bytes)
get_annex none = pure none
get_annex (some var) = do
  annex ← or_misc (get_variable as_bytes var)
  if is_annex annex then pure (some annex) else raise misc_error

abbrev annex_elem : Option Bytes → List Bytes
annex_elem none = []
annex_elem (some annex) = annex ∷ []

abbrev is_some : Option Bytes → Bool
is_some none = false
is_some (some _) = true

-- The txos of the outputs, whose index is cut to 32 bits.
abbrev pub txos_from : Bytes → ℕ → List (Scripts × ℕ) → List Txo
txos_from id index [] = []
txos_from id index (o ∷ os) =
    record { prev_out = (id, index % 2 ^ 32); scripts = o.0; value = o.1 }
    ∷ txos_from id (suc index) os

module _ (lib : Library) where
  -- `SecretKey::from_slice(key).unwrap()`.
  unfoldable pub checked_key : Bytes → Run Bytes
  checked_key key = if lib.is_secret_key key then pure key else panics

  unfoldable pub push_signature : Bytes → TxIn → Run TxIn
  push_signature signature i = do
    script_sig ← unwrap (lib.push_slice i.script_sig signature)
    pure (record i { script_sig = script_sig })

  -- The signature goes to the script.
  unfoldable pub sign_legacy : ℕ → Txo → Bytes → ℕ → Transaction → Run Transaction
  sign_legacy idx txo private_key flag t =
      on_option (lib.legacy_signature_hash t idx txo.scripts.script_pubkey flag) (pure t) λ hash. do
        key ← checked_key private_key
        i ← unwrap (get_elem? t.input idx)
        signed ← push_signature (lib.sign_ecdsa key hash (lib.ecdsa_sighash_type flag)) i
        change_input idx (λ _. signed) t

  -- The signature goes to the witness.
  unfoldable pub sign_segwit : ℕ → Txo → Bytes → ℕ → Transaction → Run Transaction
  sign_segwit idx txo private_key flag t =
      let sighash_type = lib.ecdsa_sighash_type flag in
      on_option (lib.p2wpkh_signature_hash t idx txo.scripts.script_pubkey txo.value sighash_type)
        (pure t)
        λ hash. do
          key ← checked_key private_key
          change_input idx (push_witness (lib.sign_ecdsa key hash sighash_type ∷ [])) t

  unfoldable pub sign_with : Operation → ℕ → Txo → Bytes → ℕ → Transaction → Run Transaction
  sign_with build_pay_to_pub_key idx txo key flag t = sign_legacy idx txo key flag t
  sign_with build_pay_to_pub_key_hash idx txo key flag t = sign_legacy idx txo key flag t
  sign_with build_pay_to_witness_pub_key_hash idx txo key flag t = sign_segwit idx txo key flag t
  sign_with _ idx txo key flag t = pure t

  -- A spend of a script: the annex, the signature, the script and the control block.
  unfoldable pub sign_script_spend :
      ℕ → List TxOut → TaprootSpendInfo → Option Bytes → TaprootLeaf → Transaction → Run Transaction
  sign_script_spend idx prevouts spend_info annex leaf t = do
    version ← or_raise misc_error (lib.leaf_version leaf.version)
    key ← checked_key spend_info.keypair.secret_key
    sighash ←
        or_raise misc_error
          (lib.script_spend_hash t idx prevouts (lib.tap_leaf_hash leaf.script version))
    change_input idx
        (push_witness (
          annex_elem annex
          ++ lib.sign_schnorr key sighash
            ∷ leaf.script
            ∷ build_control_block spend_info leaf (is_some annex)
            ∷ []))
        t

  -- A spend of the key: the annex and the signature.
  unfoldable pub sign_key_spend :
      ℕ → List TxOut → TaprootSpendInfo → Option Bytes → Transaction → Run Transaction
  sign_key_spend idx prevouts spend_info annex t = do
    key ← checked_key spend_info.keypair.secret_key
    sighash ← or_raise misc_error (lib.key_spend_hash t idx prevouts)
    change_input idx
        (push_witness (
          annex_elem annex
          ++ lib.sign_schnorr (lib.tap_tweak key spend_info.merkle_root) sighash ∷ []))
        t

  unfoldable pub sign_taproot : ℕ → List TxOut → TaprootRequest → Transaction → Run Transaction
  sign_taproot idx prevouts r t = do
    var ← or_raise misc_error r.spend_info_var
    spend_info ← expect (get_variable as_spend_info var)
    annex ← get_annex r.annex_var
    on_option (or_else r.selected_leaf spend_info.selected_leaf)
        (sign_key_spend idx prevouts spend_info annex t)
        λ leaf. sign_script_spend idx prevouts spend_info annex leaf t

  unfoldable pub sign_request :
      ℕ → List TxOut → Txo → Option SigningRequest → Transaction → Run Transaction
  sign_request idx prevouts txo none t = pure t
  sign_request idx prevouts txo (some (legacy r)) t = do
    private_key ← expect (get_variable as_array32 r.private_key_var)
    flag ← expect (get_variable as_u8 r.sighash_var)
    sign_with r.operation idx txo private_key flag t
  sign_request idx prevouts txo (some (taproot r)) t = sign_taproot idx prevouts r t

  -- The loop over the inputs, from the index `idx` on.
  unfoldable pub sign_inputs : ℕ → List TxOut → List TxInput → Transaction → Run Transaction
  sign_inputs idx prevouts [] t = pure t
  sign_inputs idx prevouts (i ∷ rest) t = do
    txo ← expect (get_variable as_txo i.txo_var)
    signed ← sign_request idx prevouts txo txo.scripts.requires_signing t
    sign_inputs (suc idx) prevouts rest signed

  abbrev finalized : Tx → Transaction → List (Scripts × ℕ) → Tx
  finalized t signed outputs = record t {
    tx = signed;
    txos = txos_from (lib.compute_txid signed) 0 outputs;
    id = lib.compute_txid signed;
  }

  abbrev filled_in : Tx → List TxIn → List TxOut → Transaction
  filled_in t input output = record t.tx {
    input = t.tx.input ++ input;
    output = t.tx.output ++ output;
  }

  unfoldable pub finalize_tx : List ℕ → Run (Unit {0})
  finalize_tx inputs = do
    tx_inputs ← get_input as_tx_inputs inputs 1
    tx_outputs ← get_input as_tx_outputs inputs 2
    t ← get_input as_tx inputs 0
    input ← each build_txin tx_inputs.inputs
    prevouts ← each build_prevout tx_inputs.inputs
    signed ←
        sign_inputs 0 prevouts tx_inputs.inputs
          (filled_in t input (map output_of tx_outputs.outputs))
    append_variable as_tx (finalized t signed tx_outputs.outputs)
