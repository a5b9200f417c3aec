-- ===== src/Compiler/Types/Coins.antt =====
-- The Rust types of the parts of transactions, for the downcasts of compiler.rs in workloads/ir-workload/
-- fuzzamoto-ir/src.
use bitcoin_antithesis.Prelude.{◌≡◌, refl, Option, none, some, arith}
use bitcoin_antithesis.Compiler.Values.{
  Value, TaprootSpendInfo, Witness, Scripts, Txo, TxOutputs, TxInputs, Tx,
}
use bitcoin_antithesis.Compiler.Types.{RustType, IsDowncast, type_id}

unfoldable pub cast_txo : Value → Option Txo
cast_txo (Value.txo x) = some x
cast_txo _ = none

cast_txo_ok : (v : Value) → type_id v ≡ 14 → (a : Txo) × (cast_txo v ≡ some a) × (Value.txo a ≡ v)
unfolding type_id cast_txo
cast_txo_ok (Value.txo x) e = (x, refl, refl)
cast_txo_ok _ e = absurd (omega arith)

pub txo_laws : IsDowncast 14 (Value.txo) cast_txo
unfolding type_id cast_txo
txo_laws = record { wrap_id = λ _. refl; cast_wrap = λ _. refl; cast_ok = cast_txo_ok }

abbrev pub as_txo : RustType Txo
as_txo = record { id = 14; wrap = Value.txo; cast = cast_txo; laws = txo_laws }

unfoldable pub cast_witness : Value → Option Witness
cast_witness (Value.witness x) = some x
cast_witness _ = none

cast_witness_ok :
    (v : Value) → type_id v ≡ 22 → (a : Witness) × (cast_witness v ≡ some a) × (Value.witness a ≡ v)
unfolding type_id cast_witness
cast_witness_ok (Value.witness x) e = (x, refl, refl)
cast_witness_ok _ e = absurd (omega arith)

pub witness_laws : IsDowncast 22 (Value.witness) cast_witness
unfolding type_id cast_witness
witness_laws = record { wrap_id = λ _. refl; cast_wrap = λ _. refl; cast_ok = cast_witness_ok }

abbrev pub as_witness : RustType Witness
as_witness = record { id = 22; wrap = Value.witness; cast = cast_witness; laws = witness_laws }

unfoldable pub cast_scripts : Value → Option Scripts
cast_scripts (Value.scripts x) = some x
cast_scripts _ = none

cast_scripts_ok :
    (v : Value) → type_id v ≡ 24 → (a : Scripts) × (cast_scripts v ≡ some a) × (Value.scripts a ≡ v)
unfolding type_id cast_scripts
cast_scripts_ok (Value.scripts x) e = (x, refl, refl)
cast_scripts_ok _ e = absurd (omega arith)

pub scripts_laws : IsDowncast 24 (Value.scripts) cast_scripts
unfolding type_id cast_scripts
scripts_laws = record { wrap_id = λ _. refl; cast_wrap = λ _. refl; cast_ok = cast_scripts_ok }

abbrev pub as_scripts : RustType Scripts
as_scripts = record { id = 24; wrap = Value.scripts; cast = cast_scripts; laws = scripts_laws }

unfoldable pub cast_spend_info : Value → Option TaprootSpendInfo
cast_spend_info (Value.spend_info x) = some x
cast_spend_info _ = none

cast_spend_info_ok :
    (v : Value)
    → type_id v ≡ 25
    → (a : TaprootSpendInfo) × (cast_spend_info v ≡ some a) × (Value.spend_info a ≡ v)
unfolding type_id cast_spend_info
cast_spend_info_ok (Value.spend_info x) e = (x, refl, refl)
cast_spend_info_ok _ e = absurd (omega arith)

pub spend_info_laws : IsDowncast 25 (Value.spend_info) cast_spend_info
unfolding type_id cast_spend_info
spend_info_laws = record {
  wrap_id = λ _. refl;
  cast_wrap = λ _. refl;
  cast_ok = cast_spend_info_ok;
}

abbrev pub as_spend_info : RustType TaprootSpendInfo
as_spend_info = record {
  id = 25;
  wrap = Value.spend_info;
  cast = cast_spend_info;
  laws = spend_info_laws;
}

unfoldable pub cast_tx : Value → Option Tx
cast_tx (Value.tx x) = some x
cast_tx _ = none

cast_tx_ok : (v : Value) → type_id v ≡ 26 → (a : Tx) × (cast_tx v ≡ some a) × (Value.tx a ≡ v)
unfolding type_id cast_tx
cast_tx_ok (Value.tx x) e = (x, refl, refl)
cast_tx_ok _ e = absurd (omega arith)

pub tx_laws : IsDowncast 26 (Value.tx) cast_tx
unfolding type_id cast_tx
tx_laws = record { wrap_id = λ _. refl; cast_wrap = λ _. refl; cast_ok = cast_tx_ok }

abbrev pub as_tx : RustType Tx
as_tx = record { id = 26; wrap = Value.tx; cast = cast_tx; laws = tx_laws }

unfoldable pub cast_tx_inputs : Value → Option TxInputs
cast_tx_inputs (Value.tx_inputs x) = some x
cast_tx_inputs _ = none

cast_tx_inputs_ok :
    (v : Value)
    → type_id v ≡ 27
    → (a : TxInputs) × (cast_tx_inputs v ≡ some a) × (Value.tx_inputs a ≡ v)
unfolding type_id cast_tx_inputs
cast_tx_inputs_ok (Value.tx_inputs x) e = (x, refl, refl)
cast_tx_inputs_ok _ e = absurd (omega arith)

pub tx_inputs_laws : IsDowncast 27 (Value.tx_inputs) cast_tx_inputs
unfolding type_id cast_tx_inputs
tx_inputs_laws = record { wrap_id = λ _. refl; cast_wrap = λ _. refl; cast_ok = cast_tx_inputs_ok }

abbrev pub as_tx_inputs : RustType TxInputs
as_tx_inputs = record {
  id = 27;
  wrap = Value.tx_inputs;
  cast = cast_tx_inputs;
  laws = tx_inputs_laws;
}

unfoldable pub cast_tx_outputs : Value → Option TxOutputs
cast_tx_outputs (Value.tx_outputs x) = some x
cast_tx_outputs _ = none

cast_tx_outputs_ok :
    (v : Value)
    → type_id v ≡ 28
    → (a : TxOutputs) × (cast_tx_outputs v ≡ some a) × (Value.tx_outputs a ≡ v)
unfolding type_id cast_tx_outputs
cast_tx_outputs_ok (Value.tx_outputs x) e = (x, refl, refl)
cast_tx_outputs_ok _ e = absurd (omega arith)

pub tx_outputs_laws : IsDowncast 28 (Value.tx_outputs) cast_tx_outputs
unfolding type_id cast_tx_outputs
tx_outputs_laws = record {
  wrap_id = λ _. refl;
  cast_wrap = λ _. refl;
  cast_ok = cast_tx_outputs_ok;
}

abbrev pub as_tx_outputs : RustType TxOutputs
as_tx_outputs = record {
  id = 28;
  wrap = Value.tx_outputs;
  cast = cast_tx_outputs;
  laws = tx_outputs_laws;
}
