-- ===== src/Compiler/Grows/Signing.antt =====
-- finalize_tx only adds to the records: compiler.rs of workloads/ir-workload/fuzzamoto-ir/src.
use bitcoin_antithesis.Prelude.{ap, refl, ◌∙◌, ◌≡◌, ℕ, suc, List, [], ◌∷◌, Option, none, some}
use bitcoin_antithesis.Operation.{Operation, nop}
use bitcoin_antithesis.Compiler.Bitcoin.{Bytes, Library, Transaction, TxIn, TxOut}
use bitcoin_antithesis.Compiler.Values.{
  SigningRequest, legacy, taproot, TaprootRequest, TaprootLeaf, TaprootSpendInfo, TxInput, Txo,
}
use bitcoin_antithesis.Compiler.State.{Exit, Compiler, Run, ok, err, panic, lost, diverge}
use bitcoin_antithesis.Compiler.Signing.{
  build_txin, build_prevout, change_input, misc_only, or_misc, get_annex, checked_key,
  push_signature, sign_legacy, sign_segwit, sign_with, sign_script_spend, sign_key_spend,
  sign_taproot, sign_request, sign_inputs, finalize_tx,
}
use bitcoin_antithesis.Compiler.Records.{noted_after, Grows}
use bitcoin_antithesis.Compiler.Grows.{Growing, growing, bind-Growing, each-Growing}

build_txin-Growing : (i : TxInput) → Growing (build_txin i)
unfolding build_txin
build_txin-Growing i = search growing

build_prevout-Growing : (i : TxInput) → Growing (build_prevout i)
unfolding build_prevout
build_prevout-Growing i = search growing

change_input-Growing :
    (idx : ℕ) (f : TxIn → TxIn) (t : Transaction) → Growing (change_input idx f t)
unfolding change_input
change_input-Growing idx f t = search growing

misc_only-Grows :
    {A : Type 0} (s : Compiler) (r : Exit A × Compiler) → Grows s r.1 → Grows s (misc_only r).1
unfolding misc_only
misc_only-Grows s (ok a, t) g = g
misc_only-Grows s (err e, t) g = g
misc_only-Grows s (panic, t) g = g
misc_only-Grows s (lost cause, t) g = g
misc_only-Grows s (diverge, t) g = g

misc_only-noted :
    {A : Type 0} (n : ℕ) (r : Exit A × Compiler)
    → misc_only (noted_after n r) ≡ noted_after n (misc_only r)
unfolding misc_only
misc_only-noted n (ok a, t) = refl
misc_only-noted n (err e, t) = refl
misc_only-noted n (panic, t) = refl
misc_only-noted n (lost cause, t) = refl
misc_only-noted n (diverge, t) = refl

or_misc-Growing : {A : Type 0} (m : Run A) → Growing m → Growing (or_misc m)
unfolding or_misc
or_misc-Growing m g = record {
  grows = λ s. misc_only-Grows s (m s) (g.grows s);
  framed = λ n s. ap misc_only (g.framed n s) ∙ misc_only-noted n (m s);
}

get_annex-Growing : (var : Option ℕ) → Growing (get_annex var)
unfolding get_annex
get_annex-Growing none = search growing
get_annex-Growing (some var) = search (growing, or_misc-Growing)

ruleset inputs_growing = (growing, change_input-Growing, get_annex-Growing)

module _ (lib : Library) where
  checked_key-Growing : (key : Bytes) → Growing (checked_key lib key)
  unfolding checked_key
  checked_key-Growing key = search growing

  sign_legacy-Growing :
      (idx : ℕ) (txo : Txo) (key : Bytes) (flag : ℕ) (t : Transaction)
      → Growing (sign_legacy lib idx txo key flag t)
  unfolding sign_legacy push_signature
  sign_legacy-Growing idx txo key flag t = search (inputs_growing, checked_key-Growing) depth 9

  sign_segwit-Growing :
      (idx : ℕ) (txo : Txo) (key : Bytes) (flag : ℕ) (t : Transaction)
      → Growing (sign_segwit lib idx txo key flag t)
  unfolding sign_segwit
  sign_segwit-Growing idx txo key flag t = search (inputs_growing, checked_key-Growing) depth 9

  sign_with-Growing :
      (op : Operation) (idx : ℕ) (txo : Txo) (key : Bytes) (flag : ℕ) (t : Transaction)
      → Growing (sign_with lib op idx txo key flag t)
  unfolding sign_with
  sign_with-Growing (nop a b) idx txo key flag t = search growing
  sign_with-Growing _ idx txo key flag t =
      search (growing, sign_legacy-Growing, sign_segwit-Growing)

  sign_script_spend-Growing :
      (idx : ℕ) (prevouts : List TxOut) (s : TaprootSpendInfo) (annex : Option Bytes)
      (leaf : TaprootLeaf) (t : Transaction)
      → Growing (sign_script_spend lib idx prevouts s annex leaf t)
  unfolding sign_script_spend
  sign_script_spend-Growing idx prevouts s annex leaf t =
      search (inputs_growing, checked_key-Growing) depth 9

  sign_key_spend-Growing :
      (idx : ℕ) (prevouts : List TxOut) (s : TaprootSpendInfo) (annex : Option Bytes)
      (t : Transaction)
      → Growing (sign_key_spend lib idx prevouts s annex t)
  unfolding sign_key_spend
  sign_key_spend-Growing idx prevouts s annex t =
      search (inputs_growing, checked_key-Growing) depth 9

  sign_taproot-Growing :
      (idx : ℕ) (prevouts : List TxOut) (r : TaprootRequest) (t : Transaction)
      → Growing (sign_taproot lib idx prevouts r t)
  unfolding sign_taproot
  sign_taproot-Growing idx prevouts r t =
      search (inputs_growing, sign_key_spend-Growing, sign_script_spend-Growing) depth 9

  sign_request-Growing :
      (idx : ℕ) (prevouts : List TxOut) (txo : Txo) (r : Option SigningRequest) (t : Transaction)
      → Growing (sign_request lib idx prevouts txo r t)
  unfolding sign_request
  sign_request-Growing idx prevouts txo none t = search growing
  sign_request-Growing idx prevouts txo (some (legacy r)) t = search (growing, sign_with-Growing)
  sign_request-Growing idx prevouts txo (some (taproot r)) t = sign_taproot-Growing idx prevouts r t

  sign_inputs-Growing :
      (idx : ℕ) (prevouts : List TxOut) (is : List TxInput) (t : Transaction)
      → Growing (sign_inputs lib idx prevouts is t)
  unfolding sign_inputs
  sign_inputs-Growing idx prevouts [] t = search growing
  sign_inputs-Growing idx prevouts (i ∷ rest) t = bind-Growing _ _ (search growing) λ txo.
      bind-Growing _ _ (sign_request-Growing idx prevouts txo _ t)
        λ signed. sign_inputs-Growing (suc idx) prevouts rest signed

  pub finalize_tx-Growing : (inputs : List ℕ) → Growing (finalize_tx lib inputs)
  unfolding finalize_tx
  finalize_tx-Growing inputs =
      search (growing, each-Growing, build_txin-Growing, build_prevout-Growing, sign_inputs-Growing)
        depth 12
