-- ===== src/Compiler/Typed/Scripts.antt =====
-- The handlers of scripts keep the types of the variables: compiler.rs of workloads/ir-workload/
-- fuzzamoto-ir/src.
use bitcoin_antithesis.Prelude.{
  ℕ, subst, inl, inr, Option-cases, List, [], ◌∷◌, ◌++◌, Option, none, some,
}
use bitcoin_antithesis.Operation.{Operation, TaprootLeafSpec, nop, build_taproot_tree}
use bitcoin_antithesis.Operation.Signature.{
  get_input_variables, get_output_variables, get_inner_output_variables,
}
use bitcoin_antithesis.Compiler.Bitcoin.{Bytes, Library, NodeInfo, SpendInfo}
use bitcoin_antithesis.Compiler.Values.{Scripts, TaprootKeypair, SigningRequest, legacy, taproot}
use bitcoin_antithesis.Compiler.State.{Run, ◌>>=◌, pure, raise, or_raise}
use bitcoin_antithesis.Compiler.Refers.{HasTypeIfAny, RequestRefers, ScriptsRefers}
use bitcoin_antithesis.Compiler.Types.Numbers.{as_u8}
use bitcoin_antithesis.Compiler.Types.Plain.{as_array32}
use bitcoin_antithesis.Compiler.Types.Coins.{as_scripts}
use bitcoin_antithesis.Compiler.Taproot.{
  annexed, use_annex, handle_taproot_conversions, taproot_script, combine_path, build_key_spend,
  build_script_spend, handle_build_taproot_tree,
}
use bitcoin_antithesis.Compiler.Scripts.{
  first_of, push_all, build_signed, p2wpkh_parts, handle_script_building_operations,
}
use bitcoin_antithesis.Compiler.Typed.{
  Types, HasTypes, HasInput, extend, type_of, compiled_types, step-Types, unwrap-Types,
}
use bitcoin_antithesis.Compiler.Typed.Access.{
  typed, index-Types, input-Types, input_at-Types, append_variable-Types,
}

-- The annex leaves the spend of a request as it is.
annexed-refers :
    (Γ : List ℕ) (r : Option SigningRequest) (var : ℕ)
    → RequestRefers Γ r
    → RequestRefers Γ (annexed r var)
annexed-refers Γ none var h = tt
annexed-refers Γ (some (legacy r)) var h = tt
annexed-refers Γ (some (taproot r)) var h = h

-- What follows an annex may use what the scripts refer to.
use_annex-Types :
    {B : Type 0} {Γ Δ : List ℕ} (scripts : Scripts) (var : ℕ) (f : Scripts → Run B)
    → ScriptsRefers Γ scripts
    → ((s : Scripts) → ScriptsRefers Γ s → Types Γ (f s) Δ)
    → Types Γ (use_annex scripts var >>= f) Δ
unfolding use_annex or_raise raise pure ◌>>=◌
use_annex-Types {Γ} scripts var f h g = elim (Option-cases (annexed scripts.requires_signing var)) [
  | inl no_request ↦ rw no_request (record { ends = λ s e. tt })
  | inr (r, there) ↦ rw there (record {
    ends = λ s e.
        (g (record scripts { requires_signing = some r })
            (subst (RequestRefers Γ) there (annexed-refers Γ scripts.requires_signing var h))).ends
          s e;
  })
]

pub handle_taproot_conversions-Types :
    {Γ : List ℕ} (op : Operation) (inputs : List ℕ)
    → HasTypes Γ inputs (get_input_variables op)
    → Types Γ (handle_taproot_conversions op inputs) (extend Γ (compiled_types op))
unfolding handle_taproot_conversions get_input_variables get_output_variables
    get_inner_output_variables type_of compiled_types
handle_taproot_conversions-Types (nop a b) inputs h = search typed
handle_taproot_conversions-Types _ inputs h = search (use_annex-Types, typed, index-Types 9) depth 9

-- The first input is the spend.
first_input-Refers :
    (Γ inputs : List ℕ) → HasInput Γ inputs 0 25 → HasTypeIfAny Γ (first_of inputs) 25
unfolding HasInput
first_input-Refers Γ [] h = tt
first_input-Refers Γ (i ∷ is) h = h

module _ (lib : Library) {Γ : List ℕ} where
  combine_path-Types :
      (path : List Bytes) (node : NodeInfo) → Types Γ (combine_path lib path node) Γ
  unfolding combine_path
  combine_path-Types [] node = search typed
  combine_path-Types (hash ∷ path) node =
      step-Types _ _ (search typed)
        λ h. step-Types _ _ (search typed) λ combined. combine_path-Types path combined

  taproot_script-Types : (s : SpendInfo) → Types Γ (taproot_script lib s) Γ
  unfolding taproot_script
  taproot_script-Types s = search typed

  build_key_spend-Types :
      (keypair : TaprootKeypair) → Types Γ (build_key_spend lib keypair) (Γ ++ 25 ∷ [])
  unfolding build_key_spend
  build_key_spend-Types keypair = search (typed, taproot_script-Types)

  build_script_spend-Types :
      (keypair : TaprootKeypair) (leaf : TaprootLeafSpec)
      → Types Γ (build_script_spend lib keypair leaf) (Γ ++ 25 ∷ [])
  unfolding build_script_spend
  build_script_spend-Types keypair leaf =
      search (typed, taproot_script-Types, combine_path-Types) depth 9

  push_all-Types : (stack : List Bytes) (script : Bytes) → Types Γ (push_all lib stack script) Γ
  unfolding push_all
  push_all-Types [] script = search typed
  push_all-Types (elem ∷ stack) script =
      step-Types _ _ (search typed) λ pushed. push_all-Types stack pushed

  p2wpkh_parts-Types : (key : Bytes) → Types Γ (p2wpkh_parts lib key) Γ
  unfolding p2wpkh_parts
  p2wpkh_parts-Types key = search typed

  build_signed-Types :
      (op : Operation) (scripts_for : Bytes → Run (Bytes × Bytes × List Bytes)) (inputs : List ℕ)
      → ((key : Bytes) → Types Γ (scripts_for key) Γ)
      → HasInput Γ inputs 0 10
      → HasInput Γ inputs 1 4
      → Types Γ (build_signed lib op scripts_for inputs) (Γ ++ 24 ∷ [])
  unfolding build_signed
  build_signed-Types op scripts_for inputs h first second =
      input-Types as_array32 inputs 0 _ first λ private_key _.
        input-Types as_u8 inputs 1 _ second λ flags _. step-Types _ _ (unwrap-Types _) λ public_key.
          step-Types _ _ (h public_key) λ parts.
            input_at-Types inputs 0 _ first λ private_key_var is_key.
              input_at-Types inputs 1 _ second
                λ sighash_var is_flag. append_variable-Types as_scripts _ (is_key, is_flag)

module _ (lib : Library) where
  pub handle_build_taproot_tree-Types :
      {Γ : List ℕ} (op : Operation) (inputs : List ℕ)
      → HasTypes Γ inputs (get_input_variables op)
      → Types Γ (handle_build_taproot_tree lib op) (extend Γ (compiled_types op))
  unfolding handle_build_taproot_tree get_input_variables get_output_variables
      get_inner_output_variables type_of compiled_types
  handle_build_taproot_tree-Types (build_taproot_tree a b) inputs h =
      search (typed, build_key_spend-Types, build_script_spend-Types)
  handle_build_taproot_tree-Types _ inputs h = search typed

  pub handle_script_building_operations-Types :
      {Γ : List ℕ} (op : Operation) (inputs : List ℕ)
      → HasTypes Γ inputs (get_input_variables op)
      → Types Γ (handle_script_building_operations lib op inputs) (extend Γ (compiled_types op))
  unfolding handle_script_building_operations get_input_variables get_output_variables
      get_inner_output_variables type_of compiled_types
  handle_script_building_operations-Types (nop a b) inputs h = search typed
  handle_script_building_operations-Types _ inputs h =
      search (typed, first_input-Refers, push_all-Types, build_signed-Types, p2wpkh_parts-Types)
        depth 7
