-- ===== src/Compiler/Scripts.antt =====
-- Scripts: handle_script_building_operations of workloads/ir-workload/fuzzamoto-ir/src/compiler.rs.
use bitcoin_antithesis.Prelude.{ℕ, List, [], ◌∷◌, ◌++◌, Option, none, some, replicate}
use bitcoin_antithesis.Operation.{
  Operation, build_raw_scripts, build_pay_to_witness_script_hash, build_pay_to_pub_key,
  build_pay_to_pub_key_hash, build_pay_to_witness_pub_key_hash, build_pay_to_script_hash,
  build_op_return_scripts, build_pay_to_anchor, build_pay_to_taproot,
}
use bitcoin_antithesis.Compiler.Bitcoin.{Bytes, Library}
use bitcoin_antithesis.Compiler.Values.{SigningRequest, Scripts, legacy, taproot}
use bitcoin_antithesis.Compiler.Types.Numbers.{as_usize, as_u8}
use bitcoin_antithesis.Compiler.Types.Plain.{as_bytes, as_array32}
use bitcoin_antithesis.Compiler.Types.Coins.{as_witness, as_scripts, as_spend_info}
use bitcoin_antithesis.Compiler.State.{
  Run, ◌>>=◌, pure, panics, unwrap, input_at, get_input, append_variable,
}

abbrev op_0 : ℕ
op_0 = 0

abbrev op_true : ℕ
op_true = 0x51

abbrev op_return : ℕ
op_return = 0x6a

abbrev scripts_of : Bytes → Bytes → List Bytes → Option SigningRequest → Scripts
scripts_of script_pubkey script_sig stack request = record {
  script_pubkey = script_pubkey;
  script_sig = script_sig;
  witness = record { stack = stack };
  requires_signing = request;
}

-- `inputs.first().copied()`, and the leaf that is selected, else the first one.
abbrev pub first_of {ℓ} : {A : Type ℓ} → List A → Option A
first_of [] = none
first_of (x ∷ _) = some x

abbrev pub or_else {ℓ} : {A : Type ℓ} → Option A → Option A → Option A
or_else (some a) other = some a
or_else none other = other

module _ (lib : Library) where
  unfoldable pub push_all : List Bytes → Bytes → Run Bytes
  push_all [] script = pure script
  push_all (elem ∷ stack) script = do
    pushed ← unwrap (lib.push_slice script elem)
    push_all stack pushed

  -- The scripts that are signed with a private key: `script` and `script_sig` of the public key.
  unfoldable pub build_signed :
      Operation → (Bytes → Run (Bytes × Bytes × List Bytes)) → List ℕ → Run (Unit {0})
  build_signed op scripts_for inputs = do
    private_key ← get_input as_array32 inputs 0
    sig_hash_flags ← get_input as_u8 inputs 1
    public_key ← unwrap (lib.public_key private_key)
    parts ← scripts_for public_key
    private_key_var ← input_at inputs 0
    sighash_var ← input_at inputs 1
    append_variable as_scripts (
        scripts_of parts.0 parts.1 parts.2 (
          some (
            legacy (record {
              operation = op;
              private_key_var = private_key_var;
              sighash_var = sighash_var;
            }))))

  unfoldable pub p2wpkh_parts : Bytes → Run (Bytes × Bytes × List Bytes)
  p2wpkh_parts key = do script ← unwrap (lib.new_p2wpkh key); pure (script, [], key ∷ [])

  unfoldable pub handle_script_building_operations : Operation → List ℕ → Run (Unit {0})
  handle_script_building_operations build_pay_to_witness_script_hash inputs = do
    script ← get_input as_bytes inputs 0
    w ← get_input as_witness inputs 1
    append_variable as_scripts
        (scripts_of (op_0 ∷ 32 ∷ lib.sha256 script) [] (w.stack ++ script ∷ []) none)
  handle_script_building_operations build_pay_to_script_hash inputs = do
    script ← get_input as_bytes inputs 0
    w ← get_input as_witness inputs 1
    script_sig ← push_all (w.stack ++ script ∷ []) (lib.push_opcode [] op_0)
    append_variable as_scripts (scripts_of (lib.new_p2sh script) script_sig [] none)
  handle_script_building_operations build_pay_to_anchor inputs =
      append_variable as_scripts (scripts_of (op_true ∷ 0x2 ∷ 0x4e ∷ 0x73 ∷ []) [] [] none)
  handle_script_building_operations build_raw_scripts inputs = do
    script_pubkey ← get_input as_bytes inputs 0
    script_sig ← get_input as_bytes inputs 1
    w ← get_input as_witness inputs 2
    append_variable as_scripts (scripts_of script_pubkey script_sig w.stack none)
  handle_script_building_operations build_op_return_scripts inputs = do
    size ← get_input as_usize inputs 0
    script ← unwrap (lib.push_slice (lib.push_opcode [] op_return) (replicate size 0x41))
    append_variable as_scripts (scripts_of script [] [] none)
  handle_script_building_operations build_pay_to_taproot inputs = do
    spend_info ← get_input as_spend_info inputs 0
    append_variable as_scripts (
        scripts_of spend_info.script_pubkey [] [] (
          some (
            taproot (record {
              spend_info_var = first_of inputs;
              selected_leaf = or_else spend_info.selected_leaf (first_of spend_info.leaves);
              annex_var = none;
            }))))
  handle_script_building_operations build_pay_to_pub_key inputs =
      build_signed build_pay_to_pub_key (λ key. pure (lib.new_p2pk key, [], [])) inputs
  handle_script_building_operations build_pay_to_pub_key_hash inputs =
      build_signed build_pay_to_pub_key_hash
        (λ key. pure (lib.new_p2pkh key, lib.push_key [] key, [])) inputs
  handle_script_building_operations build_pay_to_witness_pub_key_hash inputs =
      build_signed build_pay_to_witness_pub_key_hash p2wpkh_parts inputs
  handle_script_building_operations _ inputs = panics
