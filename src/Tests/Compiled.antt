-- ===== src/Tests/Compiled.antt =====
-- The compiler on the small programs, with plain functions in place of those of rust-bitcoin.
use bitcoin_antithesis.Prelude.{◌≡◌, refl, true, false, [], ◌∷◌, ◌++◌, none, some, ◌+◌, leb}
use bitcoin_antithesis.Compiler.Bitcoin.{Library}
use bitcoin_antithesis.Compiler.State.{
  CompiledAction, new_compiler, update_metadata, gets, pure, emit, append_variable, get_input,
  get_variable, found, downcast, input_index, or_raise, ◌>>=◌,
}
use bitcoin_antithesis.Compiler.Types.Numbers.{cast_usize}
use bitcoin_antithesis.Compiler.Types.Network.{cast_inventory}
use bitcoin_antithesis.Compiler.Loads.{handle_load_operations, update_connection_map}
use bitcoin_antithesis.Compiler.Inventories.{handle_inventory_operations}
use bitcoin_antithesis.Compiler.Sending.{
  handle_message_sending_operations, emit_send_message, emit_send_raw_message, codes,
}
use bitcoin_antithesis.Compiler.Arms.{compile_operation}
use bitcoin_antithesis.Compiler.Compile.{compile, compile_steps, compile_step, record_indices}
use bitcoin_antithesis.Compiler.Grows.Indices.{IsIndexed}
use bitcoin_antithesis.Compiler.Grows.Traced.{Traced, compile-Traced}
use bitcoin_antithesis.Tests.{send_inventory}

-- Hashes and scripts are empty, every key is good, and nonces below 3 are not.
abbrev pub plain : Library
plain = record {
  reduced_pow = false;
  system_time = λ i. 1296688602 + i;
  compute_txid = λ t. [];
  compute_wtxid = λ t. [];
  block_hash = λ h. h.nonce ∷ [];
  validate_pow = λ h. leb 3 h.nonce;
  witness_root = λ b. some [];
  compute_merkle_root = λ b. some [];
  compute_witness_commitment = λ root. root;
  short_ids = λ b nonce. none;
  serialize = λ m. 7 ∷ [];
  new_address = λ a services. record { services = services; address = []; port = 0 };
  murmur3 = λ key seed. seed;
  sha256 = λ b. b;
  push_opcode = λ b op. b ++ op ∷ [];
  push_slice = λ b pushed. some (b ++ pushed);
  push_int = λ b n. b ++ n ∷ [];
  push_key = λ b key. b ++ key;
  new_p2sh = λ b. b;
  new_p2pk = λ b. b;
  new_p2pkh = λ b. b;
  new_p2wpkh = λ b. some b;
  public_key = λ b. some b;
  is_secret_key = λ b. true;
  x_only_public_key = λ b. b;
  new_key_spend =
      λ b. record { output_key = b; is_odd = false; merkle_root = none; script_map = [] };
  leaf_version = λ v. some v;
  new_leaf_with_ver = λ script v. record { hash = script; leaves = [] };
  tap_node_hash = λ b. some b;
  new_hidden_node = λ b. record { hash = b; leaves = [] };
  combine = λ l r. some l;
  from_node_info =
      λ b n. record { output_key = b; is_odd = false; merkle_root = none; script_map = [] };
  control_block = λ s script v. some [];
  legacy_signature_hash = λ t i script flag. some [];
  p2wpkh_signature_hash = λ t i script value flag. some [];
  ecdsa_sighash_type = λ flag. flag;
  sign_ecdsa = λ key hash flag. flag ∷ [];
  tap_leaf_hash = λ script v. script;
  script_spend_hash = λ t i prevouts leaf. some [];
  key_spend_hash = λ t i prevouts. some [];
  tap_tweak = λ key root. key;
  sign_schnorr = λ key hash. hash;
}

new_compiler-IsIndexed : IsIndexed new_compiler
unfolding new_compiler
new_compiler-IsIndexed = record { counted = refl; known = tt; acted = refl; known_actions = tt }

compile-Traced_example : Traced (compile plain send_inventory new_compiler)
compile-Traced_example = compile-Traced plain send_inventory new_compiler new_compiler-IsIndexed

-- The program that sends an inventory is compiled to its message.
inventory_sent :
    (compile plain send_inventory new_compiler).1.output.actions
    ≡ CompiledAction.send_raw_message 0 (codes "inv") (7 ∷ []) ∷ []
unfolding compile compile_steps compile_step compile_operation record_indices update_metadata gets
    pure emit append_variable get_input get_variable found downcast input_index or_raise ◌>>=◌
    new_compiler handle_load_operations update_connection_map handle_inventory_operations
    handle_message_sending_operations emit_send_message emit_send_raw_message cast_inventory
    cast_usize
inventory_sent = refl
