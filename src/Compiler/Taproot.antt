-- ===== src/Compiler/Taproot.antt =====
-- Taproot trees and annexes: handle_build_taproot_tree, handle_taproot_conversions and
-- build_control_block of workloads/ir-workload/fuzzamoto-ir/src/compiler.rs.
use Prim.Native.Nat.{bit_and, bit_or}
use bitcoin_antithesis.Prelude.{ℕ, Bool, List, [], ◌∷◌, ◌++◌, Option, none, some, if◌then◌else◌}
use bitcoin_antithesis.Operation.{
  Operation, TaprootLeafSpec, build_taproot_tree, taproot_scripts_use_annex, taproot_txo_use_annex,
}
use bitcoin_antithesis.Compiler.Bitcoin.{Bytes, Library, NodeInfo, SpendInfo}
use bitcoin_antithesis.Compiler.Values.{
  TaprootKeypair, TaprootLeaf, TaprootSpendInfo, SigningRequest, Scripts, legacy, taproot,
}
use bitcoin_antithesis.Compiler.Types.Plain.{as_bytes}
use bitcoin_antithesis.Compiler.Types.Coins.{as_txo, as_scripts, as_spend_info}
use bitcoin_antithesis.Compiler.State.{
  misc_error, Run, ◌>>=◌, pure, raise, panics, or_raise, on_option, input_index, get_input,
  append_variable,
}

-- `op_pushnum_1`.
abbrev pub op_1 : ℕ
op_1 = 0x51

unfoldable pub concat_all : List Bytes → Bytes
concat_all [] = []
concat_all (b ∷ bs) = b ++ concat_all bs

unfoldable pub build_control_block : TaprootSpendInfo → TaprootLeaf → Bool → Bytes
build_control_block spend_info leaf annex_present =
    let first_byte = bit_or leaf.version (bit_and spend_info.output_key_parity 1) in
    (if annex_present then bit_or first_byte 2 else first_byte) ∷ spend_info.keypair.public_key
    ++ concat_all leaf.merkle_branch

abbrev pub annexed : Option SigningRequest → ℕ → Option SigningRequest
annexed (some (taproot r)) annex_var = some (taproot (record r { annex_var = some annex_var }))
annexed (some (legacy _)) annex_var = none
annexed none annex_var = none

-- The scripts with the annex, if they ask for a taproot signature.
unfoldable pub use_annex : Scripts → ℕ → Run Scripts
use_annex scripts annex_var = do
  request ← or_raise misc_error (annexed scripts.requires_signing annex_var)
  pure (record scripts { requires_signing = some request })

unfoldable pub handle_taproot_conversions : Operation → List ℕ → Run (Unit {0})
handle_taproot_conversions taproot_scripts_use_annex inputs = do
  scripts ← get_input as_scripts inputs 0
  annex_var ← input_index inputs 1
  annex ← get_input as_bytes inputs 1
  annexed_scripts ← use_annex scripts annex_var
  append_variable as_scripts annexed_scripts
handle_taproot_conversions taproot_txo_use_annex inputs = do
  txo ← get_input as_txo inputs 0
  annex_var ← input_index inputs 1
  annex ← get_input as_bytes inputs 1
  annexed_scripts ← use_annex txo.scripts annex_var
  append_variable as_txo (record txo { scripts = annexed_scripts })
handle_taproot_conversions _ inputs = panics

module _ (lib : Library) where
  -- OP_PUSHNUM_1 and the output key; a key that is too long to push is an error.
  unfoldable pub taproot_script : SpendInfo → Run Bytes
  taproot_script s = or_raise misc_error (lib.push_slice (lib.push_opcode [] op_1) s.output_key)

  -- The leaf is combined with the hidden nodes of its path, from the bottom up.
  unfoldable pub combine_path : List Bytes → NodeInfo → Run NodeInfo
  combine_path [] node = pure node
  combine_path (hash_bytes ∷ path) node = do
    hash ← or_raise misc_error (lib.tap_node_hash hash_bytes)
    combined ← or_raise misc_error (lib.combine node (lib.new_hidden_node hash))
    combine_path path combined

  abbrev spend_info_of : TaprootKeypair → SpendInfo → Bytes → Option TaprootLeaf → TaprootSpendInfo
  spend_info_of keypair s script leaf = record {
    keypair = keypair;
    merkle_root = s.merkle_root;
    output_key = s.output_key;
    output_key_parity = if s.is_odd then 1 else 0;
    script_pubkey = script;
    leaves = elim leaf [ none ↦ [] | some l ↦ l ∷ [] ];
    selected_leaf = leaf;
  }

  -- `new_key_spend` without a root gives a spend without one.
  unfoldable pub build_key_spend : TaprootKeypair → Run (Unit {0})
  unfolding taproot_script
  build_key_spend keypair = do
    script ← taproot_script (lib.new_key_spend keypair.public_key)
    append_variable as_spend_info
        (record (spend_info_of keypair (lib.new_key_spend keypair.public_key) script none) {
          merkle_root = none;
        })

  unfoldable pub build_script_spend : TaprootKeypair → TaprootLeafSpec → Run (Unit {0})
  unfolding taproot_script
  build_script_spend keypair leaf = do
    version ← or_raise misc_error (lib.leaf_version leaf.version)
    node ← combine_path leaf.merkle_path (lib.new_leaf_with_ver leaf.script version)
    script ← taproot_script (lib.from_node_info keypair.public_key node)
    merkle_branch ←
        or_raise misc_error
          (lib.control_block (lib.from_node_info keypair.public_key node) leaf.script version)
    append_variable as_spend_info (
        spend_info_of keypair (lib.from_node_info keypair.public_key node) script (
          some (record { version = version; script = leaf.script; merkle_branch = merkle_branch })))

  abbrev keypair_of : Bytes → TaprootKeypair
  keypair_of secret_key = record {
    secret_key = secret_key;
    public_key = lib.x_only_public_key secret_key;
  }

  unfoldable pub handle_build_taproot_tree : Operation → Run (Unit {0})
  handle_build_taproot_tree (build_taproot_tree secret_key script_leaf) =
      if lib.is_secret_key secret_key
      then on_option script_leaf (build_key_spend (keypair_of secret_key))
          (build_script_spend (keypair_of secret_key))
      else raise misc_error
  handle_build_taproot_tree _ = panics
