-- ===== src/Compiler/Loads.antt =====
-- The loading of constants: handle_load_operations of workloads/ir-workload/fuzzamoto-ir/src/
-- compiler.rs.
use bitcoin_antithesis.Prelude.{◌==◌, ℕ, zero, suc, Option, none, some, length}
use bitcoin_antithesis.Operation.{
  Operation, TxoPayload, HeaderPayload, FilterLoadPayload, nop, load_bytes, load_msg_type,
  load_node, load_connection, load_connection_type, load_duration, load_addr, load_time,
  load_amount, load_size, load_tx_version, load_block_version, load_lock_time, load_sequence,
  load_block_height, load_compact_filter_type, load_private_key, load_sig_hash_flags, load_nonce,
  load_txo, load_taproot_annex, load_header, load_filter_load, load_filter_add,
}
use bitcoin_antithesis.Compiler.Bitcoin.{FilterLoad, BloomFlags}
use bitcoin_antithesis.Compiler.Values.{Txo, Header}
use bitcoin_antithesis.Compiler.Types.Numbers.{as_nop, as_usize, as_u64, as_u32, as_u8, as_i32}
use bitcoin_antithesis.Compiler.Types.Plain.{
  as_string, as_duration, as_chars, as_bytes, as_array32, as_addr_record, as_live_time,
}
use bitcoin_antithesis.Compiler.Types.Network.{as_header, as_filter_load, as_filter_add}
use bitcoin_antithesis.Compiler.Types.Coins.{as_txo}
use bitcoin_antithesis.Compiler.State.{
  Run, ◌>>=◌, ◌>>◌, pure, panics, unwrap, gets, or_insert, update_metadata, append_variable,
}

unfoldable pub update_connection_map : ℕ → ℕ → Run (Unit {0})
update_connection_map connection_id connection_var_index = update_metadata λ m. record m {
  connection_map = or_insert ◌==◌ connection_id connection_var_index m.connection_map;
}

unfoldable pub append_nops : ℕ → Run (Unit {0})
append_nops zero = pure tt
append_nops (suc n) = do append_variable as_nop tt; append_nops n

abbrev pub loaded_txo : TxoPayload → Txo
loaded_txo p = record {
  prev_out = p.outpoint;
  scripts = record {
    script_pubkey = p.script_pubkey;
    script_sig = p.spending_script_sig;
    witness = record { stack = p.spending_witness };
    requires_signing = none;
  };
  value = p.value;
}

abbrev pub loaded_header : HeaderPayload → Header
loaded_header p = record {
  prev = p.prev;
  merkle_root = p.merkle_root;
  nonce = p.nonce;
  bits = p.bits;
  time = p.time;
  version = p.version;
  height = p.height;
}

-- The last arm of the match is `unreachable!`.
abbrev pub bloom_flags : ℕ → Option BloomFlags
bloom_flags zero = some BloomFlags.none
bloom_flags (suc zero) = some BloomFlags.all
bloom_flags (suc (suc zero)) = some BloomFlags.pubkey_only
bloom_flags (suc (suc (suc _))) = none

abbrev pub loaded_filter : FilterLoadPayload → BloomFlags → FilterLoad
loaded_filter p flags = record {
  filter = p.filter;
  hash_funcs = p.hash_funcs;
  tweak = p.tweak;
  flags = flags;
}

unfoldable pub handle_load_operations : Operation → Run (Unit {0})
handle_load_operations (nop outputs inner_outputs) = do
  append_nops outputs
  append_nops inner_outputs
handle_load_operations (load_node index) = append_variable as_usize index
handle_load_operations (load_connection id) = do
  conn_index ← gets (λ s. length s.variables)
  update_connection_map id conn_index
  append_variable as_usize id
handle_load_operations (load_connection_type t) = append_variable as_string t
handle_load_operations (load_duration duration) = append_variable as_duration duration
handle_load_operations (load_addr addr) = append_variable as_addr_record addr
handle_load_operations (load_amount amount) = append_variable as_u64 amount
handle_load_operations (load_tx_version version) = append_variable as_u32 version
handle_load_operations (load_block_version version) = append_variable as_i32 version
handle_load_operations (load_lock_time lock_time) = append_variable as_u32 lock_time
handle_load_operations (load_sequence sequence) = append_variable as_u32 sequence
handle_load_operations (load_time _) = append_variable as_live_time tt
handle_load_operations (load_block_height height) = append_variable as_u32 height
handle_load_operations (load_compact_filter_type t) = append_variable as_u8 t
handle_load_operations (load_msg_type t) = append_variable as_chars t
handle_load_operations (load_bytes bytes) = append_variable as_bytes bytes
handle_load_operations (load_size size) = append_variable as_usize size
handle_load_operations (load_private_key key) = append_variable as_array32 key
handle_load_operations (load_sig_hash_flags flags) = append_variable as_u8 flags
handle_load_operations (load_header p) = append_variable as_header (loaded_header p)
handle_load_operations (load_txo p) = append_variable as_txo (loaded_txo p)
handle_load_operations (load_filter_load p) = do
  flags ← unwrap (bloom_flags p.flags)
  append_variable as_filter_load (loaded_filter p flags)
handle_load_operations (load_filter_add data_bytes) = append_variable as_filter_add data_bytes
handle_load_operations (load_nonce nonce) = append_variable as_u64 nonce
handle_load_operations (load_taproot_annex annex) = append_variable as_bytes annex
handle_load_operations _ = panics
