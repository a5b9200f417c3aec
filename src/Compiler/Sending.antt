-- ===== src/Compiler/Sending.antt =====
-- Messages: handle_message_sending_operations, handle_time_operations and handle_probe_operations of
-- workloads/ir-workload/fuzzamoto-ir/src/compiler.rs.
use Prim.Native.String.{String, [], ◌∷◌}
use Prim.Native.Char.{code}
use bitcoin_antithesis.Prelude.{ℕ, List, ◌++◌, map}
use bitcoin_antithesis.Operation.{
  Operation, advance_time, set_time, probe, send_raw_message, send_get_data, send_inv,
  send_get_addr, send_addr, send_addr_v2, send_tx, send_tx_no_wit, send_header, send_block,
  send_block_no_wit, send_get_c_filters, send_get_cf_headers, send_get_cf_checkpt, send_filter_load,
  send_filter_add, send_filter_clear, send_compact_block, send_block_txn,
}
use bitcoin_antithesis.Compiler.Bitcoin.{Bytes, Library, Transaction, TxIn, Message}
use bitcoin_antithesis.Compiler.Types.Numbers.{as_usize, as_u32, as_u8}
use bitcoin_antithesis.Compiler.Types.Plain.{as_chars, as_bytes}
use bitcoin_antithesis.Compiler.Types.Network.{
  as_header, as_filter_load, as_filter_add, as_inventory, as_addresses, as_addr_messages,
  as_compact_block,
}
use bitcoin_antithesis.Compiler.Types.Coins.{as_tx}
use bitcoin_antithesis.Compiler.Types.Blocks.{as_block, as_block_txn}
use bitcoin_antithesis.Compiler.State.{CompiledAction, Run, ◌>>=◌, pure, panics, get_input, emit}
use bitcoin_antithesis.Compiler.Blocks.{to_bitcoin_header}

-- The numbers of a text's characters.
abbrev pub codes : String → List ℕ
codes [] = List.[]
codes (c ∷ s) = List.◌∷◌ (code c) (codes s)

unfoldable pub emit_send_raw_message : ℕ → List ℕ → Bytes → Run (Unit {0})
emit_send_raw_message connection_var message_type bytes =
    emit (CompiledAction.send_raw_message connection_var message_type bytes)

abbrev strip_input : TxIn → TxIn
strip_input i = record i { witness = List.[] }

abbrev pub strip_witness : Transaction → Transaction
strip_witness t = record t { input = map strip_input t.input }

unfoldable pub handle_time_operations : Operation → Run (Unit {0})
handle_time_operations advance_time = pure tt
handle_time_operations set_time = pure tt
handle_time_operations _ = panics

unfoldable pub handle_probe_operations : Operation → Run (Unit {0})
handle_probe_operations probe = emit CompiledAction.probe
handle_probe_operations _ = panics

module _ (lib : Library) where
  unfoldable pub emit_send_message : ℕ → String → Message → Run (Unit {0})
  emit_send_message connection_var message_type message =
      emit_send_raw_message connection_var (codes message_type) (lib.serialize message)

  unfoldable pub handle_message_sending_operations : Operation → List ℕ → Run (Unit {0})
  handle_message_sending_operations send_block_txn inputs = do
    connection ← get_input as_usize inputs 0
    b ← get_input as_block_txn inputs 1
    emit_send_message connection "blocktxn" (Message.block_txn b)
  handle_message_sending_operations send_raw_message inputs = do
    connection ← get_input as_usize inputs 0
    message_type ← get_input as_chars inputs 1
    bytes ← get_input as_bytes inputs 2
    emit_send_raw_message connection message_type bytes
  handle_message_sending_operations send_tx_no_wit inputs = do
    connection ← get_input as_usize inputs 0
    t ← get_input as_tx inputs 1
    emit_send_message connection "tx" (Message.tx (strip_witness t.tx))
  handle_message_sending_operations send_tx inputs = do
    connection ← get_input as_usize inputs 0
    t ← get_input as_tx inputs 1
    emit_send_message connection "tx" (Message.tx t.tx)
  handle_message_sending_operations send_get_data inputs = do
    connection ← get_input as_usize inputs 0
    inv ← get_input as_inventory inputs 1
    emit_send_message connection "getdata" (Message.inventory inv)
  handle_message_sending_operations send_inv inputs = do
    connection ← get_input as_usize inputs 0
    inv ← get_input as_inventory inputs 1
    emit_send_message connection "inv" (Message.inventory inv)
  handle_message_sending_operations send_get_addr inputs = do
    connection ← get_input as_usize inputs 0
    emit_send_raw_message connection (codes "getaddr") List.[]
  handle_message_sending_operations send_addr inputs = do
    connection ← get_input as_usize inputs 0
    addr ← get_input as_addresses inputs 1
    emit_send_message connection "addr" (Message.addr addr)
  handle_message_sending_operations send_addr_v2 inputs = do
    connection ← get_input as_usize inputs 0
    addr ← get_input as_addr_messages inputs 1
    emit_send_message connection "addrv2" (Message.addr_v2 addr)
  handle_message_sending_operations send_header inputs = do
    connection ← get_input as_usize inputs 0
    h ← get_input as_header inputs 1
    emit_send_raw_message connection (codes "headers")
        (List.◌∷◌ 1 (lib.serialize (Message.header (to_bitcoin_header h)) ++ List.◌∷◌ 0 List.[]))
  handle_message_sending_operations send_block inputs = do
    connection ← get_input as_usize inputs 0
    b ← get_input as_block inputs 1
    emit_send_message connection "block" (Message.block b)
  handle_message_sending_operations send_block_no_wit inputs = do
    connection ← get_input as_usize inputs 0
    b ← get_input as_block inputs 1
    emit_send_message connection "block"
        (Message.block (record b { txdata = map strip_witness b.txdata }))
  handle_message_sending_operations send_get_c_filters inputs = do
    connection ← get_input as_usize inputs 0
    filter_type ← get_input as_u8 inputs 1
    height ← get_input as_u32 inputs 2
    h ← get_input as_header inputs 3
    emit_send_message connection "getcfilters"
        (Message.get_c_filters filter_type height (lib.block_hash (to_bitcoin_header h)))
  handle_message_sending_operations send_get_cf_headers inputs = do
    connection ← get_input as_usize inputs 0
    filter_type ← get_input as_u8 inputs 1
    height ← get_input as_u32 inputs 2
    h ← get_input as_header inputs 3
    emit_send_message connection "getcfheaders"
        (Message.get_cf_headers filter_type height (lib.block_hash (to_bitcoin_header h)))
  handle_message_sending_operations send_get_cf_checkpt inputs = do
    connection ← get_input as_usize inputs 0
    filter_type ← get_input as_u8 inputs 1
    h ← get_input as_header inputs 2
    emit_send_message connection "getcfcheckpt"
        (Message.get_cf_checkpt filter_type (lib.block_hash (to_bitcoin_header h)))
  handle_message_sending_operations send_filter_load inputs = do
    connection ← get_input as_usize inputs 0
    f ← get_input as_filter_load inputs 1
    emit_send_message connection "filterload" (Message.filter_load f)
  handle_message_sending_operations send_filter_add inputs = do
    connection ← get_input as_usize inputs 0
    f ← get_input as_filter_add inputs 1
    emit_send_message connection "filteradd" (Message.filter_add f)
  handle_message_sending_operations send_filter_clear inputs = do
    connection ← get_input as_usize inputs 0
    emit_send_message connection "filterclear" (Message.bytes List.[])
  handle_message_sending_operations send_compact_block inputs = do
    connection ← get_input as_usize inputs 0
    b ← get_input as_compact_block inputs 1
    emit_send_message connection "cmpctblock" (Message.compact_block b)
  handle_message_sending_operations _ inputs = panics
