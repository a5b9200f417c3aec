-- ===== src/Compiler/Grows/Handlers.antt =====
-- The handlers of loads, lists and messages only add to the records: compiler.rs of workloads/
-- ir-workload/fuzzamoto-ir/src.
use bitcoin_antithesis.Prelude.{ℕ, zero, suc, refl, List}
use bitcoin_antithesis.Partial.{Partial, done}
use bitcoin_antithesis.Addr.{AddrRecord, v1, v2}
use bitcoin_antithesis.Operation.{Operation, nop}
use bitcoin_antithesis.Compiler.Bitcoin.{Bytes, Library}
use bitcoin_antithesis.Compiler.State.{Exit}
use bitcoin_antithesis.Compiler.Loads.{append_nops, update_connection_map, handle_load_operations}
use bitcoin_antithesis.Compiler.Inventories.{
  handle_inventory_operations, handle_bip152_blocktxn_operations,
}
use bitcoin_antithesis.Compiler.Addresses.{from_exit, add_addr_record, handle_addr_operations}
use bitcoin_antithesis.Compiler.Filters.{
  handle_witness_operations, from_partial, insert_key, handle_filter_building_operations,
  handle_compact_block_building_operations,
}
use bitcoin_antithesis.Compiler.Sending.{
  handle_message_sending_operations, emit_send_message, emit_send_raw_message,
  handle_time_operations, handle_probe_operations,
}
use bitcoin_antithesis.Compiler.Records.{Grows-refl}
use bitcoin_antithesis.Compiler.Grows.{
  Growing, growing, append_variable-Growing, bind-Growing, update_metadata-Growing,
}

append_nops-Growing : (n : ℕ) → Growing (append_nops n)
unfolding append_nops
append_nops-Growing zero = search growing
append_nops-Growing (suc n) =
    bind-Growing _ _ (append_variable-Growing _ _) λ _. append_nops-Growing n

update_connection_map-Growing : (i j : ℕ) → Growing (update_connection_map i j)
unfolding update_connection_map
update_connection_map-Growing i j = update_metadata-Growing _ λ m. (refl, refl, refl)

from_exit-Growing : {A : Type 0} (r : Exit A) → Growing (from_exit r)
unfolding from_exit
from_exit-Growing r = record { grows = Grows-refl; framed = λ n s. refl }

from_partial-Growing : {A : Type 0} (r : Partial A) → Growing (from_partial r)
unfolding from_partial
from_partial-Growing Partial.panics = search growing
from_partial-Growing (done a) = search growing

pub handle_load_operations-Growing : (op : Operation) → Growing (handle_load_operations op)
unfolding handle_load_operations
handle_load_operations-Growing (nop a b) = search (growing, append_nops-Growing)
handle_load_operations-Growing _ = search (growing, update_connection_map-Growing)

pub handle_witness_operations-Growing :
    (op : Operation) (inputs : List ℕ) → Growing (handle_witness_operations op inputs)
unfolding handle_witness_operations
handle_witness_operations-Growing (nop a b) inputs = search growing
handle_witness_operations-Growing _ inputs = search growing

pub handle_time_operations-Growing : (op : Operation) → Growing (handle_time_operations op)
unfolding handle_time_operations
handle_time_operations-Growing (nop a b) = search growing
handle_time_operations-Growing _ = search growing

pub handle_probe_operations-Growing : (op : Operation) → Growing (handle_probe_operations op)
unfolding handle_probe_operations
handle_probe_operations-Growing (nop a b) = search growing
handle_probe_operations-Growing _ = search growing

module _ (lib : Library) where
  pub handle_inventory_operations-Growing :
      (op : Operation) (inputs : List ℕ) → Growing (handle_inventory_operations lib op inputs)
  unfolding handle_inventory_operations
  handle_inventory_operations-Growing (nop a b) inputs = search growing
  handle_inventory_operations-Growing _ inputs = search growing

  pub handle_bip152_blocktxn_operations-Growing :
      (op : Operation) (inputs : List ℕ) → Growing (handle_bip152_blocktxn_operations lib op inputs)
  unfolding handle_bip152_blocktxn_operations
  handle_bip152_blocktxn_operations-Growing (nop a b) inputs = search growing
  handle_bip152_blocktxn_operations-Growing _ inputs = search growing

  add_addr_record-Growing :
      (r : AddrRecord) (inputs : List ℕ) → Growing (add_addr_record lib r inputs)
  unfolding add_addr_record
  add_addr_record-Growing (v1 p) inputs = search growing
  add_addr_record-Growing (v2 p) inputs = search growing

  pub handle_addr_operations-Growing :
      (op : Operation) (inputs : List ℕ) → Growing (handle_addr_operations lib op inputs)
  unfolding handle_addr_operations
  handle_addr_operations-Growing (nop a b) inputs = search growing
  handle_addr_operations-Growing _ inputs =
      search (growing, add_addr_record-Growing, from_exit-Growing)

  insert_key-Growing : (inputs : List ℕ) (key : Bytes) → Growing (insert_key lib inputs key)
  unfolding insert_key
  insert_key-Growing inputs key = search (growing, from_partial-Growing)

  pub handle_filter_building_operations-Growing :
      (op : Operation) (inputs : List ℕ) → Growing (handle_filter_building_operations lib op inputs)
  unfolding handle_filter_building_operations
  handle_filter_building_operations-Growing (nop a b) inputs = search growing
  handle_filter_building_operations-Growing _ inputs = search (growing, insert_key-Growing)

  pub handle_compact_block_building_operations-Growing :
      (op : Operation) (inputs : List ℕ)
      → Growing (handle_compact_block_building_operations lib op inputs)
  unfolding handle_compact_block_building_operations
  handle_compact_block_building_operations-Growing (nop a b) inputs = search growing
  handle_compact_block_building_operations-Growing _ inputs = search growing

  pub handle_message_sending_operations-Growing :
      (op : Operation) (inputs : List ℕ) → Growing (handle_message_sending_operations lib op inputs)
  unfolding handle_message_sending_operations emit_send_message emit_send_raw_message
  handle_message_sending_operations-Growing (nop a b) inputs = search growing
  handle_message_sending_operations-Growing _ inputs = search growing depth 7
