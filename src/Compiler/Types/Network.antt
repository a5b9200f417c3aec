-- ===== src/Compiler/Types/Network.antt =====
-- The Rust types of what peers are sent, for the downcasts of compiler.rs in workloads/ir-workload/
-- fuzzamoto-ir/src.
use bitcoin_antithesis.Prelude.{ℕ, ◌≡◌, refl, List, Option, none, some, arith}
use bitcoin_antithesis.Compiler.Bitcoin.{
  Bytes, HeaderAndShortIds, Inventory, FilterLoad, Address, AddrV2Message,
}
use bitcoin_antithesis.Compiler.Values.{Value, AddrList, AddrListV2, Header}
use bitcoin_antithesis.Compiler.Types.{RustType, IsDowncast, type_id}

unfoldable pub cast_header : Value → Option Header
cast_header (Value.header x) = some x
cast_header _ = none

cast_header_ok :
    (v : Value) → type_id v ≡ 13 → (a : Header) × (cast_header v ≡ some a) × (Value.header a ≡ v)
unfolding type_id cast_header
cast_header_ok (Value.header x) e = (x, refl, refl)
cast_header_ok _ e = absurd (omega arith)

pub header_laws : IsDowncast 13 (Value.header) cast_header
unfolding type_id cast_header
header_laws = record { wrap_id = λ _. refl; cast_wrap = λ _. refl; cast_ok = cast_header_ok }

abbrev pub as_header : RustType Header
as_header = record { id = 13; wrap = Value.header; cast = cast_header; laws = header_laws }

unfoldable pub cast_filter_load : Value → Option FilterLoad
cast_filter_load (Value.filter_load x) = some x
cast_filter_load _ = none

cast_filter_load_ok :
    (v : Value)
    → type_id v ≡ 15
    → (a : FilterLoad) × (cast_filter_load v ≡ some a) × (Value.filter_load a ≡ v)
unfolding type_id cast_filter_load
cast_filter_load_ok (Value.filter_load x) e = (x, refl, refl)
cast_filter_load_ok _ e = absurd (omega arith)

pub filter_load_laws : IsDowncast 15 (Value.filter_load) cast_filter_load
unfolding type_id cast_filter_load
filter_load_laws = record {
  wrap_id = λ _. refl;
  cast_wrap = λ _. refl;
  cast_ok = cast_filter_load_ok;
}

abbrev pub as_filter_load : RustType FilterLoad
as_filter_load = record {
  id = 15;
  wrap = Value.filter_load;
  cast = cast_filter_load;
  laws = filter_load_laws;
}

unfoldable pub cast_filter_add : Value → Option Bytes
cast_filter_add (Value.filter_add x) = some x
cast_filter_add _ = none

cast_filter_add_ok :
    (v : Value)
    → type_id v ≡ 16
    → (a : Bytes) × (cast_filter_add v ≡ some a) × (Value.filter_add a ≡ v)
unfolding type_id cast_filter_add
cast_filter_add_ok (Value.filter_add x) e = (x, refl, refl)
cast_filter_add_ok _ e = absurd (omega arith)

pub filter_add_laws : IsDowncast 16 (Value.filter_add) cast_filter_add
unfolding type_id cast_filter_add
filter_add_laws = record {
  wrap_id = λ _. refl;
  cast_wrap = λ _. refl;
  cast_ok = cast_filter_add_ok;
}

abbrev pub as_filter_add : RustType Bytes
as_filter_add = record {
  id = 16;
  wrap = Value.filter_add;
  cast = cast_filter_add;
  laws = filter_add_laws;
}

unfoldable pub cast_inventory : Value → Option (List Inventory)
cast_inventory (Value.inventory x) = some x
cast_inventory _ = none

cast_inventory_ok :
    (v : Value)
    → type_id v ≡ 17
    → (a : (List Inventory)) × (cast_inventory v ≡ some a) × (Value.inventory a ≡ v)
unfolding type_id cast_inventory
cast_inventory_ok (Value.inventory x) e = (x, refl, refl)
cast_inventory_ok _ e = absurd (omega arith)

pub inventory_laws : IsDowncast 17 (Value.inventory) cast_inventory
unfolding type_id cast_inventory
inventory_laws = record { wrap_id = λ _. refl; cast_wrap = λ _. refl; cast_ok = cast_inventory_ok }

abbrev pub as_inventory : RustType (List Inventory)
as_inventory = record {
  id = 17;
  wrap = Value.inventory;
  cast = cast_inventory;
  laws = inventory_laws;
}

unfoldable pub cast_addr_list : Value → Option AddrList
cast_addr_list (Value.addr_list x) = some x
cast_addr_list _ = none

cast_addr_list_ok :
    (v : Value)
    → type_id v ≡ 18
    → (a : AddrList) × (cast_addr_list v ≡ some a) × (Value.addr_list a ≡ v)
unfolding type_id cast_addr_list
cast_addr_list_ok (Value.addr_list x) e = (x, refl, refl)
cast_addr_list_ok _ e = absurd (omega arith)

pub addr_list_laws : IsDowncast 18 (Value.addr_list) cast_addr_list
unfolding type_id cast_addr_list
addr_list_laws = record { wrap_id = λ _. refl; cast_wrap = λ _. refl; cast_ok = cast_addr_list_ok }

abbrev pub as_addr_list : RustType AddrList
as_addr_list = record {
  id = 18;
  wrap = Value.addr_list;
  cast = cast_addr_list;
  laws = addr_list_laws;
}

unfoldable pub cast_addr_list_v2 : Value → Option AddrListV2
cast_addr_list_v2 (Value.addr_list_v2 x) = some x
cast_addr_list_v2 _ = none

cast_addr_list_v2_ok :
    (v : Value)
    → type_id v ≡ 19
    → (a : AddrListV2) × (cast_addr_list_v2 v ≡ some a) × (Value.addr_list_v2 a ≡ v)
unfolding type_id cast_addr_list_v2
cast_addr_list_v2_ok (Value.addr_list_v2 x) e = (x, refl, refl)
cast_addr_list_v2_ok _ e = absurd (omega arith)

pub addr_list_v2_laws : IsDowncast 19 (Value.addr_list_v2) cast_addr_list_v2
unfolding type_id cast_addr_list_v2
addr_list_v2_laws = record {
  wrap_id = λ _. refl;
  cast_wrap = λ _. refl;
  cast_ok = cast_addr_list_v2_ok;
}

abbrev pub as_addr_list_v2 : RustType AddrListV2
as_addr_list_v2 = record {
  id = 19;
  wrap = Value.addr_list_v2;
  cast = cast_addr_list_v2;
  laws = addr_list_v2_laws;
}

unfoldable pub cast_addresses : Value → Option (List (ℕ × Address))
cast_addresses (Value.addresses x) = some x
cast_addresses _ = none

cast_addresses_ok :
    (v : Value)
    → type_id v ≡ 20
    → (a : (List (ℕ × Address))) × (cast_addresses v ≡ some a) × (Value.addresses a ≡ v)
unfolding type_id cast_addresses
cast_addresses_ok (Value.addresses x) e = (x, refl, refl)
cast_addresses_ok _ e = absurd (omega arith)

pub addresses_laws : IsDowncast 20 (Value.addresses) cast_addresses
unfolding type_id cast_addresses
addresses_laws = record { wrap_id = λ _. refl; cast_wrap = λ _. refl; cast_ok = cast_addresses_ok }

abbrev pub as_addresses : RustType (List (ℕ × Address))
as_addresses = record {
  id = 20;
  wrap = Value.addresses;
  cast = cast_addresses;
  laws = addresses_laws;
}

unfoldable pub cast_addr_messages : Value → Option (List AddrV2Message)
cast_addr_messages (Value.addr_messages x) = some x
cast_addr_messages _ = none

cast_addr_messages_ok :
    (v : Value)
    → type_id v ≡ 21
    → (a : (List AddrV2Message)) × (cast_addr_messages v ≡ some a) × (Value.addr_messages a ≡ v)
unfolding type_id cast_addr_messages
cast_addr_messages_ok (Value.addr_messages x) e = (x, refl, refl)
cast_addr_messages_ok _ e = absurd (omega arith)

pub addr_messages_laws : IsDowncast 21 (Value.addr_messages) cast_addr_messages
unfolding type_id cast_addr_messages
addr_messages_laws = record {
  wrap_id = λ _. refl;
  cast_wrap = λ _. refl;
  cast_ok = cast_addr_messages_ok;
}

abbrev pub as_addr_messages : RustType (List AddrV2Message)
as_addr_messages = record {
  id = 21;
  wrap = Value.addr_messages;
  cast = cast_addr_messages;
  laws = addr_messages_laws;
}

unfoldable pub cast_compact_block : Value → Option HeaderAndShortIds
cast_compact_block (Value.compact_block x) = some x
cast_compact_block _ = none

cast_compact_block_ok :
    (v : Value)
    → type_id v ≡ 23
    → (a : HeaderAndShortIds) × (cast_compact_block v ≡ some a) × (Value.compact_block a ≡ v)
unfolding type_id cast_compact_block
cast_compact_block_ok (Value.compact_block x) e = (x, refl, refl)
cast_compact_block_ok _ e = absurd (omega arith)

pub compact_block_laws : IsDowncast 23 (Value.compact_block) cast_compact_block
unfolding type_id cast_compact_block
compact_block_laws = record {
  wrap_id = λ _. refl;
  cast_wrap = λ _. refl;
  cast_ok = cast_compact_block_ok;
}

abbrev pub as_compact_block : RustType HeaderAndShortIds
as_compact_block = record {
  id = 23;
  wrap = Value.compact_block;
  cast = cast_compact_block;
  laws = compact_block_laws;
}
