-- ===== src/Compiler/Typed/Lists.antt =====
-- The handlers of addresses, filters and witnesses keep the types of the variables: compiler.rs of
-- workloads/ir-workload/fuzzamoto-ir/src.
use bitcoin_antithesis.Prelude.{ℕ, Bool, true, false, if◌then◌else◌, List}
use bitcoin_antithesis.Partial.{Partial, done}
use bitcoin_antithesis.Addr.{AddrRecord, V2Payload, AddrNetwork, v1, v2, tor_v2}
use bitcoin_antithesis.Operation.{Operation, nop}
use bitcoin_antithesis.Operation.Signature.{
  get_input_variables, get_output_variables, get_inner_output_variables,
}
use bitcoin_antithesis.Compiler.Bitcoin.{Bytes, Library}
use bitcoin_antithesis.Compiler.Addresses.{
  from_exit, add_addr_record, handle_addr_operations, addr_v2_to_message, is_tor_v2, fits_network,
  with_addr, convert_addr,
}
use bitcoin_antithesis.Compiler.Filters.{
  from_partial, insert_key, handle_filter_building_operations,
}
use bitcoin_antithesis.Compiler.State.{Compiler, Exit}
use bitcoin_antithesis.Compiler.Typed.{
  Fits, Ends, Types, HasTypes, HasInput, extend, type_of, compiled_types, pure-Types, panics-Types,
}
use bitcoin_antithesis.Compiler.Typed.Access.{
  typed, input_index-Types, write_variable-Types, variable-Types,
}

from_partial-Types : {A : Type 0} {Γ : List ℕ} (r : Partial A) → Types Γ (from_partial r) Γ
unfolding from_partial
from_partial-Types Partial.panics = panics-Types
from_partial-Types (done a) = pure-Types a

if_Ends :
    {A : Type 0} (Γ : List ℕ) (s : Compiler) (c : Bool) (x y : Exit A)
    → Ends Γ (x, s)
    → Ends Γ (y, s)
    → Ends Γ (if c then x else y, s)
if_Ends Γ s true x y h k = h
if_Ends Γ s false x y h k = k

-- A record that does not fit its network is an error, but no failed lookup.
message_Ends :
    {Γ : List ℕ} (s : Compiler) (p : V2Payload) (n : AddrNetwork) (payload : Bytes)
    → Fits Γ s
    → Ends Γ (with_addr p (convert_addr n payload), s)
message_Ends s p tor_v2 payload e = tt
message_Ends s p _ payload e = e

message-Types : {Γ : List ℕ} (r : AddrRecord) → Types Γ (from_exit (addr_v2_to_message r)) Γ
unfolding from_exit addr_v2_to_message
message-Types (v1 p) = record { ends = λ s e. tt }
message-Types (v2 p) = record {
  ends = λ s e. if_Ends _ s (is_tor_v2 p.network) _ _ tt (
      if_Ends _ s (fits_network p.network p.payload) _ _ (message_Ends s p p.network p.payload e)
        tt);
}

module _ (lib : Library) where
  add_addr_record-Types :
      {Γ : List ℕ} (r : AddrRecord) (inputs : List ℕ)
      → HasInput Γ inputs 0 18
      → Types Γ (add_addr_record lib r inputs) Γ
  unfolding add_addr_record
  add_addr_record-Types (v1 p) inputs h = search typed
  add_addr_record-Types (v2 p) inputs h = search typed

  pub handle_addr_operations-Types :
      {Γ : List ℕ} (op : Operation) (inputs : List ℕ)
      → HasTypes Γ inputs (get_input_variables op)
      → Types Γ (handle_addr_operations lib op inputs) (extend Γ (compiled_types op))
  unfolding handle_addr_operations get_input_variables get_output_variables
      get_inner_output_variables type_of compiled_types
  handle_addr_operations-Types (nop a b) inputs h = search typed
  handle_addr_operations-Types _ inputs h = search (typed, add_addr_record-Types, message-Types)

  insert_key-Types :
      {Γ : List ℕ} (inputs : List ℕ) (key : Bytes)
      → HasInput Γ inputs 0 15
      → Types Γ (insert_key lib inputs key) Γ
  unfolding insert_key
  insert_key-Types inputs key h =
      search (typed, input_index-Types, variable-Types, write_variable-Types, from_partial-Types)
        depth 8

  pub handle_filter_building_operations-Types :
      {Γ : List ℕ} (op : Operation) (inputs : List ℕ)
      → HasTypes Γ inputs (get_input_variables op)
      → Types Γ (handle_filter_building_operations lib op inputs) (extend Γ (compiled_types op))
  unfolding handle_filter_building_operations get_input_variables get_output_variables
      get_inner_output_variables type_of compiled_types
  handle_filter_building_operations-Types (nop a b) inputs h = search typed
  handle_filter_building_operations-Types _ inputs h = search (typed, insert_key-Types)
