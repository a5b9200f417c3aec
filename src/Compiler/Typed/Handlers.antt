-- ===== src/Compiler/Typed/Handlers.antt =====
-- The handlers of loads, lists and messages keep the types of the variables: compiler.rs of
-- workloads/ir-workload/fuzzamoto-ir/src.
use bitcoin_antithesis.Prelude.{ℕ, zero, suc, ◌≡◌, refl, List, [], ◌∷◌, ◌++◌, map, ap, replicate}
use bitcoin_antithesis.Variable.{Variable}
use bitcoin_antithesis.Operation.{Operation, nop}
use bitcoin_antithesis.Operation.Signature.{
  get_input_variables, get_output_variables, get_inner_output_variables,
}
use bitcoin_antithesis.Compiler.Bitcoin.{Library}
use bitcoin_antithesis.Compiler.Types.Numbers.{as_nop}
use bitcoin_antithesis.Compiler.Loads.{append_nops, update_connection_map, handle_load_operations}
use bitcoin_antithesis.Compiler.Inventories.{
  handle_inventory_operations, handle_bip152_blocktxn_operations,
}
use bitcoin_antithesis.Compiler.Filters.{
  handle_witness_operations, handle_compact_block_building_operations,
}
use bitcoin_antithesis.Compiler.Sending.{
  handle_message_sending_operations, emit_send_message, emit_send_raw_message,
  handle_time_operations, handle_probe_operations,
}
use bitcoin_antithesis.Compiler.Typed.{
  Types, HasTypes, extend, type_of, compiled_types, bind-Types, pure-Types,
}
use bitcoin_antithesis.Compiler.Typed.Access.{typed, append_variable-Types}

extend-append : (Γ ts us : List ℕ) → extend (extend Γ ts) us ≡ extend Γ (ts ++ us)
extend-append Γ [] us = refl
extend-append Γ (t ∷ ts) us = extend-append (Γ ++ t ∷ []) ts us

append_nops-Types : {Γ : List ℕ} (n : ℕ) → Types Γ (append_nops n) (extend Γ (replicate n 0))
unfolding append_nops
append_nops-Types zero = pure-Types tt
append_nops-Types (suc n) =
    bind-Types _ _ (append_variable-Types as_nop tt tt) λ _. append_nops-Types n

nop_types :
    (m n : ℕ)
    → map type_of (replicate m Variable.nop ++ replicate n Variable.nop)
      ≡ replicate m 0 ++ replicate n 0
unfolding type_of
nop_types zero zero = refl
nop_types zero (suc n) = ap (◌∷◌ 0) (nop_types zero n)
nop_types (suc m) n = ap (◌∷◌ 0) (nop_types m n)

load_nops-Types :
    {Γ : List ℕ} (m n : ℕ)
    → Types Γ (handle_load_operations (nop m n)) (extend Γ (compiled_types (nop m n)))
unfolding handle_load_operations compiled_types get_output_variables get_inner_output_variables
load_nops-Types {Γ} m n =
    rw (nop_types m n, ← extend-append Γ (replicate m 0) (replicate n 0))
      (bind-Types _ _ (append_nops-Types m) λ _. append_nops-Types n)

pub handle_load_operations-Types :
    {Γ : List ℕ} (op : Operation) (inputs : List ℕ)
    → HasTypes Γ inputs (get_input_variables op)
    → Types Γ (handle_load_operations op) (extend Γ (compiled_types op))
unfolding handle_load_operations update_connection_map get_input_variables get_output_variables
    get_inner_output_variables type_of compiled_types
handle_load_operations-Types (nop a b) inputs h = load_nops-Types a b
handle_load_operations-Types _ inputs h = search typed

pub handle_witness_operations-Types :
    {Γ : List ℕ} (op : Operation) (inputs : List ℕ)
    → HasTypes Γ inputs (get_input_variables op)
    → Types Γ (handle_witness_operations op inputs) (extend Γ (compiled_types op))
unfolding handle_witness_operations get_input_variables get_output_variables
    get_inner_output_variables type_of compiled_types
handle_witness_operations-Types (nop a b) inputs h = search typed
handle_witness_operations-Types _ inputs h = search typed

pub handle_time_operations-Types :
    {Γ : List ℕ} (op : Operation) (inputs : List ℕ)
    → HasTypes Γ inputs (get_input_variables op)
    → Types Γ (handle_time_operations op) (extend Γ (compiled_types op))
unfolding handle_time_operations get_input_variables get_output_variables get_inner_output_variables
    type_of compiled_types
handle_time_operations-Types (nop a b) inputs h = search typed
handle_time_operations-Types _ inputs h = search typed

pub handle_probe_operations-Types :
    {Γ : List ℕ} (op : Operation) (inputs : List ℕ)
    → HasTypes Γ inputs (get_input_variables op)
    → Types Γ (handle_probe_operations op) (extend Γ (compiled_types op))
unfolding handle_probe_operations get_input_variables get_output_variables
    get_inner_output_variables type_of compiled_types
handle_probe_operations-Types (nop a b) inputs h = search typed
handle_probe_operations-Types _ inputs h = search typed

module _ (lib : Library) where
  pub handle_inventory_operations-Types :
      {Γ : List ℕ} (op : Operation) (inputs : List ℕ)
      → HasTypes Γ inputs (get_input_variables op)
      → Types Γ (handle_inventory_operations lib op inputs) (extend Γ (compiled_types op))
  unfolding handle_inventory_operations get_input_variables get_output_variables
      get_inner_output_variables type_of compiled_types
  handle_inventory_operations-Types (nop a b) inputs h = search typed
  handle_inventory_operations-Types _ inputs h = search typed

  pub handle_bip152_blocktxn_operations-Types :
      {Γ : List ℕ} (op : Operation) (inputs : List ℕ)
      → HasTypes Γ inputs (get_input_variables op)
      → Types Γ (handle_bip152_blocktxn_operations lib op inputs) (extend Γ (compiled_types op))
  unfolding handle_bip152_blocktxn_operations get_input_variables get_output_variables
      get_inner_output_variables type_of compiled_types
  handle_bip152_blocktxn_operations-Types (nop a b) inputs h = search typed
  handle_bip152_blocktxn_operations-Types _ inputs h = search typed

  pub handle_compact_block_building_operations-Types :
      {Γ : List ℕ} (op : Operation) (inputs : List ℕ)
      → HasTypes Γ inputs (get_input_variables op)
      → Types Γ
          (handle_compact_block_building_operations lib op inputs)
          (extend Γ (compiled_types op))
  unfolding handle_compact_block_building_operations get_input_variables get_output_variables
      get_inner_output_variables type_of compiled_types
  handle_compact_block_building_operations-Types (nop a b) inputs h = search typed
  handle_compact_block_building_operations-Types _ inputs h = search typed

  pub handle_message_sending_operations-Types :
      {Γ : List ℕ} (op : Operation) (inputs : List ℕ)
      → HasTypes Γ inputs (get_input_variables op)
      → Types Γ (handle_message_sending_operations lib op inputs) (extend Γ (compiled_types op))
  unfolding handle_message_sending_operations emit_send_message emit_send_raw_message
      get_input_variables get_output_variables get_inner_output_variables type_of compiled_types
  handle_message_sending_operations-Types (nop a b) inputs h = search typed
  handle_message_sending_operations-Types _ inputs h = search typed depth 9
