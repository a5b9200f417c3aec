-- ===== src/Builder/Append.antt =====
-- `ProgramBuilder::append` and `Operation::check_input_types`: workloads/ir-workload/fuzzamoto-ir/
-- src/builder.rs and operation.rs.
use text.Mathlib.Text.{◌==◌ as str_eq}
use bitcoin_antithesis.Prelude.{
  ℕ, suc, List, [], ◌∷◌, ◌++◌, map, Option, none, some, not, ◌==◌, ◌||◌, if◌then◌else◌, length,
  get_elem?, leb, drop,
}
use bitcoin_antithesis.Partial.{Partial, done}
use bitcoin_antithesis.Variable.{Variable, var_eq}
use bitcoin_antithesis.Operation.{Operation, nop, load_node, load_connection, load_connection_type}
use bitcoin_antithesis.Operation.Blocks.{is_block_begin, is_block_end, is_matching_block_begin}
use bitcoin_antithesis.Operation.Signature.{
  get_input_variables, get_output_variables, get_inner_output_variables, num_inputs,
}
use bitcoin_antithesis.Instruction.{
  Instruction, InstructionContext, entered_context_after_execution,
}
use bitcoin_antithesis.Builder.State.{
  variable_not_defined, node_not_found, connection_not_found, invalid_connection_type,
  invalid_variable_type, invalid_number_of_inputs, invalid_block_end, ScopedVariable,
  IndexedVariable, ok, err, panic, M, ◌>>=◌, ◌>>◌, pure, fail, modify, is_scope_active, enter_scope,
  exit_scope, current_scope,
}

-- The type of one input, which must exist and stand in an active scope.
unfoldable pub input_type : ℕ → M Variable
input_type idx b = elim (get_elem? b.variables idx) [
  | none ↦ err (variable_not_defined idx) b
  | some v ↦ if is_scope_active b v.scope_id then ok v.var b else err (variable_not_defined idx) b
]

unfoldable pub input_types : List ℕ → M (List Variable)
input_types [] = pure []
input_types (idx ∷ inputs) = do v ← input_type idx; vs ← input_types inputs; pure (v ∷ vs)

-- The loop over the zipped lists.
unfoldable pub check_each : List Variable → List Variable → M (Unit {0})
check_each (got ∷ gots) (expected ∷ rest) =
    if var_eq got expected
    then check_each gots rest
    else fail (invalid_variable_type (some got) expected)
check_each _ _ = pure tt

-- The closure's `assert!` is on the same number that the test after it reads.
unfoldable pub check_input_types : Operation → List Variable → M (Unit {0})
check_input_types op got b =
    if not (num_inputs op == length got)
    then panic
    else if not (length got == length (get_input_variables op))
    then err (invalid_number_of_inputs (length got) (length (get_input_variables op))) b
    else check_each got (get_input_variables op) b

-- The indices and the connection type that an operation names.
unfoldable pub check_parameter : Operation → M (Unit {0})
check_parameter (load_node idx) b =
    if leb b.context.num_nodes idx then err (node_not_found idx) b else ok tt b
check_parameter (load_connection idx) b =
    if leb b.context.num_connections idx then err (connection_not_found idx) b else ok tt b
check_parameter (load_connection_type t) b =
    if str_eq t "outbound" || str_eq t "inbound" then ok tt b else err (invalid_connection_type t) b
check_parameter _ b = ok tt b

-- `self.contexts.push(self.current_scope().context.clone())`.
unfoldable pub record_context : M (Unit {0})
record_context = do
  s ← current_scope
  modify (λ b. record b { contexts = b.contexts ++ s.context ∷ [] })

-- `self.instructions[last_scope.begin.unwrap()]`.
unfoldable pub opener : Option ℕ → M Instruction
opener none b = panic
opener (some i) b = elim (get_elem? b.instructions i) [ none ↦ panic | some instr ↦ ok instr b ]

unfoldable pub close_block : Operation → M (Unit {0})
close_block op =
    if is_block_end op
    then (do
      last_scope ← exit_scope
      instr ← opener last_scope.begin
      if is_matching_block_begin op instr.operation
          then pure tt
          else fail (invalid_block_end instr.operation op))
    else pure tt

abbrev pub scoped : ℕ → Variable → ScopedVariable
scoped scope_id v = record { var = v; scope_id = scope_id }

-- The variables of a nop are out of every scope: scope ids start at 1.
unfoldable pub scope_for : Operation → ℕ → ℕ
scope_for (nop _ _) current = 0
scope_for _ current = current

unfoldable pub define : List Variable → ℕ → M (Unit {0})
define vs scope_id = modify (λ b. record b { variables = b.variables ++ map (scoped scope_id) vs })

unfoldable pub define_outputs : Operation → M (Unit {0})
define_outputs op = do s ← current_scope; define (get_output_variables op) (scope_for op s.id)

-- The `unwrap` panics where the operation enters no context.
open_in : Partial (Option InstructionContext) → M (Unit {0})
open_in (done (some c)) b = ok tt (enter_scope (some (length b.instructions)) c b)
open_in _ b = panic

unfoldable pub open_block : Operation → M (Unit {0})
unfolding open_in
open_block op = if is_block_begin op then open_in (entered_context_after_execution op) else pure tt

unfoldable pub define_inner : Operation → M (Unit {0})
define_inner op b = define (get_inner_output_variables op) (scope_for op b.scope_counter) b

abbrev pub indexed : ℕ → List ScopedVariable → List IndexedVariable
indexed n [] = []
indexed n (v ∷ vs) = record { var = v.var; index = n } ∷ indexed (suc n) vs

-- The instruction is pushed, and the variables from `prev_variable_count` on are handed back.
unfoldable pub push_instruction : Instruction → ℕ → M (List IndexedVariable)
push_instruction i prev_variable_count b =
    ok (indexed prev_variable_count (drop prev_variable_count b.variables))
      (record b { instructions = b.instructions ++ i ∷ [] })

-- The checks, which change nothing.
unfoldable pub check_instruction : Instruction → M (Unit {0})
check_instruction i = do
  (if num_inputs i.operation == length i.inputs
      then pure tt
      else fail (invalid_number_of_inputs (length i.inputs) (num_inputs i.operation)))
  vs ← input_types i.inputs
  check_input_types i.operation vs
  check_parameter i.operation

-- The effects, in the order of the source.
unfoldable pub apply_instruction : Instruction → M (List IndexedVariable)
apply_instruction i = do
  record_context
  close_block i.operation
  λ b.
      (do
        define_outputs i.operation
        open_block i.operation
        define_inner i.operation
        push_instruction i (length b.variables))
        b

unfoldable pub append : Instruction → M (List IndexedVariable)
append i = do check_instruction i; apply_instruction i
