-- ===== src/Tests/Runs.antt =====
-- The builder on the small programs: the program that sends an inventory is valid.
use bitcoin_antithesis.Prelude.{◌≡◌, ◌⊎◌, refl, true, false, [], ◌∷◌, map, length, some, none}
use bitcoin_antithesis.Partial.{done}
use bitcoin_antithesis.Operation.{send_inv, end_build_inventory, load_connection}
use bitcoin_antithesis.Operation.Blocks.{is_block_begin, is_block_end, is_matching_block_begin}
use bitcoin_antithesis.Operation.Signature.{
  get_output_variables, get_input_variables, get_inner_output_variables, num_inputs,
}
use bitcoin_antithesis.Instruction.{entered_context_after_execution}
use bitcoin_antithesis.Variable.{var_eq, discriminant}
use bitcoin_antithesis.Builder.State.{
  Builder, Program, ok, is_scope_active, enter_scope, exit_scope, current_scope, new_builder,
}
use bitcoin_antithesis.Builder.Append.{
  input_type, input_types, check_each, check_input_types, check_parameter, record_context, opener,
  close_block, scope_for, define, define_outputs, open_block, define_inner, push_instruction,
  check_instruction, apply_instruction, append, indexed,
}
use bitcoin_antithesis.Builder.Programs.{
  remap, rename, is_variable_in_scope, append_each, keep_in_scope, append_all, context_eq,
  append_program, from_program, finalize, is_statically_valid, to_builder,
}
use bitcoin_antithesis.Builder.Checks.{IsTyped, Fails, check_instruction_decides}
use bitcoin_antithesis.Builder.Invariant.{IsWellFormed, Ensures}
use bitcoin_antithesis.Builder.Invariant.Preserved.{append-IsWellFormed, new_builder-IsWellFormed}
use bitcoin_antithesis.Builder.Advance.{advance, made, Refused}
use bitcoin_antithesis.Builder.Advance.Cases.{Accepts, append_cases}
use bitcoin_antithesis.Builder.Runs.{Runs, run, run-IsWellFormed}
use bitcoin_antithesis.Builder.Runs.Valid.{
  IsValid, is_statically_valid-IsValid, is_statically_valid_cases, to_builder_cases,
  append_program_cases,
}
use bitcoin_antithesis.Tests.{
  one_node, instr, send_inventory, ask_addresses, announce_header, load_coin, after_nop,
  two_connections, advancing, spend_coin,
}

abbrev pub StaticallyValid : Program → Type 0
StaticallyValid p = is_statically_valid p ≡ done true

pub all_valid :
    StaticallyValid send_inventory
    × StaticallyValid ask_addresses
    × StaticallyValid after_nop
    × StaticallyValid two_connections
    × StaticallyValid announce_header
    × StaticallyValid load_coin
    × StaticallyValid advancing
    × StaticallyValid spend_coin
unfolding is_statically_valid from_program finalize append_program context_eq append_all append_each
    keep_in_scope is_variable_in_scope append apply_instruction check_instruction push_instruction
    define_inner open_block define_outputs define scope_for close_block opener record_context
    check_parameter check_input_types check_each input_types input_type new_builder current_scope
    exit_scope enter_scope is_scope_active var_eq discriminant entered_context_after_execution
    num_inputs get_output_variables get_input_variables get_inner_output_variables is_block_begin
    is_block_end is_matching_block_begin
all_valid = (refl, refl, refl, refl, refl, refl, refl, refl)

pub send_inventory-IsValid : IsValid send_inventory
send_inventory-IsValid = is_statically_valid-IsValid send_inventory all_valid.0

pub ask_addresses-IsValid : IsValid ask_addresses
ask_addresses-IsValid = is_statically_valid-IsValid ask_addresses all_valid.1

pub after_nop-IsValid : IsValid after_nop
after_nop-IsValid = is_statically_valid-IsValid after_nop all_valid.2

pub two_connections-IsValid : IsValid two_connections
two_connections-IsValid = is_statically_valid-IsValid two_connections all_valid.3

pub announce_header-IsValid : IsValid announce_header
announce_header-IsValid = is_statically_valid-IsValid announce_header all_valid.4

pub load_coin-IsValid : IsValid load_coin
load_coin-IsValid = is_statically_valid-IsValid load_coin all_valid.5

-- The builder after all instructions of the program.
abbrev pub sent : Builder
sent = run send_inventory.instructions (new_builder one_node)

pub sent-IsWellFormed : IsWellFormed sent
sent-IsWellFormed =
    run-IsWellFormed (new_builder one_node) send_inventory.instructions
      (new_builder-IsWellFormed one_node) send_inventory-IsValid.0

is_statically_valid_cases_example :
    ((is_statically_valid send_inventory ≡ done true) × IsValid send_inventory)
    ⊎ ((is_statically_valid send_inventory ≡ done false) × ¬ IsValid send_inventory)
is_statically_valid_cases_example = is_statically_valid_cases send_inventory

append_cases_example :
    (Accepts sent (instr (0 ∷ 2 ∷ []) send_inv)
      × (append (instr (0 ∷ 2 ∷ []) send_inv) sent
          ≡ ok
              (indexed (length sent.variables) (made (instr (0 ∷ 2 ∷ []) send_inv) sent))
              (advance (instr (0 ∷ 2 ∷ []) send_inv) sent)))
    ⊎ (¬ Accepts sent (instr (0 ∷ 2 ∷ []) send_inv)
        × Refused (append (instr (0 ∷ 2 ∷ []) send_inv) sent))
append_cases_example = append_cases sent (instr (0 ∷ 2 ∷ []) send_inv) sent-IsWellFormed

append-IsWellFormed_example :
    Ensures (λ _ c. IsWellFormed c) IsWellFormed (append (instr (2 ∷ []) end_build_inventory) sent)
append-IsWellFormed_example =
    append-IsWellFormed sent (instr (2 ∷ []) end_build_inventory) sent-IsWellFormed

check_instruction_decides_example :
    ((check_instruction (instr [] (load_connection 5)) sent ≡ ok tt sent)
      × IsTyped sent (instr [] (load_connection 5)))
    ⊎ (Fails (check_instruction (instr [] (load_connection 5)) sent) sent
        × ¬ IsTyped sent (instr [] (load_connection 5)))
check_instruction_decides_example = check_instruction_decides sent (instr [] (load_connection 5))

to_builder_cases_example :
    ((to_builder ask_addresses
        ≡ done (some (run ask_addresses.instructions (new_builder ask_addresses.context))))
      × Runs (new_builder ask_addresses.context) ask_addresses.instructions)
    ⊎ ((to_builder ask_addresses ≡ done none)
        × ¬ Runs (new_builder ask_addresses.context) ask_addresses.instructions)
to_builder_cases_example = to_builder_cases ask_addresses

append_program_cases_example :
    (Runs sent (map (rename (remap 0 3)) ask_addresses.instructions)
      × (append_program ask_addresses 0 3 sent
          ≡ ok tt (run (map (rename (remap 0 3)) ask_addresses.instructions) sent)))
    ⊎ (¬ Runs sent (map (rename (remap 0 3)) ask_addresses.instructions)
        × Refused (append_program ask_addresses 0 3 sent))
unfolding new_builder enter_scope
append_program_cases_example = append_program_cases sent ask_addresses 0 3 sent-IsWellFormed refl
