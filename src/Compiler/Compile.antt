-- ===== src/Compiler/Compile.antt =====
-- The compilation of programs: Compiler::compile and Compiler::compile_from of workloads/ir-workload/
-- fuzzamoto-ir/src/compiler.rs, with the accessors of CompiledMetadata.
use bitcoin_antithesis.Prelude.{
  ℕ, suc, ◌+◌, ◌-◌, ◌≡◌, arith, Bool, true, false, not, ◌&&◌, List, [], ◌∷◌, ◌++◌, map, Option,
  none, some, ltb, if◌then◌else◌, length, get_elem?, drop, replicate,
}
use bitcoin_antithesis.Operation.{Operation, probe}
use bitcoin_antithesis.Instruction.{Instruction}
use bitcoin_antithesis.Builder.State.{Program, Builder}
use bitcoin_antithesis.Compiler.Bitcoin.{Bytes, Library}
use bitcoin_antithesis.Compiler.State.{
  CompiledAction, CompiledMetadata, CompiledProgram, Compiler, ok, Run, ◌>>=◌, ◌>>◌, pure, panics,
  gets, update_metadata, bytes_eq,
}
use bitcoin_antithesis.Compiler.Arms.{compile_operation}
use bitcoin_antithesis.Compiler.Dispatch.{compile_instruction}

abbrev pub is_probe : Operation → Bool
is_probe probe = true
is_probe _ = false

abbrev pub is_probe_action : CompiledAction → Bool
is_probe_action CompiledAction.probe = true
is_probe_action _ = false

abbrev pub count_if {ℓ} : {A : Type ℓ} → (A → Bool) → List A → ℕ
count_if test [] = 0
count_if test (x ∷ xs) = let rest = count_if test xs in if test x then suc rest else rest

pub count_if-append {ℓ} :
    {A : Type ℓ} (test : A → Bool) (xs ys : List A)
    → count_if test (xs ++ ys) ≡ count_if test xs + count_if test ys
count_if-append test [] ys = omega arith
count_if-append test (x ∷ xs) ys = ground (arith, count_if-append test xs ys)

-- The actions that are not probes.
abbrev pub actions_of : Compiler → ℕ
actions_of s = count_if (λ a. not (is_probe_action a)) s.output.actions

abbrev pub count_instruction : Operation → ℕ → ℕ
count_instruction op n = if is_probe op then n else suc n

-- The index of the instruction is recorded for each new action, and the instruction is counted.
unfoldable pub record_indices : Operation → ℕ → ℕ → Run (Unit {0})
record_indices op before after = update_metadata λ m. record m {
  action_indices = m.action_indices ++ replicate (after - before) m.instructions;
  instructions = count_instruction op m.instructions;
}

-- The same in compile_from.
unfoldable pub record_batch_indices : Operation → ℕ → ℕ → Run (Unit {0})
record_batch_indices op before after = update_metadata λ m. record m {
  action_indices = m.action_indices ++ replicate (after - before) m.instructions;
  instructions = if is_probe op then m.instructions else suc m.instructions;
}

unfoldable pub set_compiled : ℕ → Run (Unit {0})
set_compiled n s = (ok tt, record s { last_compiled_instruction = n })

-- Not more than one probe, and that one first.
abbrev pub probing_insts : List Instruction → ℕ
probing_insts is = count_if (λ i. is_probe i.operation) is

abbrev starts_with_probe : List Instruction → Bool
starts_with_probe [] = false
starts_with_probe (i ∷ _) = is_probe i.operation

abbrev pub probes_first : List Instruction → Bool
probes_first is =
    not (ltb 1 (probing_insts is))
    && (if ltb 0 (probing_insts is) then starts_with_probe is else true)

module _ (lib : Library) where
  -- The loop over the instructions in compile.
  unfoldable pub compile_step : Instruction → Run (Unit {0})
  compile_step i = do
    before ← gets actions_of
    compile_operation lib i.operation i.inputs
    after ← gets actions_of
    record_indices i.operation before after

  unfoldable pub compile_steps : List Instruction → Run (Unit {0})
  compile_steps [] = pure tt
  compile_steps (i ∷ rest) = do compile_step i; compile_steps rest

  -- The loop in compile_from.
  unfoldable pub batch_step : Instruction → Run (Unit {0})
  batch_step i = do
    before ← gets actions_of
    compile_instruction lib i.operation i.inputs
    after ← gets actions_of
    record_batch_indices i.operation before after

  unfoldable pub batch_steps : List Instruction → Run (Unit {0})
  batch_steps [] = pure tt
  batch_steps (i ∷ rest) = do batch_step i; batch_steps rest

  unfoldable pub compile : Program → Run CompiledProgram
  compile ir =
      if probes_first ir.instructions
      then (do compile_steps ir.instructions; gets (λ s. s.output))
      else panics

  -- The new actions of the instructions that were added since the last call.
  unfoldable pub compile_from : Builder → Run (List CompiledAction)
  compile_from b = do
    from_instruction ← gets (λ s. s.last_compiled_instruction)
    actions_before ← gets (λ s. length s.output.actions)
    batch_steps (drop from_instruction b.instructions)
    set_compiled (length b.instructions)
    gets (λ s. drop actions_before s.output.actions)

unfoldable pub variable_instruction : CompiledMetadata → ℕ → Option ℕ
variable_instruction m var_index = get_elem? m.variable_indices var_index

abbrev find_block : Bytes → List (Bytes × (ℕ × ℕ × List ℕ)) → Option (ℕ × ℕ × List ℕ)
find_block block_hash [] = none
find_block block_hash ((hash, vars) ∷ rest) =
    let later = find_block block_hash rest in if bytes_eq block_hash hash then some vars else later

unfoldable pub block_variables : CompiledMetadata → Bytes → Option (ℕ × ℕ × List ℕ)
block_variables m block_hash = find_block block_hash m.block_tx_var_map

unfoldable pub blocks : CompiledMetadata → List (Bytes × (ℕ × ℕ))
blocks m = map (λ entry. (entry.0, (entry.1.0, entry.1.1))) m.block_tx_var_map
