-- ===== src/Compiler/Copies.antt =====
-- The loop and the match of compile against those of compile_from, which are written out twice in
-- workloads/ir-workload/fuzzamoto-ir/src/compiler.rs: they do the same.
use bitcoin_antithesis.Prelude.{ℕ, ◌≡◌, refl, ap, ap₂, List, [], ◌∷◌}
use bitcoin_antithesis.Operation.{Operation, nop}
use bitcoin_antithesis.Instruction.{Instruction}
use bitcoin_antithesis.Compiler.Bitcoin.{Library}
use bitcoin_antithesis.Compiler.State.{◌>>=◌, ◌>>◌, gets}
use bitcoin_antithesis.Compiler.Arms.{compile_operation}
use bitcoin_antithesis.Compiler.Dispatch.{compile_instruction}
use bitcoin_antithesis.Compiler.Compile.{
  actions_of, record_indices, record_batch_indices, compile_step, compile_steps, batch_step,
  batch_steps,
}

module _ (lib : Library) where
  pub compile_operation-compile_instruction :
      (op : Operation) (inputs : List ℕ)
      → compile_operation lib op inputs ≡ compile_instruction lib op inputs
  unfolding compile_operation compile_instruction
  compile_operation-compile_instruction (nop a b) inputs = refl
  compile_operation-compile_instruction _ inputs = refl

  compile_step-batch_step : (i : Instruction) → compile_step lib i ≡ batch_step lib i
  unfolding compile_step batch_step record_indices record_batch_indices
  compile_step-batch_step i =
      ap
        (λ m. gets actions_of >>= λ before.
          m >> (gets actions_of >>= λ after. record_batch_indices i.operation before after))
        (compile_operation-compile_instruction i.operation i.inputs)

  pub compile_steps-batch_steps :
      (is : List Instruction) → compile_steps lib is ≡ batch_steps lib is
  unfolding compile_steps batch_steps
  compile_steps-batch_steps [] = refl
  compile_steps-batch_steps (i ∷ rest) =
      ap₂ (λ m k. m >> k) (compile_step-batch_step i) (compile_steps-batch_steps rest)
