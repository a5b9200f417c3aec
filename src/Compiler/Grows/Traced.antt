-- ===== src/Compiler/Grows/Traced.antt =====
-- The indices that the metadata keeps, over whole programs: compiler.rs of workloads/ir-workload/fuzzamoto-ir/src.
use bitcoin_antithesis.Prelude.{
  suc, ◌≡◌, true, List, [], ◌∷◌, inl, inr, Bool-cases, arith, All-mono,
}
use bitcoin_antithesis.Operation.{Operation}
use bitcoin_antithesis.Instruction.{Instruction}
use bitcoin_antithesis.Builder.State.{Program}
use bitcoin_antithesis.Compiler.Bitcoin.{Library}
use bitcoin_antithesis.Compiler.State.{
  Compiler, Exit, ok, err, panic, lost, diverge, Run, and_then, ◌>>=◌, pure, gets, panics,
  update_metadata,
}
use bitcoin_antithesis.Compiler.Dispatch.{compile_instruction}
use bitcoin_antithesis.Compiler.Compile.{
  is_probe, actions_of, record_indices, compile_step, compile_steps, compile, probes_first,
}
use bitcoin_antithesis.Compiler.Copies.{compile_operation-compile_instruction}
use bitcoin_antithesis.Compiler.Records.{Grows, Grows-refl}
use bitcoin_antithesis.Compiler.Grows.Indices.{
  IsIndexed, IsTraced, instructions_of, recorded-IsIndexed, counted_after, known_after,
}
use bitcoin_antithesis.Compiler.Grows.Instructions.{
  compile_instruction-Growing, compile_instruction-probe,
}

-- A compilation that succeeds leaves every index known, and any other one the indices of variables.
abbrev pub Traced : {A : Type 0} → Exit A × Compiler → Type 0
Traced (ok _, s) = IsIndexed s
Traced (_, s) = IsTraced s

IsTraced-after : (s t : Compiler) → IsIndexed s → Grows s t → IsTraced t
IsTraced-after s t h g = record {
  counted = counted_after s t g h.counted;
  known =
      All-mono t.output.metadata.variable_indices (λ i below. omega arith)
        (known_after s t g (suc (instructions_of t)) h.known (omega (arith, g.instructions)));
}

module _ (lib : Library) where
  step-Traced :
      (op : Operation) (s : Compiler) (r : Exit (Unit {0}) × Compiler)
      → IsIndexed s
      → Grows s r.1
      → (is_probe op ≡ true
          → (r.1.output.metadata ≡ s.output.metadata) × (actions_of r.1 ≡ actions_of s))
      → Traced (and_then r λ _. gets actions_of >>= λ after. record_indices op (actions_of s) after)
  unfolding ◌>>=◌ gets record_indices update_metadata
  step-Traced op s (ok _, t) h g probed = recorded-IsIndexed s t g op h probed
  step-Traced op s (err e, t) h g probed = IsTraced-after s t h g
  step-Traced op s (panic, t) h g probed = IsTraced-after s t h g
  step-Traced op s (lost cause, t) h g probed = IsTraced-after s t h g
  step-Traced op s (diverge, t) h g probed = IsTraced-after s t h g

  compile_step-Traced :
      (i : Instruction) (s : Compiler) → IsIndexed s → Traced (compile_step lib i s)
  unfolding compile_step ◌>>=◌ gets
  compile_step-Traced i s h = rw (compile_operation-compile_instruction lib i.operation i.inputs) (
      step-Traced i.operation s (compile_instruction lib i.operation i.inputs s) h
        ((compile_instruction-Growing lib i.operation i.inputs).grows s)
        (compile_instruction-probe lib i.operation i.inputs s))

  and_then-Traced :
      {A B : Type 0} (r : Exit A × Compiler) (f : A → Run B)
      → Traced r
      → ((a : A) (s : Compiler) → IsIndexed s → Traced (f a s))
      → Traced (and_then r f)
  and_then-Traced (ok a, s) f h k = k a s h
  and_then-Traced (err e, s) f h k = h
  and_then-Traced (panic, s) f h k = h
  and_then-Traced (lost cause, s) f h k = h
  and_then-Traced (diverge, s) f h k = h

  pub compile_steps-Traced :
      (is : List Instruction) (s : Compiler) → IsIndexed s → Traced (compile_steps lib is s)
  unfolding compile_steps ◌>>=◌ pure
  compile_steps-Traced [] s h = h
  compile_steps-Traced (i ∷ rest) s h =
      and_then-Traced (compile_step lib i s) _ (compile_step-Traced i s h)
        λ _ t v. compile_steps-Traced rest t v

  -- Compiling any program, from a state in which every index is known: the compiler keeps one index for
  -- each variable, whatever the outcome, and no index lies beyond the instructions that were counted. If
  -- it succeeds, each variable and each action that is no probe has the index of a compiled instruction.
  pub compile-Traced : (p : Program) (s : Compiler) → IsIndexed s → Traced (compile lib p s)
  unfolding compile ◌>>=◌ gets panics
  compile-Traced p s h = elim (Bool-cases (probes_first p.instructions)) [
    | inl placed ↦ rw placed (
        and_then-Traced (compile_steps lib p.instructions s) _
          (compile_steps-Traced p.instructions s h) λ _ t v. v)
    | inr misplaced ↦ rw misplaced (IsTraced-after s s h (Grows-refl s))
  ]
