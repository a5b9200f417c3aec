-- ===== src/Compiler/Batches/First.antt =====
-- The first batch against compile: workloads/ir-workload/fuzzamoto-ir/src/compiler.rs.
use bitcoin_antithesis.Prelude.{ℕ, ◌≡◌, refl, sym, subst, true, List, ◌++◌, length, drop}
use bitcoin_antithesis.Builder.State.{Program, Builder}
use bitcoin_antithesis.Compiler.Bitcoin.{Library}
use bitcoin_antithesis.Compiler.State.{
  CompiledAction, CompiledProgram, Compiler, Exit, ok, err, panic, lost, diverge, and_then, ◌>>=◌,
  gets,
}
use bitcoin_antithesis.Compiler.Compile.{
  probes_first, batch_steps, compile, compile_from, set_compiled,
}
use bitcoin_antithesis.Compiler.Copies.{compile_steps-batch_steps}
use bitcoin_antithesis.Compiler.Batches.{Appends, batch, drop-append, batch_steps-Appends}

-- What the first batch gives, where compile gives `r`: the new actions, and the number of the
-- instructions is noted.
abbrev pub IsFirstBatch :
    Compiler → ℕ → Exit CompiledProgram × Compiler → Exit (List CompiledAction) × Compiler → Type 0
IsFirstBatch s n (ok out, t) batch =
    (new : List CompiledAction) × (out.actions ≡ s.output.actions ++ new)
    × (batch ≡ (ok new, record t { last_compiled_instruction = n }))
IsFirstBatch s n (err e, t) batch = batch ≡ (err e, t)
IsFirstBatch s n (panic, t) batch = batch ≡ (panic, t)
IsFirstBatch s n (lost cause, t) batch = batch ≡ (lost cause, t)
IsFirstBatch s n (diverge, t) batch = batch ≡ (diverge, t)

module _ (lib : Library) where
  batch_of :
      (s : Compiler) (n : ℕ) (r : Exit (Unit {0}) × Compiler)
      → Appends s r.1
      → IsFirstBatch s n (and_then r λ _. gets (λ t. t.output)) (
          and_then r λ _.
            set_compiled n >>= λ _. gets (λ t. drop (length s.output.actions) t.output.actions))
  unfolding ◌>>=◌ gets set_compiled Appends
  batch_of s n (ok _, t) (more, e) = (more, e, rw (e, drop-append s.output.actions more) refl)
  batch_of s n (err e, t) h = refl
  batch_of s n (panic, t) h = refl
  batch_of s n (lost cause, t) h = refl
  batch_of s n (diverge, t) h = refl

  -- A compiler that has compiled nothing treats the instructions of a builder as `compile` treats the
  -- same program, unless it asks for a probe that does not come first: it fails in the same way, or it
  -- succeeds in the same state, notes how many instructions it has compiled, and gives the new actions.
  pub compile_from-IsFirstBatch :
      (p : Program) (b : Builder) (s : Compiler)
      → b.instructions ≡ p.instructions
      → s.last_compiled_instruction ≡ 0
      → probes_first p.instructions ≡ true
      → IsFirstBatch s (length b.instructions) (compile lib p s) (compile_from lib b s)
  unfolding compile compile_from ◌>>=◌ gets
  compile_from-IsFirstBatch p b s same fresh placed =
      rw (placed, ← same, compile_steps-batch_steps lib b.instructions)
        (subst
          (λ n.
            IsFirstBatch s (length b.instructions)
              (and_then (batch_steps lib b.instructions s) λ _. gets (λ t. t.output))
              (and_then (batch_steps lib (drop n b.instructions) s) λ _.
                set_compiled (length b.instructions) >>= λ _.
                gets (λ t. drop (length s.output.actions) t.output.actions)))
          (sym fresh)
          (batch_of s (length b.instructions) (batch_steps lib b.instructions s)
            (batch_steps-Appends lib b.instructions s)))
