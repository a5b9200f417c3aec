-- ===== src/Compiler/Batches.antt =====
-- The two entries of the compiler, compile and compile_from: workloads/ir-workload/fuzzamoto-ir/src/
-- compiler.rs.
pub mod First
pub mod Whole
use mathlib.Core.List.{append-nil, append_assoc}
use bitcoin_antithesis.Prelude.{
  ℕ, zero, suc, ◌≤◌, arith, ◌≡◌, refl, sym, ap, ◌∙◌, subst, true, List, [], ◌∷◌, ◌++◌, length, drop,
}
use bitcoin_antithesis.Instruction.{Instruction}
use bitcoin_antithesis.Builder.State.{Program, Builder}
use bitcoin_antithesis.Compiler.Bitcoin.{Library}
use bitcoin_antithesis.Compiler.State.{
  Run, CompiledAction, CompiledProgram, Compiler, Exit, ok, err, panic, lost, diverge, and_then,
  ◌>>=◌, pure, gets, update_metadata,
}
use bitcoin_antithesis.Compiler.Compile.{
  probes_first, batch_step, batch_steps, compile, compile_from, record_batch_indices, set_compiled,
  actions_of,
}
use bitcoin_antithesis.Compiler.Dispatch.{compile_instruction}
use bitcoin_antithesis.Compiler.Records.{noted, noted_after}
use bitcoin_antithesis.Compiler.Grows.{Growing, and_then-noted}
use bitcoin_antithesis.Compiler.Grows.Instructions.{compile_instruction-Growing}

pub drop-append {ℓ} : {A : Type ℓ} (xs ys : List A) → drop (length xs) (xs ++ ys) ≡ ys
drop-append [] ys = refl
drop-append (x ∷ xs) ys = drop-append xs ys

-- The actions only grow.
unfoldable pub Appends : Compiler → Compiler → Type 0
Appends s t = (more : List CompiledAction) × (t.output.actions ≡ s.output.actions ++ more)

Appends-trans : (s t u : Compiler) → Appends s t → Appends t u → Appends s u
unfolding Appends
Appends-trans s t u (m, e) (n, f) = (m ++ n, rw (f, e, append_assoc) refl)

ap_and_then :
    {f g : Run (Unit {0})} (r : Exit (Unit {0}) × Compiler)
    → ((t : Compiler) → f t ≡ g t)
    → and_then r (λ _. f) ≡ and_then r (λ _. g)
ap_and_then (ok _, t) h = h t
ap_and_then (err e, t) h = refl
ap_and_then (panic, t) h = refl
ap_and_then (lost cause, t) h = refl
ap_and_then (diverge, t) h = refl

and_then_assoc :
    {A B C : Type 0} (r : Exit A × Compiler) (f : A → Run B) (g : B → Run C)
    → and_then r (λ a. (λ s. and_then (f a s) g)) ≡ and_then (and_then r f) g
and_then_assoc (ok _, t) f g = refl
and_then_assoc (err e, t) f g = refl
and_then_assoc (panic, t) f g = refl
and_then_assoc (lost cause, t) f g = refl
and_then_assoc (diverge, t) f g = refl

-- What is done with the outcome `r` of the new instructions.
unfoldable pub batch : ℕ → ℕ → Exit (Unit {0}) × Compiler → Exit (List CompiledAction) × Compiler
batch n before r = and_then r λ _. set_compiled n >>= λ _. gets (λ t. drop before t.output.actions)

module _ (lib : Library) where
  step-Appends :
      (i : Instruction) (s : Compiler) (r : Exit (Unit {0}) × Compiler)
      → Appends s r.1
      → Appends s
          (and_then r λ _.
            gets actions_of >>= λ after. record_batch_indices i.operation (actions_of s) after).1
  unfolding ◌>>=◌ gets record_batch_indices update_metadata Appends
  step-Appends i s (ok _, t) h = h
  step-Appends i s (err e, t) h = h
  step-Appends i s (panic, t) h = h
  step-Appends i s (lost cause, t) h = h
  step-Appends i s (diverge, t) h = h

  batch_step-Appends : (i : Instruction) (s : Compiler) → Appends s (batch_step lib i s).1
  unfolding batch_step ◌>>=◌ gets Appends
  batch_step-Appends i s =
      let g = (compile_instruction-Growing lib i.operation i.inputs).grows s in
      step-Appends i s (compile_instruction lib i.operation i.inputs s) (g.more, g.actions)

  and_then-Appends :
      (s : Compiler) (r : Exit (Unit {0}) × Compiler) (rest : List Instruction)
      → Appends s r.1
      → ((t : Compiler) → Appends t (batch_steps lib rest t).1)
      → Appends s (and_then r λ _. batch_steps lib rest).1
  and_then-Appends s (ok _, t) rest h k = Appends-trans s t _ h (k t)
  and_then-Appends s (err e, t) rest h k = h
  and_then-Appends s (panic, t) rest h k = h
  and_then-Appends s (lost cause, t) rest h k = h
  and_then-Appends s (diverge, t) rest h k = h

  pub batch_steps-Appends :
      (is : List Instruction) (s : Compiler) → Appends s (batch_steps lib is s).1
  unfolding batch_steps ◌>>=◌ pure Appends
  batch_steps-Appends [] s = ([], sym (append-nil s.output.actions))
  batch_steps-Appends (i ∷ rest) s =
      and_then-Appends s (batch_step lib i s) rest (batch_step-Appends i s)
        (batch_steps-Appends rest)

  batch_step-noted :
      (i : Instruction) (n : ℕ) (s : Compiler)
      → batch_step lib i (noted n s) ≡ noted_after n (batch_step lib i s)
  unfolding batch_step ◌>>=◌ gets record_batch_indices update_metadata
  batch_step-noted i n s =
      ap
        (λ r.
          and_then r
            λ _. gets actions_of >>= λ after. record_batch_indices i.operation (actions_of s) after)
        ((compile_instruction-Growing lib i.operation i.inputs).framed n s)
      ∙ and_then-noted n (compile_instruction lib i.operation i.inputs s) _ λ _ t. refl

  pub batch_steps-noted :
      (is : List Instruction) (n : ℕ) (s : Compiler)
      → batch_steps lib is (noted n s) ≡ noted_after n (batch_steps lib is s)
  unfolding batch_steps ◌>>=◌ pure
  batch_steps-noted [] n s = refl
  batch_steps-noted (i ∷ rest) n s =
      ap (λ r. and_then r λ _. batch_steps lib rest) (batch_step-noted i n s)
      ∙ and_then-noted n (batch_step lib i s) _ λ _. batch_steps-noted rest n

  pub batch_steps-append :
      (is js : List Instruction) (s : Compiler)
      → batch_steps lib (is ++ js) s ≡ and_then (batch_steps lib is s) λ _. batch_steps lib js
  unfolding batch_steps ◌>>=◌ pure
  batch_steps-append [] js s = refl
  batch_steps-append (i ∷ rest) js s =
      ap_and_then (batch_step lib i s) (λ t. batch_steps-append rest js t)
      ∙ and_then_assoc (batch_step lib i s) (λ _. batch_steps lib rest) (λ _. batch_steps lib js)

  pub compile_from-batch :
      (b : Builder) (s : Compiler)
      → compile_from lib b s
        ≡ batch
            (length b.instructions)
            (length s.output.actions)
            (batch_steps lib (drop s.last_compiled_instruction b.instructions) s)
  unfolding compile_from batch ◌>>=◌ gets
  compile_from-batch b s = refl
