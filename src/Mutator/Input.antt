-- ===== src/Mutator/Input.antt =====
-- The exchange of one input: workloads/ir-workload/fuzzamoto-ir/src/mutators/input.rs. The random
-- choices of the crate rand are parameters.
use bitcoin_antithesis.Prelude.{
  ℕ, suc, Bool, List, [], ◌∷◌, Option, none, some, ◌==◌, if◌then◌else◌, take, set,
}
use bitcoin_antithesis.Partial.{Partial, done, panics}
use bitcoin_antithesis.Instruction.{Instruction, is_input_mutable}
use bitcoin_antithesis.Builder.State.{Program, IndexedVariable, Builder, Outcome, ok, err, panic}
use bitcoin_antithesis.Builder.Programs.{from_program}
use bitcoin_antithesis.Builder.Queries.{get_variable, get_random_variable}
use bitcoin_antithesis.Mutator.{Mutated, changed, failed, panicked, no_mutations_available}
pub mod Candidates
pub mod Exchanged
pub mod Chosen

abbrev pub enumerate {ℓ} : {A : Type ℓ} → ℕ → List A → List (ℕ × A)
enumerate n [] = []
enumerate n (x ∷ xs) = (n, x) ∷ enumerate (suc n) xs

abbrev pub keep_if {ℓ} : {A : Type ℓ} → Partial Bool → A → Partial (List A) → Partial (List A)
keep_if (done test) x (done xs) = done (if test then x ∷ xs else xs)
keep_if _ x _ = panics

-- The instructions with an input that may change; the filter's `assert!` panics.
unfoldable pub input_candidates : ℕ → List Instruction → Partial (List (ℕ × Instruction))
input_candidates n [] = done []
input_candidates n (i ∷ rest) = keep_if (is_input_mutable i) (n, i) (input_candidates (suc n) rest)

-- `program.instructions[at].inputs[k] = x`, where `i` is the instruction at `at` and `k` is one of
-- its inputs.
abbrev pub set_input : Program → ℕ → Instruction → ℕ → ℕ → Program
set_input program at i k x = record program {
  instructions = set program.instructions at (record i { inputs = set i.inputs k x });
}

abbrev pub program_upto : Program → ℕ → Program
program_upto program at = record program { instructions = take at program.instructions }

module _ (choose_instruction : List (ℕ × Instruction) → Option (ℕ × Instruction))
    (choose_input : List (ℕ × ℕ) → Option (ℕ × ℕ))
    (choose_variable : List IndexedVariable → Option IndexedVariable) where
  -- The `expect` on the current variable panics; where no variable is found nothing changes.
  unfoldable pub exchange :
      Program → ℕ → Instruction → ℕ → Option IndexedVariable → Builder → Mutated
  exchange program at i k none b = panicked
  exchange program at i k (some current) b =
      elim (get_random_variable choose_variable b current.var) [
        | none ↦ changed program
        | some new_var ↦
            if new_var.index == current.index
            then failed no_mutations_available
            else changed (set_input program at i k new_var.index)
      ]

  unfoldable pub mutate_instruction : Program → ℕ → Instruction → Outcome (Unit {0}) → Mutated
  mutate_instruction program at i (ok _ b) = elim (choose_input (enumerate 0 i.inputs)) [
    | none ↦ panicked
    | some c ↦ exchange program at i c.0 (get_variable b c.1) b
  ]
  mutate_instruction program at i (err _ _) = panicked
  mutate_instruction program at i panic = panicked

  unfoldable pub mutate_input : Program → Mutated
  mutate_input program = elim (input_candidates 0 program.instructions) [
    | panics ↦ panicked
    | done candidates ↦ elim (choose_instruction candidates) [
      | none ↦ failed no_mutations_available
      | some c ↦ mutate_instruction program c.0 c.1 (from_program (program_upto program c.0))
    ]
  ]
