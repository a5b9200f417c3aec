-- ===== src/Mutator/Combine.antt =====
-- Splicing a program into another: workloads/ir-workload/fuzzamoto-ir/src/mutators/combine.rs.
pub mod Halves
pub mod Chosen
use bitcoin_antithesis.Prelude.{
  ℕ, ◌-◌, ◌≡◌, List, [], ◌++◌, map, Option, none, some, length, leb, if◌then◌else◌, take, drop,
}
use bitcoin_antithesis.Partial.{done, panics}
use bitcoin_antithesis.Instruction.{Instruction, global}
use bitcoin_antithesis.Builder.State.{Program, M, ◌>>=◌, ◌>>◌, new_builder, variable_count}
use bitcoin_antithesis.Builder.Programs.{
  remap, rename, append_all, append_program, append_program_without_threshold, finalize,
}
use bitcoin_antithesis.Builder.Runs.{run}
use bitcoin_antithesis.Builder.Runs.Valid.{IsValid}
use bitcoin_antithesis.Program.{get_random_instruction_index}
use bitcoin_antithesis.Mutator.{Mutated, panicked, finish}

-- The second half of the program, of which the inputs from `prev_var_count` on are raised by the
-- number of variables that the spliced program has made.
unfoldable pub append_second_half : Program → List Instruction → ℕ → M (Unit {0})
append_second_half program second prev_var_count b =
    append_program (record program { instructions = second }) prev_var_count
      (variable_count b - prev_var_count) b

unfoldable pub combine_at : Program → Program → ℕ → M Program
combine_at program splice_with combine_index = do
  _ ← append_all (take combine_index program.instructions)
  λ b.
      (do
        append_program_without_threshold splice_with (variable_count b)
        append_second_half program (drop combine_index program.instructions) (variable_count b)
        finalize)
        b

-- An index past the end panics when the program is sliced, and so does the `expect` on none.
unfoldable pub combine : (List ℕ → Option ℕ) → Program → Program → Mutated
combine choose program splice_with = elim (get_random_instruction_index choose program global) [
  | done (some combine_index) ↦
      if leb combine_index (length program.instructions)
      then finish (combine_at program splice_with combine_index (new_builder program.context))
      else panicked
  | done none ↦ panicked
  | panics ↦ panicked
]

-- What the splice of `q` into `p` at a position yields.
abbrev pub IsSpliced : Program → Program → ℕ → Program → Type 0
IsSpliced p q idx r =
    let before = run (take idx p.instructions) (new_builder p.context) in
    let n = length before.variables in
    let spliced = map (rename (remap 0 n)) q.instructions in
    let m = length (run spliced before).variables - n in
    IsValid r
    × (r.context ≡ p.context)
    × (r.instructions
        ≡ take idx p.instructions
          ++ (spliced ++ map (rename (remap n m)) (drop idx p.instructions)))
