-- ===== src/Mutator/Combine/Chosen.antt =====
-- Splicing at a randomly chosen position: workloads/ir-workload/fuzzamoto-ir/src/mutators/combine.rs.
use bitcoin_antithesis.Prelude.{
  ℕ, ◌≤◌, ◌≡◌, refl, true, List, [], ◌∷◌, Option, none, some, arith, length, All, All-get, leb,
  take, get_elem?, inl, inr,
}
use bitcoin_antithesis.Partial.{done}
use bitcoin_antithesis.Instruction.{global}
use bitcoin_antithesis.Builder.State.{ProgramContext, Program, new_builder, enter_scope}
use bitcoin_antithesis.Builder.Invariant.Preserved.{new_builder-IsWellFormed}
use bitcoin_antithesis.Builder.Advance.{top_context}
use bitcoin_antithesis.Builder.Runs.{run}
use bitcoin_antithesis.Builder.Runs.Valid.{IsValid}
use bitcoin_antithesis.Program.{
  get_random_instruction_index, get_random_instruction_index_from, at_least, scan,
}
use bitcoin_antithesis.Program.Positions.{IsPosition, ListsAll, scan-IsPosition}
use bitcoin_antithesis.Mutator.{changed}
use bitcoin_antithesis.Mutator.Choice.{IsChoice}
use bitcoin_antithesis.Mutator.Combine.{IsSpliced, combine}
use bitcoin_antithesis.Mutator.Combine.Halves.{combine_at-IsSpliced}

scan_start :
    (p : Program)
    → IsValid p
    → (xs : List ℕ) × (scan global p.instructions 0 0
          (record { begin = none; id = 0; context = global } ∷ [])
        ≡ done xs)
      × All (IsPosition global (new_builder p.context) p.instructions 0) xs
      × ListsAll global (new_builder p.context) p.instructions 0 xs
unfolding new_builder enter_scope
scan_start p valid =
    scan-IsPosition global (new_builder p.context) p.instructions 0 0
      (record { begin = none; id = 0; context = global } ∷ []) (new_builder-IsWellFormed p.context)
      valid.0 (refl, tt)

at_least-zero : (xs : List ℕ) → at_least 0 xs ≡ xs
unfolding at_least
at_least-zero [] = refl
at_least-zero (x ∷ xs) = ground (arith, at_least-zero xs)

new_builder-top :
    (context : ProgramContext) → top_context (new_builder context).active_scopes ≡ global
unfolding new_builder enter_scope
new_builder-top context = refl

chosen_some :
    (choose : List ℕ → Option ℕ)
    → IsChoice choose
    → (x : ℕ) (xs : List ℕ)
    → (k : ℕ) × (y : ℕ) × (choose (x ∷ xs) ≡ some y) × (get_elem? (x ∷ xs) k ≡ some y)
chosen_some choose choice x xs = elim (choice.chosen (x ∷ xs)) [
  | inl (empty, _) ↦ cc
  | inr found ↦ found
]

-- In a valid program the choice gives a position in the global scope.
global_position :
    (choose : List ℕ → Option ℕ) (p : Program)
    → IsChoice choose
    → IsValid p
    → (idx : ℕ) × (get_random_instruction_index choose p global ≡ done (some idx))
      × (idx ≤ length p.instructions)
      × (top_context (run (take idx p.instructions) (new_builder p.context)).active_scopes ≡ global)
unfolding get_random_instruction_index get_random_instruction_index_from
global_position choose p choice valid =
    let (xs, scans, found, _) = scan_start p valid in
    let (k, idx, chooses, there) = chosen_some choose choice 0 xs in
    let positions : All (IsPosition global (new_builder p.context) p.instructions 0) (0 ∷ xs) =
      ((0, omega arith, omega arith, new_builder-top p.context), found) in
    let (n, at, fits, top) =
      All-get (IsPosition global (new_builder p.context) p.instructions 0) (0 ∷ xs) k positions
        there in
    let same : n ≡ idx = omega arith in
    (
      idx,
      rw (scans, get_random_instruction_index_from, at_least-zero (0 ∷ xs), chooses),
      rw (← same) fits,
      rw (← same) top,
    )

-- Splicing a valid program into another of the same context succeeds, whatever choice is made: a
-- position of the program is chosen, and at that position the instructions before it, the spliced
-- program with its inputs raised, and those after it with their inputs to later variables raised make
-- up a valid program.
pub combine-IsSpliced :
    (choose : List ℕ → Option ℕ) (p q : Program)
    → IsChoice choose
    → IsValid p
    → IsValid q
    → q.context ≡ p.context
    → (idx : ℕ) × (r : Program) × (get_random_instruction_index choose p global ≡ done (some idx))
      × (idx ≤ length p.instructions)
      × (combine choose p q ≡ changed r)
      × IsSpliced p q idx r
unfolding combine
combine-IsSpliced choose p q choice valid valid' same =
    let (idx, chosen, fits, top) = global_position choose p choice valid in
    let (r, makes, spliced) = combine_at-IsSpliced p q idx valid valid' same top in
    let inside : leb idx (length p.instructions) ≡ true = ground arith in
    (idx, r, chosen, fits, rw (chosen, combine, inside) makes, spliced)
