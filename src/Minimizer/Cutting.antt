-- ===== src/Minimizer/Cutting.antt =====
-- The minimizer that cuts the program's end off: workloads/ir-workload/fuzzamoto-ir/src/minimizers/
-- cutting.rs. Half of a number goes through f64 there, which is exact below 2 ^ 53.
pub mod Search
use bitcoin_antithesis.Prelude.{
  ℕ, zero, suc, ◌+◌, ◌-◌, ◌/◌, max, Bool, Option, none, some, ◌==◌, ltb, ◌||◌, if◌then◌else◌,
  length, take,
}
use bitcoin_antithesis.Partial.{Partial, done, panics}
use bitcoin_antithesis.Builder.State.{Program}

pub record CuttingMinimizer : Type 0 where
  pub original : Program
  pub current : ℕ
  pub chopped : ℕ

unfoldable pub new_cutting : Program → CuttingMinimizer
new_cutting program = record {
  original = program;
  current = length program.instructions / 2;
  chopped = length program.instructions;
}

unfoldable pub cutting_success : CuttingMinimizer → CuttingMinimizer
cutting_success self = record self { current = self.current / 2; chopped = self.current }

-- The subtraction of unsigned numbers panics where it would go below 0.
unfoldable pub cutting_failure : CuttingMinimizer → Partial CuttingMinimizer
cutting_failure self =
    if ltb self.chopped self.current
    then panics
    else done (record self { current = self.current + max ((self.chopped - self.current) / 2) 1 })

unfoldable pub cutting_next : CuttingMinimizer → Option Program
cutting_next self =
    if self.current == self.chopped || ltb (length self.original.instructions) self.current
    then none
    else some (record self.original { instructions = take self.current self.original.instructions })

-- A run of the minimizer: each program that it offers is put to the test, and the minimizer is told.
unfoldable pub answer : Bool → CuttingMinimizer → Partial CuttingMinimizer
answer passes self = if passes then done (cutting_success self) else cutting_failure self

module _ (test : Program → Bool) where
  -- None where the fuel runs out.
  unfoldable pub minimize : ℕ → CuttingMinimizer → Partial (Option CuttingMinimizer)
  minimize zero self = done none
  minimize (suc fuel) self = elim (cutting_next self) [
    | none ↦ done (some self)
    | some offered ↦ elim (answer (test offered) self) [
      | panics ↦ panics
      | done told ↦ minimize fuel told
    ]
  ]
