-- ===== src/Mutator.antt =====
-- The mutators that splice two programs and that exchange an input: workloads/ir-workload/
-- fuzzamoto-ir/src/mutators. The random choice of `rand` is a parameter of the definitions.
pub mod Choice
pub mod Concat
pub mod Combine
pub mod Input
pub mod Parameters
use bitcoin_antithesis.Builder.State.{Program, Outcome, ok, err, panic}

pub data MutatorError : Type 0 where
  no_mutations_available created_invalid_program : MutatorError

-- A mutator changes the program, or reports an error and leaves it.
pub data Mutated : Type 0 where
  changed : Program → Mutated
  failed : MutatorError → Mutated
  panicked : Mutated

-- `map_err(|_| MutatorError::CreatedInvalidProgram)?`, on the whole chain.
abbrev pub finish : Outcome Program → Mutated
finish (ok p _) = changed p
finish (err _ _) = failed created_invalid_program
finish panic = panicked
