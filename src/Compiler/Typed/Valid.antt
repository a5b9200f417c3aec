-- ===== src/Compiler/Typed/Valid.antt =====
-- Valid programs are compiled without a failed lookup: compiler.rs of workloads/ir-workload/
-- fuzzamoto-ir/src against builder.rs and lib.rs.
use bitcoin_antithesis.Prelude.{ℕ, ◌≢◌, List, map}
use bitcoin_antithesis.Variable.{Variable}
use bitcoin_antithesis.Operation.{Operation, advance_time}
use bitcoin_antithesis.Instruction.{Instruction}
use bitcoin_antithesis.Builder.State.{Builder}
use bitcoin_antithesis.Builder.Runs.{Runs}
use bitcoin_antithesis.Compiler.Typed.{type_of}

-- The types to which the builder's variables are compiled.
abbrev pub types_of : Builder → List ℕ
types_of b = map (λ v. type_of v.var) b.variables

abbrev pub NoAdvance : Instruction → Type 0
NoAdvance i = i.operation ≢ advance_time
