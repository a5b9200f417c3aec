-- ===== src/Program/Nops.antt =====
-- Removing the nops of a program: `Program::remove_nops` of workloads/ir-workload/fuzzamoto-ir/src/
-- lib.rs. Its `debug_assert!`s are not part of the model: the second one is a theorem.
pub mod Mapping
pub mod Follow
pub mod Removed
use bitcoin_antithesis.Prelude.{
  ℕ, suc, Bool, true, false, List, [], ◌∷◌, ◌++◌, Option, some, if◌then◌else◌, get_elem?,
}
use bitcoin_antithesis.Partial.{Partial, done, panics}
use bitcoin_antithesis.Variable.{Variable}
use bitcoin_antithesis.Operation.{Operation, nop}
use bitcoin_antithesis.Operation.Signature.{get_output_variables, get_inner_output_variables}
use bitcoin_antithesis.Instruction.{Instruction}
use bitcoin_antithesis.Builder.State.{Program}

-- `matches!(&output, Variable::Nop)`.
unfoldable pub is_nop_variable : Variable → Bool
is_nop_variable Variable.nop = true
is_nop_variable _ = false

unfoldable pub is_nop : Operation → Bool
is_nop (nop _ _) = true
is_nop _ = false

-- `variable_mapping` has the keys from 0 on, inserted in order: it is a list. These are the entries
-- for the variables of one instruction, and the `variable_count` after them.
unfoldable pub map_outputs : List Variable → ℕ → List ℕ
map_outputs [] variable_count = []
map_outputs (v ∷ vs) variable_count =
    variable_count
    ∷ map_outputs vs (if is_nop_variable v then variable_count else suc variable_count)

unfoldable pub count_outputs : List Variable → ℕ → ℕ
count_outputs [] variable_count = variable_count
count_outputs (v ∷ vs) variable_count =
    count_outputs vs (if is_nop_variable v then variable_count else suc variable_count)

abbrev pub and_cons {ℓ} : {A : Type ℓ} → Option A → Partial (List A) → Partial (List A)
and_cons (some x) (done xs) = done (x ∷ xs)
and_cons _ _ = panics

-- Indexing the map with a key that it lacks panics.
unfoldable pub map_inputs : List ℕ → List ℕ → Partial (List ℕ)
map_inputs variable_mapping [] = done []
map_inputs variable_mapping (input ∷ inputs) =
    and_cons (get_elem? variable_mapping input) (map_inputs variable_mapping inputs)

-- The outputs and the inner outputs.
abbrev pub outputs_of : Instruction → List Variable
outputs_of i = get_output_variables i.operation ++ get_inner_output_variables i.operation

unfoldable pub renumber : List ℕ → ℕ → List Instruction → Partial (List Instruction)
renumber variable_mapping variable_count [] = done []
renumber variable_mapping variable_count (i ∷ rest) =
    let grown = variable_mapping ++ map_outputs (outputs_of i) variable_count in
    elim (map_inputs grown i.inputs) [
      | panics ↦ panics
      | done inputs ↦
          and_cons (some (record i { inputs = inputs }))
            (renumber grown (count_outputs (outputs_of i) variable_count) rest)
    ]

unfoldable pub drop_nops : List Instruction → List Instruction
drop_nops [] = []
drop_nops (i ∷ rest) = if is_nop i.operation then drop_nops rest else i ∷ drop_nops rest

unfoldable pub remove_nops : Program → Partial Program
remove_nops program = elim (renumber [] 0 program.instructions) [
  | panics ↦ panics
  | done instructions ↦ done (record program { instructions = drop_nops instructions })
]
