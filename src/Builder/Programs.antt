-- ===== src/Builder/Programs.antt =====
-- Whole programs in the builder: `append_all`, `append_program`, `from_program`, `finalize` of
-- workloads/ir-workload/fuzzamoto-ir/src/builder.rs, and the validity of lib.rs that they decide.
use bitcoin_antithesis.Prelude.{
  ℕ, ◌+◌, Bool, true, false, List, [], ◌∷◌, ◌++◌, map, Option, none, some, ◌==◌, ◌&&◌, leb, not,
  if◌then◌else◌, length, get_elem?,
}
use bitcoin_antithesis.Partial.{Partial, done, panics}
use bitcoin_antithesis.Instruction.{Instruction}
use bitcoin_antithesis.Builder.State.{
  ProgramContext, Program, scope_still_open, IndexedVariable, Builder, Outcome, ok, err, panic, M,
  and_then, ◌>>=◌, pure, is_scope_active, new_builder,
}
use bitcoin_antithesis.Builder.Append.{append}

-- An index past the end panics.
unfoldable pub is_variable_in_scope : ℕ → M Bool
is_variable_in_scope idx b = elim (get_elem? b.variables idx) [
  | none ↦ panic
  | some v ↦ ok (is_scope_active b v.scope_id) b
]

-- The loop of `append_all`; an error ends it.
unfoldable pub append_each : List Instruction → M (List IndexedVariable)
append_each [] = pure []
append_each (i ∷ instructions) = do
  vs ← append i
  rest ← append_each instructions
  pure (vs ++ rest)

unfoldable pub keep_in_scope : List IndexedVariable → M (List IndexedVariable)
keep_in_scope [] = pure []
keep_in_scope (v ∷ vs) = do
  keep ← is_variable_in_scope v.index
  rest ← keep_in_scope vs
  pure (if keep then v ∷ rest else rest)

unfoldable pub append_all : List Instruction → M (List IndexedVariable)
append_all instructions = do variables ← append_each instructions; keep_in_scope variables

-- The derived `PartialEq`.
unfoldable pub context_eq : ProgramContext → ProgramContext → Bool
context_eq x y =
    x.num_nodes == y.num_nodes
    && x.num_connections == y.num_connections
    && x.timestamp == y.timestamp

abbrev pub remap : ℕ → ℕ → ℕ → ℕ
remap threshold offset input = if leb threshold input then input + offset else input

abbrev pub rename : (ℕ → ℕ) → Instruction → Instruction
rename f i = record i { inputs = map f i.inputs }

-- The `assert!` on the contexts panics.
unfoldable pub append_program : Program → ℕ → ℕ → M (Unit {0})
append_program program threshold offset b =
    if context_eq program.context b.context
    then (do _ ← append_all (map (rename (remap threshold offset)) program.instructions); pure tt) b
    else panic

unfoldable pub append_program_without_threshold : Program → ℕ → M (Unit {0})
append_program_without_threshold program offset = append_program program 0 offset

unfoldable pub from_program : Program → Outcome (Unit {0})
from_program program = append_program program 0 0 (new_builder program.context)

unfoldable pub finalize : M Program
finalize b =
    if length b.active_scopes == length b.active_scopes_set
    then if not (length b.active_scopes == 1)
      then err scope_still_open b
      else ok (record { context = b.context; instructions = b.instructions }) b
    else panic

abbrev pub succeeds : {A : Type 0} → Outcome A → Partial Bool
succeeds (ok _ _) = done true
succeeds (err _ _) = done false
succeeds panic = panics

unfoldable pub is_statically_valid : Program → Partial Bool
is_statically_valid program = succeeds (and_then (from_program program) λ _. finalize)

abbrev pub built : {A : Type 0} → Outcome A → Partial (Option Builder)
built (ok _ b) = done (some b)
built (err _ _) = done none
built panic = panics

unfoldable pub to_builder : Program → Partial (Option Builder)
to_builder program = built (from_program program)
