-- ===== src/Builder/Invariant.antt =====
-- The invariant of the builder, and what `append` does to it: builder.rs of workloads/ir-workload/
-- fuzzamoto-ir/src.
pub mod Scopes
pub mod Phases
pub mod Effects
pub mod Preserved
use bitcoin_antithesis.Prelude.{
  ℕ, ◌≤◌, ◌<◌, ◌≡◌, ◌≢◌, true, List, [], ◌∷◌, map, none, some, get_elem?, All,
}
use bitcoin_antithesis.Partial.{done}
use bitcoin_antithesis.Variable.{is_block_local}
use bitcoin_antithesis.Operation.Blocks.{is_block_begin}
use bitcoin_antithesis.Instruction.{Instruction, global, entered_context_after_execution}
use bitcoin_antithesis.Builder.State.{
  ProgramValidationError, Scope, ScopedVariable, Builder, Outcome, ok, err,
}

-- The scope was opened by an instruction of the program, the beginning of a block, and has the
-- context that this one enters.
abbrev pub OpenedBy : List Instruction → Scope → Type 0
OpenedBy program s =
    (at : ℕ) × (i : Instruction) × (s.begin ≡ some at)
    × (get_elem? program at ≡ some i)
    × (is_block_begin i.operation ≡ true)
    × (entered_context_after_execution i.operation ≡ done (some s.context))

-- The outermost scope is the global one, with id 1; ids fall from the top to it.
abbrev pub Opened : List Instruction → List Scope → Type 0
Opened program [] = ⊥
Opened program (s ∷ []) = (s.begin ≡ none) × (s.id ≡ 1) × (s.context ≡ global)
Opened program (s ∷ t ∷ rest) = OpenedBy program s × (t.id < s.id) × Opened program (t ∷ rest)

abbrev pub ids : List Scope → List ℕ
ids = map λ s. s.id

-- A block's own variable is never a variable of the global scope.
abbrev pub IsContained : ScopedVariable → Type 0
IsContained v = is_block_local v.var ≡ true → v.scope_id ≢ 1

-- What holds of a builder whose instructions are `base`, with its scopes read in `program`.
pub record Inv (base program : List Instruction) (b : Builder) : Type 0 where
  pub code : b.instructions ≡ base
  pub opened : Opened program b.active_scopes
  pub tracked : b.active_scopes_set ≡ ids b.active_scopes
  pub bounded : All (λ s. s.id ≤ b.scope_counter) b.active_scopes
  pub known : All (λ v. v.scope_id ≤ b.scope_counter) b.variables
  pub contained : All IsContained b.variables

abbrev pub IsWellFormed : Builder → Type 0
IsWellFormed b = Inv b.instructions b.instructions b

-- `P` holds of a result, `E` of the builder that an error leaves; there is no panic.
pub data Ensures {A : Type 0} (P : A → Builder → Type 0) (E : Builder → Type 0)
    : Outcome A → Type 0 where
  gives : {a : A} {b : Builder} → P a b → Ensures P E (ok a b)
  fails : {e : ProgramValidationError} {b : Builder} → E b → Ensures P E (err e b)
