-- ===== src/Builder/Simulation.antt =====
-- Two builders, of which the second can follow the first when the inputs of the instructions are
-- renamed. It serves the passes and mutators that rename variables.
pub mod Vars
pub mod Stacks
pub mod Accepted
pub mod Made
pub mod Step
pub mod Exchange
pub mod Programs
use bitcoin_antithesis.Prelude.{ℕ, ◌≡◌, ◌⊎◌, List, [], ◌∷◌, none, some, get_elem?}
use bitcoin_antithesis.Variable.{Variable}
use bitcoin_antithesis.Operation.{Operation}
use bitcoin_antithesis.Instruction.{Instruction}
use bitcoin_antithesis.Builder.State.{Scope, ScopedVariable, Builder}
use bitcoin_antithesis.Builder.Append.{scoped}

-- Two stacks of the same height, related at each depth.
abbrev pub Zip : (Scope → Scope → Type 0) → List Scope → List Scope → Type 0
Zip R [] [] = Unit
Zip R (s ∷ ss) (t ∷ ts) = R s t × Zip R ss ts
Zip R _ _ = ⊥

abbrev pub OpensAt : List Instruction → Scope → Operation → Type 0
OpensAt code s op =
    (at : ℕ) × (i : Instruction) × (s.begin ≡ some at)
    × (get_elem? code at ≡ some i)
    × (i.operation ≡ op)

-- Both scopes are global, or the same operation opened them.
abbrev pub SameOpener : List Instruction → List Instruction → Scope → Scope → Type 0
SameOpener code code' s t =
    ((s.begin ≡ none) × (t.begin ≡ none))
    ⊎ ((op : Operation) × OpensAt code s op × OpensAt code' t op)

-- The variables of the one scope are, renamed, variables of the other, of the same types.
abbrev pub Visible : (ℕ → ℕ) → List ScopedVariable → List ScopedVariable → ℕ → ℕ → Type 0
Visible f vars vars' id id' =
    (idx : ℕ) (v : Variable)
    → get_elem? vars idx ≡ some (scoped id v)
    → get_elem? vars' (f idx) ≡ some (scoped id' v)

abbrev pub Follows : (ℕ → ℕ) → Builder → Builder → Scope → Scope → Type 0
Follows f b c s t =
    SameOpener b.instructions c.instructions s t × Visible f b.variables c.variables s.id t.id

pub record Sim (f : ℕ → ℕ) (b c : Builder) : Type 0 where
  pub context : b.context ≡ c.context
  pub scopes : Zip (Follows f b c) b.active_scopes c.active_scopes
