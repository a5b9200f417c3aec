-- ===== src/Builder/State.antt =====
-- The state of the builder, its outcomes, and the scopes: workloads/ir-workload/fuzzamoto-ir/src/
-- builder.rs, with the errors of errors.rs and the program's context of lib.rs.
use Prim.Native.String.{String}
use bitcoin_antithesis.Prelude.{
  ℕ, suc, Bool, false, List, [], ◌∷◌, Option, none, ◌==◌, ◌||◌, if◌then◌else◌, length,
}
use bitcoin_antithesis.Variable.{Variable}
use bitcoin_antithesis.Operation.{Operation}
use bitcoin_antithesis.Instruction.{Instruction, InstructionContext, global}

pub record ProgramContext : Type 0 where
  pub num_nodes : ℕ
  pub num_connections : ℕ
  pub timestamp : ℕ

pub record Program : Type 0 where
  pub instructions : List Instruction
  pub context : ProgramContext

pub data ProgramValidationError : Type 0 where
  variable_not_defined : ℕ → ProgramValidationError
  node_not_found : ℕ → ProgramValidationError
  connection_not_found : ℕ → ProgramValidationError
  invalid_connection_type : String → ProgramValidationError
  invalid_variable_type : Option Variable → Variable → ProgramValidationError
  invalid_number_of_inputs : ℕ → ℕ → ProgramValidationError
  invalid_block_end : Operation → Operation → ProgramValidationError
  scope_still_open : ProgramValidationError

pub record Scope : Type 0 where
  pub begin : Option ℕ
  pub id : ℕ
  pub context : InstructionContext

pub record ScopedVariable : Type 0 where
  pub var : Variable
  pub scope_id : ℕ

pub record IndexedVariable : Type 0 where
  pub var : Variable
  pub index : ℕ

pub record Builder : Type 0 where
  pub context : ProgramContext
  pub active_scopes : List Scope
  pub active_scopes_set : List ℕ
  pub scope_counter : ℕ
  pub variables : List ScopedVariable
  pub instructions : List Instruction
  pub contexts : List InstructionContext

-- An error leaves the builder as far as the call had changed it.
pub data Outcome (A : Type 0) : Type 0 where
  ok : A → Builder → Outcome A
  err : ProgramValidationError → Builder → Outcome A
  panic : Outcome A

abbrev pub M : Type 0 → Type 0
M A = Builder → Outcome A

abbrev pub and_then : {A B : Type 0} → Outcome A → (A → M B) → Outcome B
and_then (ok a b) f = f a b
and_then (err e b) f = err e b
and_then panic f = panic

infixl 5 ◌>>=◌ ◌>>◌
abbrev pub ◌>>=◌ : {A B : Type 0} → M A → (A → M B) → M B
◌>>=◌ m f b = and_then (m b) f

abbrev pub ◌>>◌ : {B : Type 0} → M (Unit {0}) → M B → M B
◌>>◌ m k b = and_then (m b) λ _. k

abbrev pub pure : {A : Type 0} → A → M A
pure a b = ok a b

abbrev pub fail : {A : Type 0} → ProgramValidationError → M A
fail e b = err e b

abbrev pub modify : (Builder → Builder) → M (Unit {0})
modify f b = ok tt (f b)

-- `HashSet<usize>`.
abbrev pub contains : List ℕ → ℕ → Bool
contains [] x = false
contains (y ∷ ys) x = x == y || contains ys x

abbrev pub insert : ℕ → List ℕ → List ℕ
insert x ys = if contains ys x then ys else x ∷ ys

abbrev pub remove : ℕ → List ℕ → List ℕ
remove x [] = []
remove x (y ∷ ys) = if x == y then ys else y ∷ remove x ys

unfoldable pub is_scope_active : Builder → ℕ → Bool
is_scope_active b scope_id = contains b.active_scopes_set scope_id

unfoldable pub enter_scope : Option ℕ → InstructionContext → Builder → Builder
enter_scope begin context b = record b {
  scope_counter = suc b.scope_counter;
  active_scopes =
      record { begin = begin; id = suc b.scope_counter; context = context } ∷ b.active_scopes;
  active_scopes_set = insert (suc b.scope_counter) b.active_scopes_set;
}

-- `expect` on an empty stack, and the `assert!` on the set, panic.
pop_scope : List Scope → M Scope
pop_scope [] b = panic
pop_scope (exited ∷ rest) b =
    if contains b.active_scopes_set exited.id
    then ok exited (record b {
      active_scopes = rest;
      active_scopes_set = remove exited.id b.active_scopes_set;
    })
    else panic

unfoldable pub exit_scope : M Scope
unfolding pop_scope
exit_scope b = pop_scope b.active_scopes b

top_scope : List Scope → M Scope
top_scope [] b = panic
top_scope (s ∷ _) b = ok s b

unfoldable pub current_scope : M Scope
unfolding top_scope
current_scope b = top_scope b.active_scopes b

unfoldable pub new_builder : ProgramContext → Builder
unfolding enter_scope
new_builder context = enter_scope none global (record {
  context = context;
  active_scopes = [];
  active_scopes_set = [];
  scope_counter = 0;
  variables = [];
  instructions = [];
  contexts = [];
})

unfoldable pub variable_count : Builder → ℕ
variable_count b = length b.variables
