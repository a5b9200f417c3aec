-- ===== src/Builder/Queries.antt =====
-- What generators and mutators ask the builder: workloads/ir-workload/fuzzamoto-ir/src/builder.rs.
-- The random choices of the crate rand are parameters.
pub mod Found
use bitcoin_antithesis.Prelude.{
  ℕ, suc, Bool, List, [], ◌∷◌, Option, none, some, ◌&&◌, if◌then◌else◌, get_elem?,
}
use bitcoin_antithesis.Variable.{Variable, var_eq}
use bitcoin_antithesis.Operation.{Operation}
use bitcoin_antithesis.Builder.State.{
  ScopedVariable, IndexedVariable, Builder, Outcome, ok, err, panic, M, ◌>>=◌, is_scope_active,
}
use bitcoin_antithesis.Builder.Append.{append}

-- `enumerate`, `filter` and `map`, from an index on.
unfoldable pub select : (ℕ → ScopedVariable → Bool) → ℕ → List ScopedVariable → List IndexedVariable
select keep n [] = []
select keep n (v ∷ vs) =
    let rest = select keep (suc n) vs in
    if keep n v then record { var = v.var; index = n } ∷ rest else rest

unfoldable pub last {ℓ} : {A : Type ℓ} → List A → Option A
last [] = none
last (x ∷ xs) = elim (last xs) [ none ↦ some x | some y ↦ some y ]

-- The variable is in an active scope and has the type.
abbrev pub is_available : Builder → Variable → ℕ → ScopedVariable → Bool
is_available b find n v = is_scope_active b v.scope_id && var_eq v.var find

unfoldable pub available : Builder → Variable → List IndexedVariable
available b find = select (is_available b find) 0 b.variables

unfoldable pub get_variable : Builder → ℕ → Option IndexedVariable
get_variable b idx = elim (get_elem? b.variables idx) [
  | none ↦ none
  | some v ↦
      if is_scope_active b v.scope_id then some (record { var = v.var; index = idx }) else none
]

unfoldable pub get_nearest_variable : Builder → Variable → Option IndexedVariable
get_nearest_variable b find = last (available b find)

unfoldable pub get_random_variable :
    (List IndexedVariable → Option IndexedVariable) → Builder → Variable → Option IndexedVariable
get_random_variable choose b find = choose (available b find)

-- `expect` on an error panics.
abbrev pub expect : {A : Type 0} → Outcome A → Outcome A
expect (ok a b) = ok a b
expect (err _ _) = panic
expect panic = panic

unfoldable pub force_append : List ℕ → Operation → M (List IndexedVariable)
force_append inputs operation b =
    expect (append (record { inputs = inputs; operation = operation }) b)

-- `pop` and its `expect`.
abbrev pub expect_last : Option IndexedVariable → M IndexedVariable
expect_last none b = panic
expect_last (some v) b = ok v b

unfoldable pub force_append_expect_output : List ℕ → Operation → M IndexedVariable
force_append_expect_output inputs operation = do
  vs ← force_append inputs operation
  expect_last (last vs)
