-- ===== src/Builder/Utxos.antt =====
-- Transaction outputs that no input spends: `get_random_utxos` of workloads/ir-workload/fuzzamoto-ir/
-- src/builder.rs. The random choices of the crate rand are parameters, and so is the order in which
-- the set is gone through: it is part of the choice.
pub mod Unspent
pub mod Collected
pub mod Chosen
use bitcoin_antithesis.Prelude.{
  ℕ, suc, ◌+◌, List, [], ◌∷◌, Option, some, if◌then◌else◌, length, get_elem?,
}
use bitcoin_antithesis.Partial.{Partial, done, panics}
use bitcoin_antithesis.Variable.{Variable, var_eq}
use bitcoin_antithesis.Operation.{Operation, take_txo, load_txo, add_tx_input}
use bitcoin_antithesis.Operation.Signature.{num_outputs, num_inner_outputs}
use bitcoin_antithesis.Instruction.{Instruction}
use bitcoin_antithesis.Builder.State.{
  ScopedVariable, IndexedVariable, Builder, is_scope_active, contains, insert, remove,
}
use bitcoin_antithesis.Builder.Headers.{second}

abbrev pub count_after : Operation → ℕ → ℕ
count_after op var_count = var_count + num_outputs op + num_inner_outputs op

-- The set and the count after one instruction; where `remove` finds nothing, `continue` skips the
-- count.
unfoldable pub spend : Operation → List ℕ → ℕ → List ℕ → Partial (List ℕ × ℕ)
spend take_txo inputs var_count utxos =
    done (insert var_count utxos, count_after take_txo var_count)
spend (load_txo t) inputs var_count utxos =
    done (insert var_count utxos, count_after (load_txo t) var_count)
spend add_tx_input inputs var_count utxos = second inputs λ input. done (
    if contains utxos input
    then (remove input utxos, count_after add_tx_input var_count)
    else (utxos, var_count))
spend op inputs var_count utxos = done (utxos, count_after op var_count)

unfoldable pub collect_utxos : List Instruction → ℕ → List ℕ → Partial (List ℕ)
collect_utxos [] var_count utxos = done utxos
collect_utxos (i ∷ rest) var_count utxos = elim (spend i.operation i.inputs var_count utxos) [
  | panics ↦ panics
  | done next ↦ collect_utxos rest next.1 next.0
]

-- The filter, and the `assert!` on the variables that it keeps.
abbrev pub keep_utxo :
    Builder
    → ℕ
    → Option ScopedVariable
    → Partial (List IndexedVariable)
    → Partial (List IndexedVariable)
keep_utxo b index (some v) (done rest) =
    if is_scope_active b v.scope_id
    then if var_eq v.var Variable.txo
      then done (record { var = v.var; index = index } ∷ rest)
      else panics
    else done rest
keep_utxo b index _ _ = panics

unfoldable pub utxo_variables : Builder → List ℕ → Partial (List IndexedVariable)
utxo_variables b [] = done []
utxo_variables b (index ∷ rest) =
    keep_utxo b index (get_elem? b.variables index) (utxo_variables b rest)

module _ (gen_range : ℕ → ℕ)
    (choose_multiple : List IndexedVariable → ℕ → List IndexedVariable) where
  abbrev pub choose_utxos : List IndexedVariable → List IndexedVariable
  choose_utxos [] = []
  choose_utxos (v ∷ vs) = choose_multiple (v ∷ vs) (suc (gen_range (length (v ∷ vs))))

  unfoldable pub get_random_utxos : Builder → Partial (List IndexedVariable)
  get_random_utxos b = elim (collect_utxos b.instructions 0 []) [
    | panics ↦ panics
    | done utxos ↦ elim (utxo_variables b utxos) [
      | panics ↦ panics
      | done all_utxos ↦ done (choose_utxos all_utxos)
    ]
  ]
