-- ===== src/Builder/Headers.antt =====
-- The nearest header that has been sent: `get_nearest_sent_header` of workloads/ir-workload/
-- fuzzamoto-ir/src/builder.rs.
pub mod Pairs
pub mod Collected
pub mod Sent
use bitcoin_antithesis.Prelude.{
  ℕ, zero, suc, Bool, List, [], ◌∷◌, Option, none, some, ◌&&◌, if◌then◌else◌, get_elem?,
}
use bitcoin_antithesis.Partial.{Partial, done, panics}
use bitcoin_antithesis.Variable.{Variable, var_eq}
use bitcoin_antithesis.Operation.{Operation, send_header, send_block}
use bitcoin_antithesis.Instruction.{Instruction}
use bitcoin_antithesis.Builder.State.{
  ScopedVariable, IndexedVariable, Builder, is_scope_active, contains, insert,
}
use bitcoin_antithesis.Builder.Queries.{select, last}

-- `assert!(matches!(...))` on the variable, and the index past the end, panic.
abbrev pub assert_var {ℓ} : {A : Type ℓ} → Variable → Option ScopedVariable → Partial A → Partial A
assert_var expected none result = panics
assert_var expected (some v) result = if var_eq v.var expected then result else panics

-- `inputs[1]`.
abbrev pub second {ℓ} : {A : Type ℓ} → List ℕ → (ℕ → Partial A) → Partial A
second (_ ∷ input ∷ _) f = f input
second _ f = panics

-- The subtraction of unsigned numbers panics at 0.
abbrev pub before {ℓ} : {A : Type ℓ} → ℕ → (ℕ → Partial A) → Partial A
before zero f = panics
before (suc n) f = f n

-- `sent_headers` after one instruction.
unfoldable pub sent_by : List ScopedVariable → Operation → List ℕ → List ℕ → Partial (List ℕ)
sent_by variables send_header inputs sent_headers = second inputs λ input.
    assert_var Variable.header (get_elem? variables input) (done (insert input sent_headers))
sent_by variables send_block inputs sent_headers = second inputs λ input.
    assert_var Variable.block (get_elem? variables input)
      (before input λ header. done (insert header sent_headers))
sent_by variables _ inputs sent_headers = done sent_headers

unfoldable pub collect_sent : List ScopedVariable → List Instruction → List ℕ → Partial (List ℕ)
collect_sent variables [] sent_headers = done sent_headers
collect_sent variables (i ∷ rest) sent_headers =
    elim (sent_by variables i.operation i.inputs sent_headers) [
      | panics ↦ panics
      | done sent ↦ collect_sent variables rest sent
    ]

abbrev pub is_sent_header : Builder → List ℕ → ℕ → ScopedVariable → Bool
is_sent_header b sent_headers index v =
    is_scope_active b v.scope_id && var_eq v.var Variable.header && contains sent_headers index

unfoldable pub get_nearest_sent_header : Builder → Partial (Option IndexedVariable)
get_nearest_sent_header b = elim (collect_sent b.variables b.instructions []) [
  | panics ↦ panics
  | done sent_headers ↦ done (last (select (is_sent_header b sent_headers) 0 b.variables))
]
