-- ===== src/Program.antt =====
-- Positions in programs: `get_random_instruction_index_from` of workloads/ir-workload/fuzzamoto-ir/
-- src/lib.rs. The random choice of `rand` is a parameter, `choose`.
pub mod Positions
pub mod Nops
use bitcoin_antithesis.Prelude.{
  ℕ, suc, Bool, List, [], ◌∷◌, Option, none, some, ◌==◌, leb, if◌then◌else◌,
}
use bitcoin_antithesis.Partial.{Partial, done, panics}
use bitcoin_antithesis.Operation.{Operation}
use bitcoin_antithesis.Operation.Blocks.{is_block_begin, is_block_end}
use bitcoin_antithesis.Instruction.{
  Instruction, InstructionContext, global, build_tx, build_tx_inputs, build_tx_outputs,
  witness_stack, inventory, addr_list, addr_list_v2, block_transactions, build_filter,
  build_coinbase_tx, build_coinbase_tx_outputs, build_block_txn, entered_context_after_execution,
}
use bitcoin_antithesis.Builder.State.{Program, Scope}
use bitcoin_antithesis.Builder.Advance.{tail_scopes}

-- The discriminant, which is what the derived `PartialEq` compares.
unfoldable pub context_number : InstructionContext → ℕ
context_number global = 0
context_number build_tx = 1
context_number build_tx_inputs = 2
context_number build_tx_outputs = 3
context_number witness_stack = 4
context_number inventory = 5
context_number addr_list = 6
context_number addr_list_v2 = 7
context_number block_transactions = 8
context_number build_filter = 9
context_number build_coinbase_tx = 10
context_number build_coinbase_tx_outputs = 11
context_number build_block_txn = 12

abbrev pub same_context : InstructionContext → InstructionContext → Bool
same_context x y = context_number x == context_number y

abbrev pub cons_if {ℓ} : {A : Type ℓ} → Bool → A → Partial (List A) → Partial (List A)
cons_if test x (done xs) = done (if test then x ∷ xs else xs)
cons_if test x panics = panics

-- The `unwrap` on an operation that enters no context panics.
abbrev pub push_scope :
    Partial (Option InstructionContext) → ℕ → ℕ → List Scope → Partial (List Scope)
push_scope (done (some c)) at id scopes =
    done (record { begin = some at; id = id; context = c } ∷ scopes)
push_scope _ at id scopes = panics

-- The scopes after an instruction, and the counter.
abbrev pub scopes_past : Operation → ℕ → ℕ → List Scope → Partial (List Scope)
scopes_past op at counter scopes =
    let left = if is_block_end op then tail_scopes scopes else scopes in
    if is_block_begin op
    then push_scope (entered_context_after_execution op) at (suc counter) left
    else done left

abbrev pub counter_past : Operation → ℕ → ℕ
counter_past op counter = if is_block_begin op then suc counter else counter

-- The loop: `scopes.last().unwrap()` panics on an empty stack.
unfoldable pub scan : InstructionContext → List Instruction → ℕ → ℕ → List Scope → Partial (List ℕ)
scan context [] at counter scopes = done []
scan context (i ∷ rest) at counter [] = panics
scan context (i ∷ rest) at counter (top ∷ below) =
    elim (scopes_past i.operation at counter (top ∷ below)) [
      | done scopes ↦
          cons_if (same_context top.context context) at
            (scan context rest (suc at) (counter_past i.operation counter) scopes)
      | panics ↦ panics
    ]

unfoldable pub at_least : ℕ → List ℕ → List ℕ
at_least from [] = []
at_least from (x ∷ xs) = if leb from x then x ∷ at_least from xs else at_least from xs

module _ (choose : List ℕ → Option ℕ) where
  unfoldable pub get_random_instruction_index_from :
      Program → InstructionContext → ℕ → Partial (Option ℕ)
  get_random_instruction_index_from program context from =
      elim (scan context program.instructions 0 0
        (record { begin = none; id = 0; context = global } ∷ [])) [
          | done contexts ↦ done (choose (at_least from (0 ∷ contexts)))
          | panics ↦ panics
        ]

  unfoldable pub get_random_instruction_index : Program → InstructionContext → Partial (Option ℕ)
  get_random_instruction_index program context = get_random_instruction_index_from program context 0
