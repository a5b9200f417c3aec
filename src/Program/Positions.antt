-- ===== src/Program/Positions.antt =====
-- The scan for positions agrees with the builder's scopes.
use bitcoin_antithesis.Prelude.{
  ℕ, zero, suc, ◌+◌, ◌≤◌, ◌<◌, ◌≡◌, ◌≢◌, ◌==◌, false, refl, ap, sym, ◌∙◌, subst, true, List, [],
  ◌∷◌, inl, inr, some, arith, All, All-mono, Bool-cases, length, take, ==_iff, get_or,
}
use bitcoin_antithesis.Partial.{done}
use bitcoin_antithesis.Operation.{Operation}
use bitcoin_antithesis.Operation.Blocks.{is_block_begin}
use bitcoin_antithesis.Instruction.{
  Instruction, InstructionContext, global, build_tx, build_tx_inputs, build_tx_outputs,
  witness_stack, inventory, addr_list, addr_list_v2, block_transactions, build_filter,
  build_coinbase_tx, build_coinbase_tx_outputs, build_block_txn, entered_context_after_execution,
}
use bitcoin_antithesis.Instruction.Nop.{entered_context-EntersContext}
use bitcoin_antithesis.Builder.State.{Scope, Builder, contains}
use bitcoin_antithesis.Builder.Invariant.{Opened, IsWellFormed}
use bitcoin_antithesis.Builder.Invariant.Phases.{top_cases}
use bitcoin_antithesis.Builder.Advance.{advance, popped, pushed, counted, top_context}
use bitcoin_antithesis.Builder.Runs.{Runs, run, advance-IsWellFormed}
use bitcoin_antithesis.Builder.Simulation.{Zip}
use bitcoin_antithesis.Builder.Simulation.Step.{Zip-popped}
use bitcoin_antithesis.Program.{context_number, same_context, scopes_past, counter_past, scan}

abbrev listed : List InstructionContext
listed =
    global ∷ build_tx ∷ build_tx_inputs ∷ build_tx_outputs ∷ witness_stack ∷ inventory ∷ addr_list
    ∷ addr_list_v2 ∷ block_transactions ∷ build_filter ∷ build_coinbase_tx
    ∷ build_coinbase_tx_outputs ∷ build_block_txn ∷ []

listed-context_number : (c : InstructionContext) → get_or listed (context_number c) global ≡ c
unfolding context_number
listed-context_number global = refl
listed-context_number _ = refl

pub same_context_sound : (x y : InstructionContext) → same_context x y ≡ true → x ≡ y
same_context_sound x y h = cc (
  listed-context_number x,
  listed-context_number y,
  ap (λ n. get_or listed n global) ((==_iff (context_number x) (context_number y)).0 h),
)

-- Only in the global scope is the context global.
pub global_top :
    (code : List Instruction) (scopes : List Scope)
    → Opened code scopes
    → top_context scopes ≡ global
    → length scopes ≡ 1
global_top code [] o e = absurd o
global_top code (s ∷ []) o e = refl
global_top code (s ∷ t ∷ rest) ((at, i, _, _, begins, enters), _, _) e =
    let (c, enters', differs) = (entered_context-EntersContext i.operation).0 begins in
    let same : c ≡ global = cc in absurd (differs same)

abbrev SameContext : Scope → Scope → Type 0
SameContext s t = s.context ≡ t.context

-- `x` is a position of the instructions at which the builder's context is the given one.
abbrev pub IsPosition : InstructionContext → Builder → List Instruction → ℕ → ℕ → Type 0
IsPosition context b is at x =
    (n : ℕ) × (x ≡ at + n)
    × (n ≤ length is)
    × (top_context (run (take n is) b).active_scopes ≡ context)

scopes_past-done :
    (op : Operation) (at counter at' counter' : ℕ) (ss ts : List Scope)
    → Zip SameContext ss ts
    → (us : List Scope) × (scopes_past op at counter ss ≡ done us)
      × Zip SameContext us (
          pushed
            (entered_context_after_execution op)
            at'
            (counted (entered_context_after_execution op) counter')
            (popped op ts))
scopes_past-done op at counter at' counter' ss ts z =
    let z' = Zip-popped SameContext op ss ts z in
    elim (Bool-cases (is_block_begin op)) [
      | inr other ↦ (popped op ss, rw other, rw ((entered_context-EntersContext op).1 other) z')
      | inl begins ↦
          let (c, enters, _) = (entered_context-EntersContext op).0 begins in
          (
            record { begin = some at; id = suc counter; context = c } ∷ popped op ss,
            rw (begins, enters),
            rw enters (refl, z'),
          )
    ]

top-SameContext :
    (s : Scope) (rest ts : List Scope) → Zip SameContext (s ∷ rest) ts → s.context ≡ top_context ts
top-SameContext s rest [] z = absurd z
top-SameContext s rest (t ∷ ts) z = z.0

advance-IsPosition :
    (context : InstructionContext) (b : Builder) (i : Instruction) (rest : List Instruction)
    → (at x : ℕ) → IsPosition context (advance i b) rest (suc at) x
    → IsPosition context b (i ∷ rest) at x
advance-IsPosition context b i rest at x (n, is, fits, top) = (suc n, omega arith, omega arith, top)

-- Every place at which the builder's context is the given one is in the list.
abbrev pub ListsAll : InstructionContext → Builder → List Instruction → ℕ → List ℕ → Type 0
ListsAll context b is at xs =
    (n : ℕ)
    → n < length is
    → top_context (run (take n is) b).active_scopes ≡ context
    → contains xs (at + n) ≡ true

ListsAll-skip :
    (context : InstructionContext) (b : Builder) (i : Instruction) (rest : List Instruction)
    → (at : ℕ) (xs : List ℕ) → top_context b.active_scopes ≢ context
    → ListsAll context (advance i b) rest (suc at) xs
    → ListsAll context b (i ∷ rest) at xs
ListsAll-skip context b i rest at xs differ later zero lt same = absurd (differ same)
ListsAll-skip context b i rest at xs differ later (suc n) lt same =
    let shift : suc at + n ≡ at + suc n = omega arith in rw (← shift) (later n (omega arith) same)

ListsAll-cons :
    (context : InstructionContext) (b : Builder) (i : Instruction) (rest : List Instruction)
    → (at : ℕ) (xs : List ℕ) → ListsAll context (advance i b) rest (suc at) xs
    → ListsAll context b (i ∷ rest) at (at ∷ xs)
ListsAll-cons context b i rest at xs later zero lt same =
    let here : (at + 0 == at) ≡ true = ground arith in rw here refl
ListsAll-cons context b i rest at xs later (suc n) lt same =
    let shift : suc at + n ≡ at + suc n = omega arith in
    let there : contains xs (at + suc n) ≡ true = rw (← shift) (later n (omega arith) same) in
    let other : (at + suc n == at) ≡ false = ground arith in rw other there

same_context_refl : (x : InstructionContext) → same_context x x ≡ true
same_context_refl x = ground arith

-- Along a run of the builder the scan does not panic. It lists the places at which the builder's
-- context is the given one: only such, and each.
pub scan-IsPosition :
    (context : InstructionContext) (b : Builder) (is : List Instruction)
    → (at counter : ℕ) (scopes : List Scope) → IsWellFormed b
    → Runs b is
    → Zip SameContext scopes b.active_scopes
    → (xs : List ℕ) × (scan context is at counter scopes ≡ done xs)
      × All (IsPosition context b is at) xs
      × ListsAll context b is at xs
unfolding scan
scan-IsPosition context b [] at counter scopes v runs z =
    ([], refl, tt, (λ n lt same. absurd (omega arith)))
scan-IsPosition context b (i ∷ rest) at counter [] v runs z =
    let (s, below, stack) = top_cases b.instructions b.active_scopes v.opened in
    absurd (subst (Zip SameContext []) stack z)
scan-IsPosition context b (i ∷ rest) at counter (top ∷ below) v (accepts, runs) z =
    let (us, goes, z') =
      scopes_past-done i.operation at counter (length b.instructions) b.scope_counter (top ∷ below)
        b.active_scopes z in
    let (xs, scans, found, all) =
      scan-IsPosition context (advance i b) rest (suc at) (counter_past i.operation counter) us
        (advance-IsWellFormed b i v accepts) runs z' in
    let found' = All-mono xs (advance-IsPosition context b i rest at) found in
    elim (Bool-cases (same_context top.context context)) [
      | inr other ↦
          let differ : top_context b.active_scopes ≢ context = λ same.
            let agree : top.context ≡ context =
              top-SameContext top below b.active_scopes z ∙ same in
            let equal : same_context top.context context ≡ true =
              rw agree (same_context_refl context) in
            cc in
          (
            xs,
            rw (goes, scan, scans, other),
            found',
            ListsAll-skip context b i rest at xs differ all,
          )
      | inl same ↦ (
        at ∷ xs,
        rw (goes, scan, scans, same),
        (
          (
            0,
            omega arith,
            omega arith,
            sym (top-SameContext top below b.active_scopes z)
                ∙ same_context_sound top.context context same,
          ),
          found',
        ),
        ListsAll-cons context b i rest at xs all,
      )
    ]
