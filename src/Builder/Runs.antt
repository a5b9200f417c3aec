-- ===== src/Builder/Runs.antt =====
-- Programs against a declarative validity: builder.rs and lib.rs of workloads/ir-workload/
-- fuzzamoto-ir/src.
pub mod Valid
use bitcoin_antithesis.Prelude.{
  ℕ, suc, ◌+◌, ◌<◌, ◌≤◌, ◌≡◌, refl, List, [], ◌∷◌, ◌++◌, ◌⊎◌, inl, inr, arith, length,
  length-append, if◌then◌else◌, All, All-append, get_elem?-lt,
}
use bitcoin_antithesis.Instruction.{Instruction}
use bitcoin_antithesis.Builder.State.{is_scope_active, IndexedVariable, ScopedVariable, Builder, ok}
use bitcoin_antithesis.Builder.Append.{indexed}
use bitcoin_antithesis.Builder.Invariant.{IsWellFormed, Ensures, gives}
use bitcoin_antithesis.Builder.Invariant.Preserved.{append-IsWellFormed}
use bitcoin_antithesis.Builder.Advance.{advance, made, Refused}
use bitcoin_antithesis.Builder.Advance.Cases.{Accepts, append_cases, append-Accepts}
use bitcoin_antithesis.Builder.Programs.{
  append_each, keep_in_scope, is_variable_in_scope, append_all,
}

-- Each instruction is accepted by the builder that those before it made.
abbrev pub Runs : Builder → List Instruction → Type 0
Runs b [] = Unit
Runs b (i ∷ rest) = Accepts b i × Runs (advance i b) rest

abbrev pub run : List Instruction → Builder → Builder
run [] b = b
run (i ∷ rest) b = run rest (advance i b)

Ensures-ok :
    {A : Type 0} {P : A → Builder → Type 0} {E : Builder → Type 0} {a : A} {b : Builder}
    → Ensures P E (ok a b)
    → P a b
Ensures-ok (gives p) = p

pub advance-IsWellFormed :
    (b : Builder) (i : Instruction) → IsWellFormed b → Accepts b i → IsWellFormed (advance i b)
advance-IsWellFormed b i v accepts =
    Ensures-ok (rw (append-Accepts b i v accepts) at (append-IsWellFormed b i v))

pub run-IsWellFormed :
    (b : Builder) (is : List Instruction) → IsWellFormed b → Runs b is → IsWellFormed (run is b)
run-IsWellFormed b [] v runs = v
run-IsWellFormed b (i ∷ rest) v (accepts, runs) =
    run-IsWellFormed (advance i b) rest (advance-IsWellFormed b i v accepts) runs

pub variables_grow :
    (b : Builder) (is : List Instruction) → length b.variables ≤ length (run is b).variables
variables_grow b [] = omega arith
variables_grow b (i ∷ rest) =
    omega (arith, variables_grow (advance i b) rest, length-append b.variables (made i b))

abbrev pub IsBelow : ℕ → IndexedVariable → Type 0
IsBelow n v = v.index < n

indexed-IsBelow :
    (n : ℕ) (vs : List ScopedVariable) (m : ℕ) → n + length vs ≤ m → All (IsBelow m) (indexed n vs)
indexed-IsBelow n [] m h = tt
indexed-IsBelow n (v ∷ vs) m h = (omega arith, indexed-IsBelow (suc n) vs m (omega arith))

made-fits :
    (b : Builder) (i : Instruction) (rest : List Instruction)
    → length b.variables + length (made i b) ≤ length (run rest (advance i b)).variables
made-fits b i rest =
    omega (arith, variables_grow (advance i b) rest, length-append b.variables (made i b))

-- The loop over instructions makes the run, with variables that exist at its end, or is refused.
pub append_each_cases :
    (b : Builder) (is : List Instruction)
    → IsWellFormed b
    → (Runs b is
        × ((vs : List IndexedVariable) × (append_each is b ≡ ok vs (run is b))
            × All (IsBelow (length (run is b).variables)) vs))
      ⊎ (¬ Runs b is × Refused (append_each is b))
unfolding append_each
append_each_cases b [] v = inl (tt, ([], refl, tt))
append_each_cases b (i ∷ rest) v = elim (append_cases b i v) [
  | inr (refused, (e, c, gone)) ↦ inr ((λ runs. refused runs.0), (e, c, rw gone))
  | inl (accepts, appends) ↦
      elim (append_each_cases (advance i b) rest (advance-IsWellFormed b i v accepts)) [
        | inr (refused, (e, c, gone)) ↦ inr ((λ runs. refused runs.1), (e, c, rw (appends, gone)))
        | inl (runs, (vs, loops, below)) ↦ inl (
          (accepts, runs),
          (
            indexed (length b.variables) (made i b) ++ vs,
            rw (appends, loops),
            All-append (IsBelow (length (run rest (advance i b)).variables))
                (indexed (length b.variables) (made i b)) vs
                (indexed-IsBelow (length b.variables) (made i b)
                  (length (run rest (advance i b)).variables) (made-fits b i rest))
                below,
          ),
        )
      ]
]

keep_in_scope-total :
    (b : Builder) (vs : List IndexedVariable)
    → All (IsBelow (length b.variables)) vs
    → (ws : List IndexedVariable) × (keep_in_scope vs b ≡ ok ws b)
unfolding keep_in_scope is_variable_in_scope
keep_in_scope-total b [] h = ([], refl)
keep_in_scope-total b (v ∷ vs) h =
    let (x, found) = get_elem?-lt b.variables v.index h.0 in
    let (ws, keeps) = keep_in_scope-total b vs h.1 in
    ((if is_scope_active b x.scope_id then v ∷ ws else ws), rw (found, is_variable_in_scope, keeps))

-- `append_all` does what its loop does: the filter at its end finds every variable.
pub append_all_cases :
    (b : Builder) (is : List Instruction)
    → IsWellFormed b
    → (Runs b is × ((vs : List IndexedVariable) × (append_all is b ≡ ok vs (run is b))))
      ⊎ (¬ Runs b is × Refused (append_all is b))
unfolding append_all
append_all_cases b is v = elim (append_each_cases b is v) [
  | inr (refused, (e, c, gone)) ↦ inr (refused, (e, c, rw gone))
  | inl (runs, (vs, loops, below)) ↦
      let (ws, keeps) = keep_in_scope-total (run is b) vs below in inl (runs, (ws, rw loops keeps))
]
