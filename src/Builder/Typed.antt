-- ===== src/Builder/Typed.antt =====
-- The inputs of the instructions of a builder have their types in its variables, for good: builder.rs
-- of workloads/ir-workload/fuzzamoto-ir/src.
use bitcoin_antithesis.Prelude.{
  ℕ, ◌≡◌, refl, List, [], ◌∷◌, ◌++◌, some, All, All-append, All-mono, get_elem?, get_elem?-append,
}
use bitcoin_antithesis.Variable.{Variable}
use bitcoin_antithesis.Operation.Signature.{get_input_variables}
use bitcoin_antithesis.Instruction.{Instruction}
use bitcoin_antithesis.Builder.State.{ScopedVariable, Builder}
use bitcoin_antithesis.Builder.Checks.{HasInputs}
use bitcoin_antithesis.Builder.Advance.{made, advance}
use bitcoin_antithesis.Builder.Runs.{Runs, run}

-- A variable of the type stands at the index.
abbrev pub IsAt : List ScopedVariable → Variable → ℕ → Type 0
IsAt vars v idx = (x : ScopedVariable) × (get_elem? vars idx ≡ some x) × (x.var ≡ v)

abbrev pub HasTypes : List ScopedVariable → List ℕ → List Variable → Type 0
HasTypes vars [] [] = Unit
HasTypes vars (idx ∷ inputs) (v ∷ vs) = IsAt vars v idx × HasTypes vars inputs vs
HasTypes vars _ _ = ⊥

abbrev pub IsTypedIn : List ScopedVariable → Instruction → Type 0
IsTypedIn vars i = HasTypes vars i.inputs (get_input_variables i.operation)

pub HasTypes-append :
    (vars more : List ScopedVariable) (inputs : List ℕ) (vs : List Variable)
    → HasTypes vars inputs vs
    → HasTypes (vars ++ more) inputs vs
HasTypes-append vars more [] [] h = tt
HasTypes-append vars more (idx ∷ inputs) (v ∷ vs) ((x, found, same), h) =
    ((x, get_elem?-append vars more idx found, same), HasTypes-append vars more inputs vs h)
HasTypes-append vars more [] (_ ∷ _) h = absurd h
HasTypes-append vars more (_ ∷ _) [] h = absurd h

pub HasInputs-HasTypes :
    (b : Builder) (inputs : List ℕ) (vs : List Variable)
    → HasInputs b inputs vs
    → HasTypes b.variables inputs vs
HasInputs-HasTypes b [] [] h = tt
HasInputs-HasTypes b (idx ∷ inputs) (v ∷ vs) ((s, found, _), h) =
    ((_, found, refl), HasInputs-HasTypes b inputs vs h)
HasInputs-HasTypes b [] (_ ∷ _) h = absurd h
HasInputs-HasTypes b (_ ∷ _) [] h = absurd h

abbrev pub AllTyped : Builder → Type 0
AllTyped b = All (IsTypedIn b.variables) b.instructions

pub run-AllTyped :
    (b : Builder) (is : List Instruction) → Runs b is → AllTyped b → AllTyped (run is b)
run-AllTyped b [] runs typed = typed
run-AllTyped b (i ∷ is) (accepts, runs) typed = run-AllTyped (advance i b) is runs (
    All-append (IsTypedIn (b.variables ++ made i b)) b.instructions (i ∷ [])
      (All-mono b.instructions
        (λ j (h : IsTypedIn b.variables j).
          HasTypes-append b.variables (made i b) j.inputs (get_input_variables j.operation) h)
        typed)
      (
        HasTypes-append b.variables (made i b) i.inputs (get_input_variables i.operation)
            (HasInputs-HasTypes b i.inputs (get_input_variables i.operation) accepts.0.0),
        tt,
      ))

pub two_inputs :
    (vars : List ScopedVariable) (inputs : List ℕ) (v w : Variable)
    → HasTypes vars inputs (v ∷ w ∷ [])
    → (c : ℕ) × (x : ℕ) × (inputs ≡ c ∷ x ∷ []) × IsAt vars w x
two_inputs vars [] v w h = absurd h
two_inputs vars (_ ∷ []) v w h = absurd h.1
two_inputs vars (c ∷ x ∷ []) v w h = (c, x, refl, h.1.0)
two_inputs vars (_ ∷ _ ∷ _ ∷ _) v w h = absurd h.1.1
