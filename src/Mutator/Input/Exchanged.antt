-- ===== src/Mutator/Input/Exchanged.antt =====
-- The exchange of one input keeps a program valid: workloads/ir-workload/fuzzamoto-ir/src/mutators/
-- input.rs.
use bitcoin_antithesis.Prelude.{
  ℕ, zero, suc, ◌≡◌, ◌≢◌, ap, sym, ◌∙◌, subst, inl, inr, List, [], ◌∷◌, some, length, get_elem?,
  take, drop, set, take-get-drop, take-set-drop,
}
use bitcoin_antithesis.Variable.{Variable}
use bitcoin_antithesis.Operation.Signature.{get_input_variables}
use bitcoin_antithesis.Instruction.{Instruction}
use bitcoin_antithesis.Builder.State.{Program, Builder, ok, new_builder}
use bitcoin_antithesis.Builder.Append.{scoped}
use bitcoin_antithesis.Builder.Checks.{InScope, HasInputs}
use bitcoin_antithesis.Builder.Invariant.{IsWellFormed}
use bitcoin_antithesis.Builder.Invariant.Preserved.{new_builder-IsWellFormed}
use bitcoin_antithesis.Builder.Advance.Cases.{Accepts}
use bitcoin_antithesis.Builder.Programs.{from_program}
use bitcoin_antithesis.Builder.Runs.{Runs, run, run-IsWellFormed}
use bitcoin_antithesis.Builder.Runs.Valid.{IsValid, from_program_cases}
use bitcoin_antithesis.Builder.Simulation.Step.{with_inputs}
use bitcoin_antithesis.Builder.Simulation.Exchange.{run-exchanged}
use bitcoin_antithesis.Builder.Simulation.Programs.{Runs-append, Runs-split, run-append}
use bitcoin_antithesis.Mutator.Input.{set_input, program_upto}

InScope-unique :
    (b : Builder) (idx : ℕ) (v w : Variable) → InScope b idx v → InScope b idx w → v ≡ w
InScope-unique b idx v w (s, found, _) (t, found', _) =
    let same : scoped s v ≡ scoped t w = cc in ap (λ x. x.var) same

pub HasInputs-get :
    (b : Builder) (inputs : List ℕ) (vs : List Variable) (k idx : ℕ)
    → HasInputs b inputs vs
    → get_elem? inputs k ≡ some idx
    → (v : Variable) × InScope b idx v
HasInputs-get b [] vs k idx h found = cc
HasInputs-get b (_ ∷ _) [] k idx h found = absurd h
HasInputs-get b (x ∷ inputs) (v ∷ vs) zero idx h found =
    let same : x ≡ idx = cc in (v, subst (λ y. InScope b y v) same h.0)
HasInputs-get b (x ∷ inputs) (v ∷ vs) (suc k) idx h found =
    HasInputs-get b inputs vs k idx h.1 found

-- Another variable of the type of the input can take its place.
HasInputs-set :
    (b : Builder) (inputs : List ℕ) (vs : List Variable) (k idx new : ℕ) (v : Variable)
    → HasInputs b inputs vs
    → get_elem? inputs k ≡ some idx
    → InScope b idx v
    → InScope b new v
    → HasInputs b (set inputs k new) vs
HasInputs-set b [] vs k idx new v h found old there = cc
HasInputs-set b (_ ∷ _) [] k idx new v h found old there = absurd h
HasInputs-set b (x ∷ inputs) (w ∷ vs) zero idx new v h found old there =
    let same : x ≡ idx = cc in
    let typed : v ≡ w = InScope-unique b idx v w old (subst (λ y. InScope b y w) same h.0) in
    (subst (InScope b new) typed there, h.1)
HasInputs-set b (x ∷ inputs) (w ∷ vs) (suc k) idx new v h found old there =
    (h.0, HasInputs-set b inputs vs k idx new v h.1 found old there)

-- One input of one instruction is exchanged for another variable of its type.
abbrev pub IsExchanged : Program → Program → Type 0
IsExchanged p r =
    (at : ℕ) × (i : Instruction) × (k : ℕ) × (old : ℕ) × (new : ℕ) × (get_elem? p.instructions at
      ≡ some i)
    × (get_elem? i.inputs k ≡ some old)
    × (new ≢ old)
    × (r ≡ set_input p at i k new)

module _ (p : Program) (valid : IsValid p) (at : ℕ) (i : Instruction)
    (found : get_elem? p.instructions at ≡ some i) where
  abbrev start : Builder
  start = new_builder p.context

  abbrev pub before : Builder
  before = run (take at p.instructions) start

  abbrev rest : List Instruction
  rest = drop (suc at) p.instructions

  pub parts : Runs start (take at p.instructions) × Runs before (i ∷ rest)
  parts =
      Runs-split start (take at p.instructions) (i ∷ rest)
        (rw (take-get-drop p.instructions at found) valid.0)

  pub before-IsWellFormed : IsWellFormed before
  before-IsWellFormed =
      run-IsWellFormed start (take at p.instructions) (new_builder-IsWellFormed p.context) parts.0

  pub upto : from_program (program_upto p at) ≡ ok tt before
  upto = elim (from_program_cases (program_upto p at)) [
    | inl (_, builds) ↦ builds
    | inr (refused, _) ↦ absurd (refused parts.0)
  ]

  pub set_input-IsValid :
      (k idx new : ℕ) (v : Variable)
      → get_elem? i.inputs k ≡ some idx
      → InScope before idx v
      → InScope before new v
      → IsValid (set_input p at i k new)
  set_input-IsValid k idx new v input old there =
      let ((inputs, named), closes) = parts.1.0 in
      let accepts' : Accepts before (with_inputs (set i.inputs k new) i) = (
        (
          HasInputs-set before i.inputs (get_input_variables i.operation) k idx new v inputs input
              old there,
          named,
        ),
        closes,
      ) in
      let (runs, depth) =
        run-exchanged before i (set i.inputs k new) before-IsWellFormed parts.1.0 accepts' rest
          parts.1.1 in
      let j = with_inputs (set i.inputs k new) i in
      let code = take-set-drop p.instructions at j found in
      (
        rw code (Runs-append start (take at p.instructions) (j ∷ rest) parts.0 (accepts', runs)),
        rw (code, run-append start (take at p.instructions) (j ∷ rest))
            (depth
              ∙ ap (λ x. length x.active_scopes)
                  (sym (run-append start (take at p.instructions) (i ∷ rest)))
              ∙ ap (λ is. length (run is start).active_scopes)
                  (take-get-drop p.instructions at found)
              ∙ valid.1),
      )
