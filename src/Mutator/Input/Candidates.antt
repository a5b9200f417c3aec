-- ===== src/Mutator/Input/Candidates.antt =====
-- The instructions with an input that may change: workloads/ir-workload/fuzzamoto-ir/src/mutators/
-- input.rs.
use bitcoin_antithesis.Prelude.{
  ℕ, suc, ◌+◌, ◌≡◌, ◌≢◌, refl, ap, ◌∙◌, inl, inr, Bool, true, false, List, [], ◌∷◌, some, ◌==◌, ltb,
  arith, All, All-mono, Bool-cases, length, get_elem?, if◌then◌else◌,
}
use bitcoin_antithesis.Partial.{done}
use bitcoin_antithesis.Operation.Signature.{get_input_variables, num_inputs}
use bitcoin_antithesis.Instruction.{Instruction, is_input_mutable, fixed_inputs}
use bitcoin_antithesis.Builder.State.{Builder}
use bitcoin_antithesis.Builder.Checks.{length-HasInputs}
use bitcoin_antithesis.Builder.Advance.{advance}
use bitcoin_antithesis.Builder.Advance.Cases.{Accepts}
use bitcoin_antithesis.Builder.Runs.{Runs}
use bitcoin_antithesis.Mutator.Input.{enumerate, input_candidates}

-- The pair of a place and what stands there, in a list whose places start at `n`.
abbrev pub IsPlaced {ℓ} : {A : Type ℓ} → ℕ → List A → ℕ × A → Type ℓ
IsPlaced n xs c = (k : ℕ) × (c.0 ≡ n + k) × (get_elem? xs k ≡ some c.1)

IsPlaced-later {ℓ} :
    {A : Type ℓ} (n : ℕ) (x : A) (xs : List A) (c : ℕ × A)
    → IsPlaced (suc n) xs c
    → IsPlaced n (x ∷ xs) c
IsPlaced-later n x xs c (k, at, found) = (suc k, omega arith, found)

pub enumerate-IsPlaced {ℓ} :
    {A : Type ℓ} (n : ℕ) (xs : List A) → All (IsPlaced n xs) (enumerate n xs)
enumerate-IsPlaced n [] = tt
enumerate-IsPlaced n (x ∷ xs) = (
  (0, omega arith, refl),
  All-mono (enumerate (suc n) xs) (IsPlaced-later n x xs) (enumerate-IsPlaced (suc n) xs),
)

abbrev pub IsCandidate : ℕ → List Instruction → ℕ × Instruction → Type 0
IsCandidate n is c = IsPlaced n is c × (is_input_mutable c.1 ≡ done true)

is_input_mutable-done :
    (b : Builder) (i : Instruction) → Accepts b i → (test : Bool) × (is_input_mutable i ≡ done test)
unfolding is_input_mutable num_inputs
is_input_mutable-done b i accepts =
    let same : (length i.inputs == num_inputs i.operation) ≡ true =
      ground (arith, length-HasInputs b i.inputs (get_input_variables i.operation) accepts.0.0) in
    ((if fixed_inputs i.operation then false else ltb 0 (length i.inputs)), rw same)

pub is_input_mutable-inputs : (i : Instruction) → is_input_mutable i ≡ done true → i.inputs ≢ []
unfolding is_input_mutable num_inputs
is_input_mutable-inputs i h empty = ground (arith, ap length empty)

-- The candidates of instructions that are accepted in turn.
pub input_candidates-total :
    (b : Builder) (n : ℕ) (is : List Instruction)
    → Runs b is
    → (cs : List (ℕ × Instruction)) × (input_candidates n is ≡ done cs) × All (IsCandidate n is) cs
unfolding input_candidates
input_candidates-total b n [] runs = ([], refl, tt)
input_candidates-total b n (i ∷ is) (accepts, runs) =
    let (cs, rest, placed) = input_candidates-total (advance i b) (suc n) is runs in
    let (test, answers) = is_input_mutable-done b i accepts in
    let later =
      All-mono cs (λ c (p : IsCandidate (suc n) is c). (IsPlaced-later n i is c p.0, p.1)) placed in
    elim (Bool-cases test) [
      | inr dropped ↦ (cs, rw (answers, rest, dropped), later)
      | inl kept ↦ (
        (n, i) ∷ cs,
        rw (answers, rest, kept),
        (((0, omega arith, refl), answers ∙ ap done kept), later),
      )
    ]
