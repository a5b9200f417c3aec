-- ===== src/Mutator/Input/Chosen.antt =====
-- The choice of an instruction, an input and a variable: workloads/ir-workload/fuzzamoto-ir/src/
-- mutators/input.rs.
use bitcoin_antithesis.Prelude.{
  ℕ, ◌≡◌, refl, ◌⊎◌, inl, inr, true, List, [], ◌∷◌, Option, some, ◌==◌, arith, All-get, Bool-cases,
  get_elem?,
}
use bitcoin_antithesis.Partial.{done}
use bitcoin_antithesis.Operation.Signature.{get_input_variables}
use bitcoin_antithesis.Instruction.{Instruction, is_input_mutable}
use bitcoin_antithesis.Builder.State.{Program, IndexedVariable, new_builder}
use bitcoin_antithesis.Builder.Checks.{InScope}
use bitcoin_antithesis.Builder.Programs.{from_program}
use bitcoin_antithesis.Builder.Runs.Valid.{IsValid}
use bitcoin_antithesis.Builder.Queries.{available, get_variable, get_random_variable}
use bitcoin_antithesis.Builder.Queries.Found.{available-InScope, get_variable_cases, available-some}
use bitcoin_antithesis.Mutator.{Mutated, changed, failed, no_mutations_available}
use bitcoin_antithesis.Mutator.Choice.{IsChoice}
use bitcoin_antithesis.Mutator.Input.{
  enumerate, set_input, program_upto, exchange, mutate_instruction, mutate_input,
}
use bitcoin_antithesis.Mutator.Input.Candidates.{
  IsPlaced, IsCandidate, enumerate-IsPlaced, is_input_mutable-inputs, input_candidates-total,
}
use bitcoin_antithesis.Mutator.Input.Exchanged.{
  IsExchanged, HasInputs-get, before, parts, upto, set_input-IsValid,
}

enumerate-some {ℓ} : {A : Type ℓ} (n : ℕ) (xs : List A) → enumerate n xs ≡ [] → xs ≡ []
enumerate-some n [] e = refl
enumerate-some n (x ∷ xs) e = cc

-- What the mutation of a valid program leads to.
abbrev pub Mutates : Program → Mutated → Type 0
Mutates p m =
    (m ≡ failed no_mutations_available)
    ⊎ ((r : Program) × (m ≡ changed r) × IsExchanged p r × IsValid r)

module _ (choose_instruction : List (ℕ × Instruction) → Option (ℕ × Instruction))
    (choose_input : List (ℕ × ℕ) → Option (ℕ × ℕ))
    (choose_variable : List IndexedVariable → Option IndexedVariable)
    (choice : IsChoice choose_instruction) (choice' : IsChoice choose_input)
    (choice'' : IsChoice choose_variable) (p : Program) (valid : IsValid p) where
  exchange-Mutates :
      (at : ℕ) (i : Instruction) (found : get_elem? p.instructions at ≡ some i) (k idx : ℕ)
      → get_elem? i.inputs k ≡ some idx
      → Mutates p (
          exchange choose_instruction choose_input choose_variable p at i k
            (get_variable (before p valid at i found) idx)
            (before p valid at i found))
  unfolding exchange get_random_variable
  exchange-Mutates at i found k idx input =
      let b = before p valid at i found in
      let (v, old) =
        HasInputs-get b i.inputs (get_input_variables i.operation) k idx
          (parts p valid at i found).1.0.0.0 input in
      elim (get_variable_cases b idx) [
        | inr (_, others) ↦ absurd (others v old)
        | inl (w, gets, here) ↦ elim (choice''.chosen (available b w)) [
          | inl (empty, _) ↦ absurd (available-some b w idx here empty)
          | inr (n, new, chooses, there) ↦
              let sees =
                All-get (λ x. InScope b x.index w) (available b w) n (available-InScope b w)
                  there in
              elim (Bool-cases (new.index == idx)) [
                | inl same ↦ inl (rw (gets, exchange, chooses, same))
                | inr other ↦ inr (
                  set_input p at i k new.index,
                  rw (gets, exchange, chooses, other),
                  (at, i, k, idx, new.index, found, input, (λ same. ground arith), refl),
                  set_input-IsValid p valid at i found k idx new.index w input here sees,
                )
              ]
        ]
      ]

  mutate_instruction-Mutates :
      (at : ℕ) (i : Instruction)
      → get_elem? p.instructions at ≡ some i
      → is_input_mutable i ≡ done true
      → Mutates p (
          mutate_instruction choose_instruction choose_input choose_variable p at i
            (from_program (program_upto p at)))
  unfolding mutate_instruction
  mutate_instruction-Mutates at i found may = elim (choice'.chosen (enumerate 0 i.inputs)) [
    | inl (empty, _) ↦ absurd (is_input_mutable-inputs i may (enumerate-some 0 i.inputs empty))
    | inr (n, c, chooses, there) ↦
        let (k, at', input) =
          All-get (IsPlaced 0 i.inputs) (enumerate 0 i.inputs) n (enumerate-IsPlaced 0 i.inputs)
            there in
        let same : c.0 ≡ k = omega arith in
        rw (upto p valid at i found, mutate_instruction, chooses)
          (exchange-Mutates at i found c.0 c.1 (rw same input))
  ]

  -- Whatever is chosen, the mutation of a valid program does not panic: it finds nothing to change,
  -- or it exchanges one input of one instruction for another variable, and the program stays valid.
  pub mutate_input-Mutates :
      Mutates p (mutate_input choose_instruction choose_input choose_variable p)
  unfolding mutate_input
  mutate_input-Mutates =
      let (cs, lists, placed) =
        input_candidates-total (new_builder p.context) 0 p.instructions valid.0 in
      elim (choice.chosen cs) [
        | inl (_, chooses) ↦ inl (rw (mutate_input, lists, chooses))
        | inr (n, c, chooses, there) ↦
            let ((k, at, found), may) = All-get (IsCandidate 0 p.instructions) cs n placed there in
            let same : c.0 ≡ k = omega arith in
            rw (mutate_input, lists, chooses)
              (mutate_instruction-Mutates c.0 c.1 (rw same found) may)
      ]
