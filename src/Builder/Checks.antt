-- ===== src/Builder/Checks.antt =====
-- The checks of `append` against a declarative typing of instructions: builder.rs and operation.rs
-- of workloads/ir-workload/fuzzamoto-ir/src.
use text.Mathlib.Text.{◌==◌ as str_eq}
use bitcoin_antithesis.Prelude.{
  ℕ, ◌<◌, ◌≡◌, subst, refl, ap, ◌⊎◌, inl, inr, true, List, [], ◌∷◌, some, ◌||◌, length, get_elem?,
  arith, leb, Bool-cases, Option-cases, ◌==◌, suc,
}
use bitcoin_antithesis.Variable.{Variable, var_eq, var_eq_sound, var_eq_refl}
use bitcoin_antithesis.Operation.{Operation, load_node, load_connection, load_connection_type}
use bitcoin_antithesis.Operation.Signature.{get_input_variables, num_inputs}
use bitcoin_antithesis.Instruction.{Instruction}
use bitcoin_antithesis.Builder.State.{
  ProgramValidationError, Builder, Outcome, ok, err, and_then, is_scope_active,
  variable_not_defined, invalid_variable_type, node_not_found, connection_not_found,
  invalid_connection_type, invalid_number_of_inputs,
}
use bitcoin_antithesis.Builder.Append.{
  scoped, input_type, input_types, check_each, check_input_types, check_parameter,
  check_instruction,
}

-- Variable `idx` exists, has type `v`, and its scope is open.
abbrev pub InScope : Builder → ℕ → Variable → Type 0
InScope b idx v =
    (s : ℕ) × (get_elem? b.variables idx ≡ some (scoped s v)) × (is_scope_active b s ≡ true)

abbrev pub HasInputs : Builder → List ℕ → List Variable → Type 0
HasInputs b [] [] = Unit
HasInputs b (idx ∷ inputs) (v ∷ vs) = InScope b idx v × HasInputs b inputs vs
HasInputs b _ _ = ⊥

abbrev pub NamesContext : Builder → Operation → Type 0
NamesContext b (load_node idx) = idx < b.context.num_nodes
NamesContext b (load_connection idx) = idx < b.context.num_connections
NamesContext b (load_connection_type t) = (str_eq t "outbound" || str_eq t "inbound") ≡ true
NamesContext b _ = Unit

abbrev pub IsTyped : Builder → Instruction → Type 0
IsTyped b i = HasInputs b i.inputs (get_input_variables i.operation) × NamesContext b i.operation

abbrev pub Fails : {A : Type 0} → Outcome A → Builder → Type 0
Fails o b = (e : ProgramValidationError) × (o ≡ err e b)

input_type_cases :
    (b : Builder) (idx : ℕ)
    → ((v : Variable) × (input_type idx b ≡ ok v b) × InScope b idx v) ⊎ Fails (input_type idx b) b
unfolding input_type
input_type_cases b idx = elim (Option-cases (get_elem? b.variables idx)) [
  | inl missing ↦ inr (variable_not_defined idx, rw (missing, input_type))
  | inr (v, found) ↦ elim (Bool-cases (is_scope_active b v.scope_id)) [
    | inl active ↦ inl (v.var, rw (found, input_type, active), (v.scope_id, found, active))
    | inr closed ↦ inr (variable_not_defined idx, rw (found, input_type, closed))
  ]
]

input_types_cases :
    (b : Builder) (inputs : List ℕ)
    → ((vs : List Variable) × (input_types inputs b ≡ ok vs b) × HasInputs b inputs vs)
      ⊎ Fails (input_types inputs b) b
unfolding input_types
input_types_cases b [] = inl ([], refl, tt)
input_types_cases b (idx ∷ inputs) = elim (input_type_cases b idx) [
  | inr (e, fails) ↦ inr (e, rw fails)
  | inl (v, gives, here) ↦ elim (input_types_cases b inputs) [
    | inr (e, fails) ↦ inr (e, rw (gives, fails))
    | inl (vs, rest, there) ↦ inl (v ∷ vs, rw (gives, rest), (here, there))
  ]
]

pub length-HasInputs :
    (b : Builder) (inputs : List ℕ) (vs : List Variable)
    → HasInputs b inputs vs
    → length inputs ≡ length vs
length-HasInputs b [] [] h = refl
length-HasInputs b (_ ∷ inputs) (_ ∷ vs) h = ap suc (length-HasInputs b inputs vs h.1)
length-HasInputs b [] (_ ∷ _) h = absurd h
length-HasInputs b (_ ∷ _) [] h = absurd h

check_each_cases :
    (b : Builder) (got expected : List Variable)
    → length got ≡ length expected
    → ((check_each got expected b ≡ ok tt b) × (got ≡ expected))
      ⊎ Fails (check_each got expected b) b
unfolding check_each
check_each_cases b [] [] h = inl (refl, refl)
check_each_cases b [] (_ ∷ _) h = absurd (omega arith)
check_each_cases b (_ ∷ _) [] h = absurd (omega arith)
check_each_cases b (v ∷ vs) (w ∷ ws) h = elim (Bool-cases (var_eq v w)) [
  | inr differ ↦ inr (invalid_variable_type (some v) w, rw differ)
  | inl same ↦ elim (check_each_cases b vs ws (omega arith)) [
    | inr (e, fails) ↦ inr (e, rw (same, fails))
    | inl (passes, rest) ↦ inl (rw (same, passes), cc (var_eq_sound v w same))
  ]
]

check_each_refl : (b : Builder) (vs : List Variable) → check_each vs vs b ≡ ok tt b
unfolding check_each
check_each_refl b [] = refl
check_each_refl b (v ∷ vs) = rw (var_eq_refl v) (check_each_refl b vs)

check_parameter_cases :
    (b : Builder) (op : Operation)
    → ((check_parameter op b ≡ ok tt b) × NamesContext b op) ⊎ Fails (check_parameter op b) b
unfolding check_parameter
check_parameter_cases b (load_node idx) = elim (Bool-cases (leb b.context.num_nodes idx)) [
  | inl past ↦ inr (node_not_found idx, rw past)
  | inr fits ↦ inl (rw fits, ground arith)
]
check_parameter_cases b (load_connection idx) =
    elim (Bool-cases (leb b.context.num_connections idx)) [
      | inl past ↦ inr (connection_not_found idx, rw past)
      | inr fits ↦ inl (rw fits, ground arith)
    ]
check_parameter_cases b (load_connection_type t) =
    elim (Bool-cases (str_eq t "outbound" || str_eq t "inbound")) [
      | inl known ↦ inl (rw known, known)
      | inr other ↦ inr (invalid_connection_type t, rw other)
    ]
check_parameter_cases b _ = inl (refl, tt)

check_parameter-passes :
    (b : Builder) (op : Operation) → NamesContext b op → check_parameter op b ≡ ok tt b
unfolding check_parameter
check_parameter-passes b (load_node idx) h = ground arith
check_parameter-passes b (load_connection idx) h = ground arith
check_parameter-passes b (load_connection_type t) h = rw h
check_parameter-passes b _ h = refl

check_input_types-each :
    (b : Builder) (op : Operation) (vs : List Variable)
    → length vs ≡ num_inputs op
    → check_input_types op vs b ≡ check_each vs (get_input_variables op) b
unfolding check_input_types num_inputs
check_input_types-each b op vs h = ground arith

input_count :
    (b : Builder) (i : Instruction) (vs : List Variable)
    → (num_inputs i.operation == length i.inputs) ≡ true
    → HasInputs b i.inputs vs
    → length vs ≡ num_inputs i.operation
input_count b i vs same typed = ground (arith, length-HasInputs b i.inputs vs typed)

input_number :
    (b : Builder) (i : Instruction)
    → HasInputs b i.inputs (get_input_variables i.operation)
    → (num_inputs i.operation == length i.inputs) ≡ true
unfolding num_inputs
input_number b i typed =
    ground (arith, length-HasInputs b i.inputs (get_input_variables i.operation) typed)

checks_after_inputs :
    (b : Builder) (i : Instruction) (vs : List Variable)
    → (num_inputs i.operation == length i.inputs) ≡ true
    → length vs ≡ num_inputs i.operation
    → input_types i.inputs b ≡ ok vs b
    → check_instruction i b
      ≡ and_then
          (check_each vs (get_input_variables i.operation) b)
          λ _. check_parameter i.operation
unfolding check_instruction
checks_after_inputs b i vs same count gives =
    rw (same, gives, check_input_types-each b i.operation vs count)

checked_cases :
    (b : Builder) (i : Instruction)
    → (num_inputs i.operation == length i.inputs) ≡ true
    → (vs : List Variable) → input_types i.inputs b ≡ ok vs b
    → HasInputs b i.inputs vs
    → ((check_instruction i b ≡ ok tt b) × IsTyped b i) ⊎ Fails (check_instruction i b) b
unfolding num_inputs
checked_cases b i same vs gives typed =
    elim (check_each_cases b vs (get_input_variables i.operation) (input_count b i vs same typed)) [
      | inr (e, fails) ↦
          inr (e, rw (checks_after_inputs b i vs same (input_count b i vs same typed) gives, fails))
      | inl (passes, agree) ↦ elim (check_parameter_cases b i.operation) [
        | inr (e, fails) ↦ inr (
          e,
          rw (checks_after_inputs b i vs same (input_count b i vs same typed) gives, passes) fails,
        )
        | inl (names, named) ↦ inl (
          rw (checks_after_inputs b i vs same (input_count b i vs same typed) gives, passes) names,
          (subst (HasInputs b i.inputs) agree typed, named),
        )
      ]
    ]

-- The checks pass and the instruction is well typed, or they report an error.
pub check_instruction_cases :
    (b : Builder) (i : Instruction)
    → ((check_instruction i b ≡ ok tt b) × IsTyped b i) ⊎ Fails (check_instruction i b) b
unfolding check_instruction
check_instruction_cases b i = elim (Bool-cases (num_inputs i.operation == length i.inputs)) [
  | inr differ ↦
      inr (invalid_number_of_inputs (length i.inputs) (num_inputs i.operation), rw differ)
  | inl same ↦ elim (input_types_cases b i.inputs) [
    | inr (e, fails) ↦ inr (e, rw (same, fails))
    | inl (vs, gives, typed) ↦ checked_cases b i same vs gives typed
  ]
]

input_types-HasInputs :
    (b : Builder) (inputs : List ℕ) (vs : List Variable)
    → HasInputs b inputs vs
    → input_types inputs b ≡ ok vs b
unfolding input_types input_type
input_types-HasInputs b [] [] h = refl
input_types-HasInputs b (idx ∷ inputs) (v ∷ vs) ((s, found, active), rest) =
    rw (found, input_type, active, input_types-HasInputs b inputs vs rest)
input_types-HasInputs b [] (_ ∷ _) h = absurd h
input_types-HasInputs b (_ ∷ _) [] h = absurd h

-- A well typed instruction passes the checks.
pub check_instruction-IsTyped :
    (b : Builder) (i : Instruction) → IsTyped b i → check_instruction i b ≡ ok tt b
unfolding num_inputs
check_instruction-IsTyped b i (inputs, named) =
    rw
      (
        checks_after_inputs b i (get_input_variables i.operation) (input_number b i inputs) refl
            (input_types-HasInputs b i.inputs (get_input_variables i.operation) inputs),
        check_each_refl b (get_input_variables i.operation),
      )
      (check_parameter-passes b i.operation named)

-- The checks of an instruction change nothing and do not panic: they pass exactly for a well typed
-- instruction, and report an error for any other.
pub check_instruction_decides :
    (b : Builder) (i : Instruction)
    → ((check_instruction i b ≡ ok tt b) × IsTyped b i)
      ⊎ (Fails (check_instruction i b) b × ¬ IsTyped b i)
check_instruction_decides b i = elim (check_instruction_cases b i) [
  | inl passes ↦ inl passes
  | inr (e, fails) ↦ inr ((e, fails), (λ typed. cc (check_instruction-IsTyped b i typed)))
]
