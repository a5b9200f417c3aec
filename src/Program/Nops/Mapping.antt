-- ===== src/Program/Nops/Mapping.antt =====
-- The mapping of variables: workloads/ir-workload/fuzzamoto-ir/src/lib.rs.
use bitcoin_antithesis.Prelude.{
  ℕ, zero, suc, ◌+◌, ◌<◌, ◌≤◌, ◌≡◌, refl, ap, ◌∙◌, true, false, List, [], ◌∷◌, ◌++◌, map, replicate,
  some, arith, All, All-append, length, get_elem?, get_or, if◌then◌else◌, lt-get_elem?,
}
use bitcoin_antithesis.Partial.{done}
use bitcoin_antithesis.Variable.{Variable}
use bitcoin_antithesis.Operation.{Operation, nop}
use bitcoin_antithesis.Operation.Blocks.{is_block_begin, is_block_end}
use bitcoin_antithesis.Operation.Signature.{get_output_variables, get_inner_output_variables}
use bitcoin_antithesis.Instruction.{Instruction}
use bitcoin_antithesis.Builder.State.{Builder}
use bitcoin_antithesis.Builder.Append.{scope_for}
use bitcoin_antithesis.Builder.Checks.{HasInputs}
use bitcoin_antithesis.Program.Nops.{
  is_nop_variable, is_nop, map_outputs, count_outputs, map_inputs, outputs_of,
}

-- The variable to which the mapping sends another.
abbrev pub look : List ℕ → ℕ → ℕ
look m idx = get_or m idx 0

pub look-append : (m xs : List ℕ) (idx : ℕ) → idx < length m → look (m ++ xs) idx ≡ look m idx
look-append [] xs idx h = absurd (omega arith)
look-append (y ∷ m) xs zero h = refl
look-append (y ∷ m) xs (suc idx) h = look-append m xs idx (omega arith)

pub look_right : (m xs : List ℕ) (k : ℕ) → look (m ++ xs) (length m + k) ≡ look xs k
look_right [] xs k = let same : 0 + k ≡ k = omega arith in rw same refl
look_right (y ∷ m) xs k =
    let same : suc (length m) + k ≡ suc (length m + k) = omega arith in rw same (look_right m xs k)

pub length-map_outputs : (vs : List Variable) (n : ℕ) → length (map_outputs vs n) ≡ length vs
unfolding map_outputs
length-map_outputs [] n = refl
length-map_outputs (v ∷ vs) n =
    ap suc (length-map_outputs vs (if is_nop_variable v then n else suc n))

abbrev pub IsMade : Variable → Type 0
IsMade v = is_nop_variable v ≡ false

-- Variables that are no nops get the next numbers.
pub look-map_outputs :
    (vs : List Variable) (n k : ℕ)
    → All IsMade vs
    → k < length vs
    → look (map_outputs vs n) k ≡ n + k
unfolding map_outputs
look-map_outputs [] n k made h = absurd (omega arith)
look-map_outputs (v ∷ vs) n zero made h = omega arith
look-map_outputs (v ∷ vs) n (suc k) made h =
    rw made.0 (look-map_outputs vs (suc n) k made.1 (omega arith) ∙ omega arith)

pub count_outputs_made :
    (vs : List Variable) (n : ℕ) → All IsMade vs → count_outputs vs n ≡ n + length vs
unfolding count_outputs
count_outputs_made [] n made = omega arith
count_outputs_made (v ∷ vs) n made = rw made.0 (count_outputs_made vs (suc n) made.1 ∙ omega arith)

abbrev pub IsNopVariable : Variable → Type 0
IsNopVariable v = is_nop_variable v ≡ true

pub count_outputs_nops :
    (vs : List Variable) (n : ℕ) → All IsNopVariable vs → count_outputs vs n ≡ n
unfolding count_outputs
count_outputs_nops [] n nops = refl
count_outputs_nops (v ∷ vs) n nops = rw nops.0 (count_outputs_nops vs n nops.1)

replicate-IsNopVariable : (n : ℕ) → All IsNopVariable (replicate n Variable.nop)
unfolding is_nop_variable
replicate-IsNopVariable zero = tt
replicate-IsNopVariable (suc n) = (refl, replicate-IsNopVariable n)

-- Only a nop makes nop variables.
outputs-IsMade : (op : Operation) → is_nop op ≡ false → All IsMade (get_output_variables op)
unfolding get_output_variables is_nop_variable is_nop
outputs-IsMade (nop _ _) h = cc
outputs-IsMade _ h = search (tt, refl)

inner-IsMade : (op : Operation) → is_nop op ≡ false → All IsMade (get_inner_output_variables op)
unfolding get_inner_output_variables is_nop_variable is_nop
inner-IsMade (nop _ _) h = cc
inner-IsMade _ h = search (tt, refl)

pub outputs_of-IsMade : (i : Instruction) → is_nop i.operation ≡ false → All IsMade (outputs_of i)
outputs_of-IsMade i h =
    All-append IsMade (get_output_variables i.operation) (get_inner_output_variables i.operation)
      (outputs-IsMade i.operation h) (inner-IsMade i.operation h)

-- A nop makes nop variables, outside every scope, and opens and closes no block.
pub nop_facts :
    (op : Operation)
    → is_nop op ≡ true
    → All IsNopVariable (get_output_variables op)
      × All IsNopVariable (get_inner_output_variables op)
      × (is_block_begin op ≡ false)
      × (is_block_end op ≡ false)
      × ((n : ℕ) → scope_for op n ≡ 0)
unfolding is_nop get_output_variables get_inner_output_variables is_block_begin is_block_end
    scope_for
nop_facts (nop outputs inner) h =
    (replicate-IsNopVariable outputs, replicate-IsNopVariable inner, refl, refl, (λ n. refl))
nop_facts _ h = cc

pub outputs_of_nops :
    (i : Instruction) → is_nop i.operation ≡ true → All IsNopVariable (outputs_of i)
outputs_of_nops i h =
    All-append IsNopVariable (get_output_variables i.operation)
      (get_inner_output_variables i.operation) (nop_facts i.operation h).0
      (nop_facts i.operation h).1

get_elem?-look : (m : List ℕ) (idx : ℕ) → idx < length m → get_elem? m idx ≡ some (look m idx)
get_elem?-look [] idx h = absurd (omega arith)
get_elem?-look (y ∷ m) zero h = refl
get_elem?-look (y ∷ m) (suc idx) h = get_elem?-look m idx (omega arith)

-- The inputs of a typed instruction are mapped.
pub map_inputs-total :
    (b : Builder) (m : List ℕ) (inputs : List ℕ) (vs : List Variable)
    → HasInputs b inputs vs
    → length b.variables ≤ length m
    → map_inputs m inputs ≡ done (map (look m) inputs)
unfolding map_inputs
map_inputs-total b m [] vs h fits = refl
map_inputs-total b m (x ∷ inputs) (v ∷ vs) ((s, found, _), h) fits = rw (
  get_elem?-look m x (omega (arith, lt-get_elem? b.variables x found)),
  map_inputs-total b m inputs vs h fits,
)
map_inputs-total b m (x ∷ inputs) [] h fits = absurd h
