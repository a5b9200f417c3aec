-- ===== src/Builder/Invariant/Preserved.antt =====
-- `append` keeps the invariant and never panics: builder.rs of workloads/ir-workload/fuzzamoto-ir/
-- src.
use bitcoin_antithesis.Prelude.{
  ℕ, ◌≡◌, refl, ◌∙◌, subst, true, List, [], ◌∷◌, ◌++◌, inl, inr, All-get, Bool-cases, length, arith,
}
use bitcoin_antithesis.Variable.{Variable, is_block_local}
use bitcoin_antithesis.Operation.Blocks.{is_block_end}
use bitcoin_antithesis.Operation.Signature.{get_input_variables}
use bitcoin_antithesis.Operation.Facts.{block_end-input}
use bitcoin_antithesis.Instruction.{Instruction}
use bitcoin_antithesis.Builder.State.{
  ProgramContext, Scope, Builder, Outcome, and_then, new_builder, enter_scope, is_scope_active,
}
use bitcoin_antithesis.Builder.Append.{
  close_block, define_outputs, open_block, define_inner, push_instruction, apply_instruction,
  append,
}
use bitcoin_antithesis.Builder.Checks.{IsTyped, HasInputs, check_instruction_cases}
use bitcoin_antithesis.Builder.Invariant.{IsContained, Inv, IsWellFormed, Ensures, gives, fails}
use bitcoin_antithesis.Builder.Invariant.Scopes.{Opened-append, two_open}
use bitcoin_antithesis.Builder.Invariant.Phases.{Ensures-bind, record_context-Inv, close_block-Inv}
use bitcoin_antithesis.Builder.Invariant.Effects.{
  define_outputs-Inv, open_block-Inv, define_inner-Inv, push_instruction-IsWellFormed,
}

Ensures-err :
    {A : Type 0} {P : A → Builder → Type 0} {E F : Builder → Type 0} {o : Outcome A}
    → ((b : Builder) → E b → F b)
    → Ensures P E o
    → Ensures P F o
Ensures-err f (gives p) = gives p
Ensures-err f (fails e) = fails (f _ e)

settle : {base : List Instruction} (b : Builder) → Inv base base b → IsWellFormed b
settle b v = record {
  code = refl;
  opened = rw v.code v.opened;
  tracked = v.tracked;
  bounded = v.bounded;
  known = v.known;
  contained = v.contained;
}

-- A well typed end of a block stands in a block.
pub block_end-open :
    (b : Builder) (i : Instruction)
    → IsWellFormed b
    → HasInputs b i.inputs (get_input_variables i.operation)
    → is_block_end i.operation ≡ true
    → (s : Scope) × (t : Scope) × (rest : List Scope) × (b.active_scopes ≡ s ∷ t ∷ rest)
unfolding is_scope_active
block_end-open b i v typed ends =
    let (first, others, takes, local) = block_end-input i.operation ends in
    go i.inputs first others local (subst (HasInputs b i.inputs) takes typed)
  where
    go :
        (inputs : List ℕ) (first : Variable) (others : List Variable)
        → is_block_local first ≡ true
        → HasInputs b inputs (first ∷ others)
        → (s : Scope) × (t : Scope) × (rest : List Scope) × (b.active_scopes ≡ s ∷ t ∷ rest)
    go [] first others local h = absurd h
    go (idx ∷ inputs) first others local ((scope_id, found, active), _) =
        two_open b.instructions b.active_scopes scope_id v.opened (rw v.tracked at active)
          (All-get IsContained b.variables idx v.contained found local)

close-IsWellFormed :
    (b c : Builder) (i : Instruction)
    → IsWellFormed b
    → IsTyped b i
    → Inv b.instructions b.instructions c
    → c.active_scopes ≡ b.active_scopes
    → Ensures (λ _ d. Inv b.instructions b.instructions d) IsWellFormed (close_block i.operation c)
unfolding close_block
close-IsWellFormed b c i v typed w same = elim (Bool-cases (is_block_end i.operation)) [
  | inr other ↦ rw other (gives w)
  | inl ends ↦
      let (s, t, rest, e) = block_end-open b i v typed.0 ends in
      Ensures-err (λ d. settle d) (close_block-Inv i.operation c s t rest refl w (same ∙ e))
]

extend :
    {base : List Instruction} (c : Builder) (i : Instruction)
    → Inv base base c
    → Inv base (base ++ i ∷ []) c
extend {base} c i v = record {
  code = v.code;
  opened = Opened-append base (i ∷ []) c.active_scopes v.opened;
  tracked = v.tracked;
  bounded = v.bounded;
  known = v.known;
  contained = v.contained;
}

effects-IsWellFormed :
    (b c : Builder) (i : Instruction)
    → Inv b.instructions b.instructions c
    → Ensures
        (λ _ d. IsWellFormed d)
        IsWellFormed
        (and_then (define_outputs i.operation c) λ _. λ d. and_then (open_block i.operation d) λ _.
          λ e. and_then (define_inner i.operation e) λ _. push_instruction i (length c.variables))
effects-IsWellFormed b c i v =
    let grown = b.instructions ++ i ∷ [] in
    let (d, outputs, w) =
      define_outputs-Inv {base = b.instructions} {program = grown} i.operation c (extend c i v) in
    let (e, Opens, x, past) = open_block-Inv d i refl w in
    let (f, inner, y) = define_inner-Inv i.operation e x past in
    rw (outputs, Opens, inner) (push_instruction-IsWellFormed f i (length c.variables) refl y)

apply_instruction-IsWellFormed :
    (b : Builder) (i : Instruction)
    → IsWellFormed b
    → IsTyped b i
    → Ensures (λ _ c. IsWellFormed c) IsWellFormed (apply_instruction i b)
unfolding apply_instruction
apply_instruction-IsWellFormed b i v typed =
    let (c, records, w, _, same, _) = record_context-Inv b v in
    rw records
      (Ensures-bind (close-IsWellFormed b c i v typed w same) λ _ d x. effects-IsWellFormed b d i x)

-- Appending any instruction to a well formed builder does not panic, and leaves a well formed
-- builder, whether it succeeds or reports an error.
pub append-IsWellFormed :
    (b : Builder) (i : Instruction)
    → IsWellFormed b
    → Ensures (λ _ c. IsWellFormed c) IsWellFormed (append i b)
unfolding append
append-IsWellFormed b i v = elim (check_instruction_cases b i) [
  | inr (e, rejects) ↦ rw rejects (fails v)
  | inl (passes, typed) ↦ rw passes (apply_instruction-IsWellFormed b i v typed)
]

-- A new builder is well formed.
pub new_builder-IsWellFormed : (context : ProgramContext) → IsWellFormed (new_builder context)
unfolding new_builder enter_scope
new_builder-IsWellFormed context = record {
  code = refl;
  opened = (refl, refl, refl);
  tracked = refl;
  bounded = (omega arith, tt);
  known = tt;
  contained = tt;
}
