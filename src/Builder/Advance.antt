-- ===== src/Builder/Advance.antt =====
-- An independent description of `append`: when it succeeds, and the builder and variables that it
-- then gives, by one formula for each field. builder.rs of workloads/ir-workload/fuzzamoto-ir/src.
pub mod Cases
use mathlib.Core.List.{append_assoc}
use bitcoin_antithesis.Prelude.{
  ℕ, suc, ◌≡◌, true, false, List, [], ◌∷◌, ◌++◌, map, Option, some, get_elem?, length, drop-append,
  if◌then◌else◌,
}
use bitcoin_antithesis.Partial.{Partial, done}
use bitcoin_antithesis.Operation.{Operation}
use bitcoin_antithesis.Operation.Blocks.{is_block_begin, is_block_end, is_matching_block_begin}
use bitcoin_antithesis.Operation.Signature.{get_output_variables, get_inner_output_variables}
use bitcoin_antithesis.Operation.Facts.{begin-not_end}
use bitcoin_antithesis.Instruction.{
  Instruction, InstructionContext, global, entered_context_after_execution,
}
use bitcoin_antithesis.Instruction.Nop.{entered_context-EntersContext}
use bitcoin_antithesis.Builder.State.{
  ProgramContext, ProgramValidationError, invalid_block_end, Scope, ScopedVariable, Builder,
  Outcome, ok, err, enter_scope, exit_scope, current_scope, contains,
}
use bitcoin_antithesis.Builder.Append.{
  scoped, scope_for, record_context, opener, close_block, define, define_outputs, open_block,
  define_inner, indexed, push_instruction, apply_instruction,
}
use bitcoin_antithesis.Builder.Invariant.{ids}
use bitcoin_antithesis.Builder.Invariant.Scopes.{contains_top, remove_top}

abbrev pub tail_scopes : List Scope → List Scope
tail_scopes [] = []
tail_scopes (_ ∷ rest) = rest

abbrev pub popped : Operation → List Scope → List Scope
popped op scopes = if is_block_end op then tail_scopes scopes else scopes

abbrev pub top_id : List Scope → ℕ
top_id [] = 0
top_id (s ∷ _) = s.id

abbrev pub top_context : List Scope → InstructionContext
top_context [] = global
top_context (s ∷ _) = s.context

abbrev pub counted : Partial (Option InstructionContext) → ℕ → ℕ
counted (done (some c)) n = suc n
counted _ n = n

abbrev pub pushed : Partial (Option InstructionContext) → ℕ → ℕ → List Scope → List Scope
pushed (done (some c)) at id rest = record { begin = some at; id = id; context = c } ∷ rest
pushed _ at id rest = rest

-- The variables that an instruction makes: its outputs outside the block that it may close, its
-- inner outputs inside the block that it may open.
abbrev pub made : Instruction → Builder → List ScopedVariable
made i b =
    let op = i.operation in
    map (scoped (scope_for op (top_id (popped op b.active_scopes)))) (get_output_variables op)
    ++ map (scoped (scope_for op (counted (entered_context_after_execution op) b.scope_counter)))
        (get_inner_output_variables op)

abbrev pub scopes_after : Instruction → Builder → List Scope
scopes_after i b =
    let enters = entered_context_after_execution i.operation in
    pushed enters (length b.instructions) (counted enters b.scope_counter)
      (popped i.operation b.active_scopes)

abbrev pub advance : Instruction → Builder → Builder
advance i b = record {
  context = b.context;
  active_scopes = scopes_after i b;
  active_scopes_set = ids (scopes_after i b);
  scope_counter = counted (entered_context_after_execution i.operation) b.scope_counter;
  variables = b.variables ++ made i b;
  instructions = b.instructions ++ i ∷ [];
  contexts = b.contexts ++ top_context b.active_scopes ∷ [];
}

-- The operation at which the scope was opened.
abbrev pub Opens : Builder → Scope → Operation → Type 0
Opens b s op =
    (at : ℕ) × (i : Instruction) × (s.begin ≡ some at)
    × (get_elem? b.instructions at ≡ some i)
    × (i.operation ≡ op)

-- The end of a block matches the beginning of the block on top.
abbrev pub Closes : Builder → Operation → Type 0
Closes b op =
    is_block_end op ≡ true
    → (s : Scope) × (rest : List Scope) × (begin : Operation) × (b.active_scopes ≡ s ∷ rest)
      × Opens b s begin
      × (is_matching_block_begin op begin ≡ true)

abbrev pub Refused : {A : Type 0} → Outcome A → Type 0
Refused o = (e : ProgramValidationError) × (c : Builder) × (o ≡ err e c)

-- A builder whose set of ids is that of its scopes.
abbrev pub here :
    ProgramContext
    → Scope
    → List Scope
    → ℕ
    → List ScopedVariable
    → List Instruction
    → List InstructionContext
    → Builder
here context s rest n vars code contexts = record {
  context = context;
  active_scopes = s ∷ rest;
  active_scopes_set = ids (s ∷ rest);
  scope_counter = n;
  variables = vars;
  instructions = code;
  contexts = contexts;
}

module _ (context : ProgramContext) (s : Scope) (rest : List Scope) (n : ℕ)
    (vars : List ScopedVariable) (code : List Instruction) (contexts : List InstructionContext)
    (i : Instruction) where
  abbrev pub this : Builder
  this = here context s rest n vars code contexts

  pub apply_plain :
      is_block_end i.operation ≡ false
      → is_block_begin i.operation ≡ false
      → apply_instruction i this ≡ ok (indexed (length vars) (made i this)) (advance i this)
  unfolding apply_instruction record_context current_scope close_block define_outputs define
      open_block define_inner push_instruction
  apply_plain e f =
      rw (e, f, (entered_context-EntersContext i.operation).1 f, append_assoc, drop-append)

  pub apply_begin :
      (c : InstructionContext)
      → is_block_begin i.operation ≡ true
      → entered_context_after_execution i.operation ≡ done (some c)
      → contains (ids (s ∷ rest)) (suc n) ≡ false
      → apply_instruction i this ≡ ok (indexed (length vars) (made i this)) (advance i this)
  unfolding apply_instruction record_context current_scope close_block define_outputs define
      open_block define_inner push_instruction enter_scope
  apply_begin c f enters fresh =
      rw (begin-not_end i.operation f, f, enters, open_block, fresh, append_assoc, drop-append)

  -- The end of another block is reported, after the scope has been left.
  pub apply_mismatch :
      (t : Scope) (others : List Scope) (begin : Operation)
      → rest ≡ t ∷ others
      → is_block_end i.operation ≡ true
      → Opens this s begin
      → is_matching_block_begin i.operation begin ≡ false
      → Refused (apply_instruction i this)
  unfolding apply_instruction record_context current_scope close_block exit_scope opener
  apply_mismatch t others begin more e (at, j, begun, found, same) differ = (
    invalid_block_end j.operation i.operation,
    record this {
      active_scopes = rest;
      active_scopes_set = ids rest;
      contexts = contexts ++ s.context ∷ [];
    },
    rw (
      e,
      contains_top s.id (ids rest),
      begun,
      found,
      opener,
      same,
      differ,
      remove_top s.id (ids rest),
    ),
  )

  pub apply_end :
      (t : Scope) (others : List Scope) (begin : Operation)
      → rest ≡ t ∷ others
      → is_block_end i.operation ≡ true
      → is_block_begin i.operation ≡ false
      → Opens this s begin
      → is_matching_block_begin i.operation begin ≡ true
      → apply_instruction i this ≡ ok (indexed (length vars) (made i this)) (advance i this)
  unfolding apply_instruction record_context current_scope close_block define_outputs define
      open_block define_inner push_instruction exit_scope opener
  apply_end t others begin more e f (at, j, begun, found, same) match = rw (
    e,
    f,
    more,
    contains_top s.id (ids (t ∷ others)),
    begun,
    found,
    opener,
    same,
    match,
    (entered_context-EntersContext i.operation).1 f,
    remove_top s.id (ids (t ∷ others)),
    append_assoc,
    drop-append,
  )
