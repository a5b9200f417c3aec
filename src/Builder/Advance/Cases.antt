-- ===== src/Builder/Advance/Cases.antt =====
-- `append` is the description: it succeeds exactly on well typed instructions whose block end fits,
-- and is refused on the others. builder.rs of workloads/ir-workload/fuzzamoto-ir/src.
use bitcoin_antithesis.Prelude.{
  suc, ◌≡◌, refl, ap, sym, ◌∙◌, subst, true, false, List, ◌∷◌, ◌⊎◌, inl, inr, Bool-cases, length,
  All, ◌≤◌,
}
use bitcoin_antithesis.Operation.{Operation}
use bitcoin_antithesis.Operation.Blocks.{is_block_begin, is_block_end, is_matching_block_begin}
use bitcoin_antithesis.Operation.Facts.{begin-not_end}
use bitcoin_antithesis.Instruction.{Instruction}
use bitcoin_antithesis.Instruction.Nop.{entered_context-EntersContext}
use bitcoin_antithesis.Builder.State.{Scope, Builder, ok, contains}
use bitcoin_antithesis.Builder.Append.{indexed, apply_instruction, append}
use bitcoin_antithesis.Builder.Checks.{IsTyped, check_instruction_cases, check_instruction-IsTyped}
use bitcoin_antithesis.Builder.Invariant.{Opened, ids, IsWellFormed}
use bitcoin_antithesis.Builder.Invariant.Scopes.{contains-fresh}
use bitcoin_antithesis.Builder.Invariant.Phases.{top_cases}
use bitcoin_antithesis.Builder.Invariant.Preserved.{block_end-open}
use bitcoin_antithesis.Builder.Advance.{
  made, advance, Opens, Closes, Refused, here, apply_plain, apply_begin, apply_end, apply_mismatch,
}

abbrev pub Applies : Instruction → Builder → Type 0
Applies i b = apply_instruction i b ≡ ok (indexed (length b.variables) (made i b)) (advance i b)

abbrev pub Accepts : Builder → Instruction → Type 0
Accepts b i = IsTyped b i × Closes b i.operation

here-eq :
    (b : Builder) (s : Scope) (rest : List Scope)
    → b.active_scopes ≡ s ∷ rest
    → b.active_scopes_set ≡ ids b.active_scopes
    → here b.context s rest b.scope_counter b.variables b.instructions b.contexts ≡ b
here-eq b s rest e tracked = λ k. record {
  context = b.context;
  active_scopes = sym e k;
  active_scopes_set = sym (tracked ∙ ap ids e) k;
  scope_counter = b.scope_counter;
  variables = b.variables;
  instructions = b.instructions;
  contexts = b.contexts;
}

-- What applying a well typed instruction does.
abbrev pub Applied : Builder → Instruction → Type 0
Applied b i =
    (Applies i b × Closes b i.operation)
    ⊎ (Refused (apply_instruction i b) × ¬ Closes b i.operation)

not_end :
    (b : Builder) (i : Instruction)
    → IsWellFormed b
    → is_block_end i.operation ≡ false
    → Applied b i
not_end b i v e =
    let (s, rest, stack) = top_cases b.instructions b.active_scopes v.opened in
    let at_b = subst (Applies i) (here-eq b s rest stack v.tracked) in
    let fresh : contains (ids (s ∷ rest)) (suc b.scope_counter) ≡ false =
      contains-fresh b.scope_counter (s ∷ rest)
        (subst (All λ x. x.id ≤ b.scope_counter) stack v.bounded) in
    elim (Bool-cases (is_block_begin i.operation)) [
      | inr other ↦ inl (at_b (apply_plain b.context s rest _ _ _ _ i e other), (λ ends. cc))
      | inl begins ↦
          let (c, enters, _) = (entered_context-EntersContext i.operation).0 begins in
          inl (at_b (apply_begin _ s rest _ _ _ _ i c begins enters fresh), (λ ends. cc))
    ]

end-not_begin : (op : Operation) → is_block_end op ≡ true → is_block_begin op ≡ false
end-not_begin op h = elim (Bool-cases (is_block_begin op)) [
  | inl begins ↦ cc (begin-not_end op begins)
  | inr other ↦ other
]

Opens-unique :
    (b : Builder) (s t : Scope) (rest others : List Scope) (p q : Operation)
    → b.active_scopes ≡ s ∷ rest
    → b.active_scopes ≡ t ∷ others
    → Opens b s p
    → Opens b t q
    → p ≡ q
Opens-unique b s t rest others p q e f (at, i, begun, found, is) (at', j, begun', found', js) = cc

at_end :
    (b : Builder) (i : Instruction)
    → IsWellFormed b
    → IsTyped b i
    → is_block_end i.operation ≡ true
    → Applied b i
at_end b i v typed e =
    let (s, t, rest, stack) = block_end-open b i v typed.0 e in
    let (at, j, begun, found, begins, _) = (subst (Opened b.instructions) stack v.opened).0 in
    let at_b = here-eq b s (t ∷ rest) stack v.tracked in
    let opened : Opens b s j.operation = (at, j, begun, found, refl) in
    elim (Bool-cases (is_matching_block_begin i.operation j.operation)) [
      | inl match ↦ inl (
        subst (Applies i) at_b (
            apply_end b.context s (t ∷ rest) b.scope_counter b.variables b.instructions b.contexts i
              t rest j.operation refl e (end-not_begin i.operation e) opened match),
        (λ _. (s, t ∷ rest, j.operation, stack, opened, match)),
      )
      | inr differ ↦ inr (
        subst (λ x. Refused (apply_instruction i x)) at_b
            (apply_mismatch b.context s (t ∷ rest) b.scope_counter b.variables b.instructions
              b.contexts i t rest j.operation refl e opened differ),
        (λ closes.
            let (s', rest', begin, stack', opened', match) = closes e in
            let same =
              Opens-unique b s s' (t ∷ rest) rest' j.operation begin stack stack' opened opened' in
            cc),
      )
    ]

pub apply_instruction_cases :
    (b : Builder) (i : Instruction) → IsWellFormed b → IsTyped b i → Applied b i
apply_instruction_cases b i v typed = elim (Bool-cases (is_block_end i.operation)) [
  | inl ends ↦ at_end b i v typed ends
  | inr other ↦ not_end b i v other
]

-- Of a well formed builder: an instruction is appended exactly if it is well typed and the block
-- that it may end fits; the builder is then the described one and the new variables are handed
-- back with their indices. Any other instruction is refused with an error.
pub append_cases :
    (b : Builder) (i : Instruction)
    → IsWellFormed b
    → (Accepts b i × (append i b ≡ ok (indexed (length b.variables) (made i b)) (advance i b)))
      ⊎ (¬ Accepts b i × Refused (append i b))
unfolding append
append_cases b i v = elim (check_instruction_cases b i) [
  | inr (e, rejects) ↦
      inr ((λ accepts. cc (check_instruction-IsTyped b i accepts.0)), (e, b, rw rejects))
  | inl (passes, typed) ↦ elim (apply_instruction_cases b i v typed) [
    | inl (applies, closes) ↦ inl ((typed, closes), rw passes applies)
    | inr ((e, c, refuses), open_other) ↦
        inr ((λ accepts. open_other accepts.1), (e, c, rw passes refuses))
  ]
]

pub append-Accepts :
    (b : Builder) (i : Instruction)
    → IsWellFormed b
    → Accepts b i
    → append i b ≡ ok (indexed (length b.variables) (made i b)) (advance i b)
append-Accepts b i v accepts = elim (append_cases b i v) [
  | inl (_, appends) ↦ appends
  | inr (not_accepted, _) ↦ absurd (not_accepted accepts)
]
