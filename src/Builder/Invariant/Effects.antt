-- ===== src/Builder/Invariant/Effects.antt =====
-- The phases of `append` that define variables, open a block and push the instruction.
use bitcoin_antithesis.Prelude.{
  ℕ, suc, ◌≤◌, ◌≡◌, ◌≢◌, refl, sym, subst, true, List, [], ◌∷◌, ◌++◌, map, inl, inr, some, arith,
  All, All-append, All-mono, Bool-cases, get_elem?-end, length, get_elem?,
}
use bitcoin_antithesis.Partial.{done}
use bitcoin_antithesis.Variable.{Variable}
use bitcoin_antithesis.Operation.{Operation, nop}
use bitcoin_antithesis.Operation.Blocks.{is_block_begin}
use bitcoin_antithesis.Operation.Signature.{get_output_variables, get_inner_output_variables}
use bitcoin_antithesis.Operation.Facts.{NotLocal, outputs-NotLocal, inner-NotLocal}
use bitcoin_antithesis.Instruction.{
  Instruction, InstructionContext, entered_context_after_execution,
}
use bitcoin_antithesis.Instruction.Nop.{entered_context-EntersContext}
use bitcoin_antithesis.Builder.State.{Builder, ok, enter_scope}
use bitcoin_antithesis.Builder.Append.{
  scoped, scope_for, define, define_outputs, open_block, define_inner, push_instruction,
}
use bitcoin_antithesis.Builder.Invariant.{Opened, IsContained, Inv, IsWellFormed, Ensures, gives}
use bitcoin_antithesis.Builder.Invariant.Scopes.{contains-fresh, bounded_suc, top-positive}
use bitcoin_antithesis.Builder.Invariant.Phases.{current_scope-Inv}

pub scope_for-le : (op : Operation) (n : ℕ) → scope_for op n ≤ n
unfolding scope_for
scope_for-le (nop _ _) n = omega arith
scope_for-le _ n = omega arith

pub scope_for-begin : (op : Operation) (n : ℕ) → is_block_begin op ≡ true → scope_for op n ≡ n
unfolding scope_for is_block_begin
scope_for-begin (nop _ _) n h = cc
scope_for-begin _ n h = refl

known_scoped :
    (n scope_id : ℕ) (vs : List Variable)
    → scope_id ≤ n
    → All (λ v. v.scope_id ≤ n) (map (scoped scope_id) vs)
known_scoped n scope_id [] h = tt
known_scoped n scope_id (v ∷ vs) h = (h, known_scoped n scope_id vs h)

IsContained-NotLocal :
    (scope_id : ℕ) (vs : List Variable)
    → All NotLocal vs
    → All IsContained (map (scoped scope_id) vs)
IsContained-NotLocal scope_id [] h = tt
IsContained-NotLocal scope_id (v ∷ vs) h = ((λ local. cc), IsContained-NotLocal scope_id vs h.1)

IsContained-inside :
    (scope_id : ℕ) (vs : List Variable) → scope_id ≢ 1 → All IsContained (map (scoped scope_id) vs)
IsContained-inside scope_id [] h = tt
IsContained-inside scope_id (v ∷ vs) h = ((λ local. h), IsContained-inside scope_id vs h)

module _ {base program : List Instruction} where
  define-Inv :
      (b : Builder) (vs : List Variable) (scope_id : ℕ)
      → Inv base program b
      → scope_id ≤ b.scope_counter
      → All IsContained (map (scoped scope_id) vs)
      → Inv base program (record b { variables = b.variables ++ map (scoped scope_id) vs })
  define-Inv b vs scope_id v le inside = record {
    code = v.code;
    opened = v.opened;
    tracked = v.tracked;
    bounded = v.bounded;
    known =
        All-append (λ x. x.scope_id ≤ b.scope_counter) b.variables (map (scoped scope_id) vs)
          v.known (known_scoped b.scope_counter scope_id vs le);
    contained = All-append IsContained b.variables (map (scoped scope_id) vs) v.contained inside;
  }

  pub define_outputs-Inv :
      (op : Operation) (b : Builder)
      → Inv base program b
      → (c : Builder) × (define_outputs op b ≡ ok tt c) × Inv base program c
  unfolding define_outputs define
  define_outputs-Inv op b v =
      let (s, rest, e, top) = current_scope-Inv b v in
      let below = (subst (All λ x. x.id ≤ b.scope_counter) e v.bounded).0 in
      let scope_id = scope_for op s.id in
      (
        record b { variables = b.variables ++ map (scoped scope_id) (get_output_variables op) },
        rw top,
        define-Inv b (get_output_variables op) scope_id v (omega (arith, scope_for-le op s.id))
            (IsContained-NotLocal scope_id (get_output_variables op) (outputs-NotLocal op)),
      )

  pub enter_scope-Inv :
      (b : Builder) (i : Instruction) (c : InstructionContext)
      → program ≡ base ++ i ∷ []
      → is_block_begin i.operation ≡ true
      → entered_context_after_execution i.operation ≡ done (some c)
      → Inv base program b
      → Inv base program (enter_scope (some (length b.instructions)) c b)
  unfolding enter_scope
  enter_scope-Inv b i c grown begins enters v =
      let (s, rest, e, _) = current_scope-Inv b v in
      let below = (subst (All λ x. x.id ≤ b.scope_counter) e v.bounded).0 in
      let fresh = contains-fresh b.scope_counter b.active_scopes v.bounded in
      let there : get_elem? program (length b.instructions) ≡ some i =
        rw (grown, v.code) (get_elem?-end base [] i) in
      record {
        code = v.code;
        opened =
            subst
              (λ x. Opened program (
                record {
                  begin = some (length b.instructions);
                  id = suc b.scope_counter;
                  context = c;
                }
                ∷ x))
              (sym e)
              (
                (length b.instructions, i, refl, there, begins, enters),
                omega arith,
                subst (Opened program) e v.opened,
              );
        tracked = rw (v.tracked, fresh);
        bounded = (omega arith, bounded_suc b.scope_counter b.active_scopes v.bounded);
        known = All-mono b.variables (λ x (le : x.scope_id ≤ b.scope_counter). omega arith) v.known;
        contained = v.contained;
      }

  -- After the beginning of a block the counter is past the global scope's id.
  pub open_block-Inv :
      (b : Builder) (i : Instruction)
      → program ≡ base ++ i ∷ []
      → Inv base program b
      → (c : Builder) × (open_block i.operation b ≡ ok tt c)
        × Inv base program c
        × (is_block_begin i.operation ≡ true → c.scope_counter ≢ 1)
  unfolding open_block enter_scope
  open_block-Inv b i grown v = elim (Bool-cases (is_block_begin i.operation)) [
    | inr other ↦ (b, rw other, v, (λ begins. cc))
    | inl begins ↦
        let (c, enters, _) = (entered_context-EntersContext i.operation).0 begins in
        let (s, rest, e, _) = current_scope-Inv b v in
        let below = (subst (All λ x. x.id ≤ b.scope_counter) e v.bounded).0 in
        let positive = top-positive program s rest (subst (Opened program) e v.opened) in
        (
          enter_scope (some (length b.instructions)) c b,
          rw (begins, enters, open_block),
          enter_scope-Inv b i c grown begins enters v,
          (λ _. omega arith),
        )
  ]

  pub define_inner-Inv :
      (op : Operation) (b : Builder)
      → Inv base program b
      → (is_block_begin op ≡ true → b.scope_counter ≢ 1)
      → (c : Builder) × (define_inner op b ≡ ok tt c) × Inv base program c
  unfolding define_inner define
  define_inner-Inv op b v past =
      let scope_id = scope_for op b.scope_counter in
      (
        record b {
          variables = b.variables ++ map (scoped scope_id) (get_inner_output_variables op);
        },
        refl,
        define-Inv b (get_inner_output_variables op) scope_id v (scope_for-le op b.scope_counter)
            (elim (Bool-cases (is_block_begin op)) [
              | inl begins ↦
                  IsContained-inside scope_id (get_inner_output_variables op)
                    (rw (scope_for-begin op b.scope_counter begins) (past begins))
              | inr other ↦
                  IsContained-NotLocal scope_id (get_inner_output_variables op)
                    (inner-NotLocal op other)
            ]),
      )

  pub push_instruction-IsWellFormed :
      (b : Builder) (i : Instruction) (n : ℕ)
      → program ≡ base ++ i ∷ []
      → Inv base program b
      → Ensures (λ _ c. IsWellFormed c) IsWellFormed (push_instruction i n b)
  unfolding push_instruction
  push_instruction-IsWellFormed b i n grown v = gives (record {
    code = refl;
    opened = rw (v.code, ← grown) v.opened;
    tracked = v.tracked;
    bounded = v.bounded;
    known = v.known;
    contained = v.contained;
  })
