-- ===== src/Builder/Invariant/Phases.antt =====
-- Each phase of `append` keeps the invariant and does not panic.
use bitcoin_antithesis.Prelude.{
  ◌≤◌, ◌≡◌, refl, ap, ◌∙◌, subst, List, [], ◌∷◌, ◌++◌, inl, inr, some, All, Bool-cases, get_elem?,
}
use bitcoin_antithesis.Operation.{Operation}
use bitcoin_antithesis.Operation.Blocks.{is_block_end, is_matching_block_begin}
use bitcoin_antithesis.Instruction.{Instruction}
use bitcoin_antithesis.Builder.State.{
  Scope, Builder, Outcome, ok, M, and_then, exit_scope, current_scope, remove,
}
use bitcoin_antithesis.Builder.Append.{record_context, opener, close_block}
use bitcoin_antithesis.Builder.Invariant.{OpenedBy, Opened, ids, Inv, Ensures, gives, fails}
use bitcoin_antithesis.Builder.Invariant.Scopes.{remove_top, contains_top}

pub Ensures-bind :
    {A B : Type 0} {P : A → Builder → Type 0} {Q : B → Builder → Type 0} {E : Builder → Type 0}
    {o : Outcome A} {f : A → M B}
    → Ensures P E o
    → ((a : A) (b : Builder) → P a b → Ensures Q E (f a b))
    → Ensures Q E (and_then o f)
Ensures-bind (gives p) k = k _ _ p
Ensures-bind (fails e) k = fails e

-- The top of the stack, which a well formed builder has.
pub top_cases :
    (program : List Instruction) (scopes : List Scope)
    → Opened program scopes
    → (s : Scope) × (rest : List Scope) × (scopes ≡ s ∷ rest)
top_cases program [] o = absurd o
top_cases program (s ∷ rest) o = (s, rest, refl)

module _ {base program : List Instruction} where
  pub current_scope-Inv :
      (b : Builder)
      → Inv base program b
      → (s : Scope) × (rest : List Scope) × (b.active_scopes ≡ s ∷ rest)
        × (current_scope b ≡ ok s b)
  unfolding current_scope
  current_scope-Inv b v =
      let (s, rest, e) = top_cases program b.active_scopes v.opened in
      (s, rest, e, rw (e, current_scope))

  pub record_context-Inv :
      (b : Builder)
      → Inv base program b
      → (c : Builder) × (record_context b ≡ ok tt c)
        × Inv base program c
        × (c.variables ≡ b.variables)
        × (c.active_scopes ≡ b.active_scopes)
        × (c.scope_counter ≡ b.scope_counter)
  unfolding record_context
  record_context-Inv b v =
      let (s, rest, e, top) = current_scope-Inv b v in
      (
        record b { contexts = b.contexts ++ s.context ∷ [] },
        rw top,
        record {
          code = v.code;
          opened = v.opened;
          tracked = v.tracked;
          bounded = v.bounded;
          known = v.known;
          contained = v.contained;
        },
        refl,
        refl,
        refl,
      )

  -- The scope on top of another one can be left.
  pub exit_scope-Inv :
      (b : Builder) (s t : Scope) (rest : List Scope)
      → Inv base program b
      → b.active_scopes ≡ s ∷ t ∷ rest
      → (c : Builder) × (exit_scope b ≡ ok s c)
        × Inv base program c
        × OpenedBy program s
        × (c.variables ≡ b.variables)
        × (c.active_scopes ≡ t ∷ rest)
  unfolding exit_scope
  exit_scope-Inv b s t rest v e =
      let set : b.active_scopes_set ≡ s.id ∷ ids (t ∷ rest) = v.tracked ∙ ap ids e in
      let opened : Opened program (s ∷ t ∷ rest) = subst (Opened program) e v.opened in
      (
        record b { active_scopes = t ∷ rest; active_scopes_set = remove s.id b.active_scopes_set },
        rw (e, exit_scope, set, contains_top s.id (ids (t ∷ rest))),
        record {
          code = v.code;
          opened = opened.2;
          tracked = ap (remove s.id) set ∙ remove_top s.id (ids (t ∷ rest));
          bounded = (subst (All λ x. x.id ≤ b.scope_counter) e v.bounded).1;
          known = v.known;
          contained = v.contained;
        },
        opened.0,
        refl,
        refl,
      )

  -- Closing a block finds its beginning: it succeeds, or reports the mismatch.
  pub close_block-Inv :
      (op : Operation) (b : Builder) (s t : Scope) (rest : List Scope)
      → base ≡ program
      → Inv base program b
      → b.active_scopes ≡ s ∷ t ∷ rest
      → Ensures (λ _ c. Inv base program c) (Inv base program) (close_block op b)
  unfolding close_block opener
  close_block-Inv op b s t rest same v e =
      let (c, exits, w, (at, i, begin, found, _, _), _, _) = exit_scope-Inv b s t rest v e in
      let there : get_elem? c.instructions at ≡ some i = rw (w.code, same) found in
      elim (Bool-cases (is_block_end op)) [
        | inr other ↦ rw other (gives v)
        | inl ends ↦ elim (Bool-cases (is_matching_block_begin op i.operation)) [
          | inl match ↦ rw (ends, exits, begin, there, opener, match) (gives w)
          | inr differ ↦ rw (ends, exits, begin, there, opener, differ) (fails w)
        ]
      ]
