-- ===== src/Program/Nops/Follow.antt =====
-- A builder of a program without nops follows the builder of the program with them.
use bitcoin_antithesis.Prelude.{
  ℕ, ◌+◌, ◌<◌, ◌≤◌, ◌≡◌, refl, sym, ◌∙◌, subst, true, false, List, [], ◌∷◌, ◌++◌, map, inl, inr,
  arith, All, All-append, All-get, length, length-append, length-map, get_elem?-append_cases,
  lt-get_elem?,
}
use bitcoin_antithesis.Variable.{Variable}
use bitcoin_antithesis.Operation.Signature.{get_output_variables, get_inner_output_variables}
use bitcoin_antithesis.Instruction.{Instruction, entered_context_after_execution}
use bitcoin_antithesis.Instruction.Nop.{entered_context-EntersContext}
use bitcoin_antithesis.Builder.State.{Scope, ScopedVariable, Builder}
use bitcoin_antithesis.Builder.Append.{scoped, scope_for}
use bitcoin_antithesis.Builder.Invariant.{IsWellFormed}
use bitcoin_antithesis.Builder.Advance.{made, advance, scopes_after, top_id, popped, counted}
use bitcoin_antithesis.Builder.Advance.Cases.{Accepts}
use bitcoin_antithesis.Builder.Simulation.{Zip, SameOpener, Visible, Follows, Sim}
use bitcoin_antithesis.Builder.Simulation.Stacks.{
  Zip-both, Zip-left, Opened-positive, OpensAt-append,
}
use bitcoin_antithesis.Builder.Simulation.Step.{with_inputs, advance-Sim}
use bitcoin_antithesis.Program.Nops.{is_nop, map_outputs, count_outputs, outputs_of}
use bitcoin_antithesis.Program.Nops.Mapping.{
  look, look-append, look_right, length-map_outputs, look-map_outputs, count_outputs_made,
  count_outputs_nops, outputs_of-IsMade, outputs_of_nops, nop_facts,
}

-- The second builder follows the first by the mapping, which knows all its variables.
pub record Removing (m : List ℕ) (n : ℕ) (b c : Builder) : Type 0 where
  pub sim : Sim (look m) b c
  pub mapped : length m ≡ length b.variables
  pub counted : n ≡ length c.variables

Visible-look :
    (m xs : List ℕ) (vars vars' : List ScopedVariable) (id id' : ℕ)
    → length m ≡ length vars
    → Visible (look m) vars vars' id id'
    → Visible (look (m ++ xs)) vars vars' id id'
Visible-look m xs vars vars' id id' mapped sees idx v found =
    rw (look-append m xs idx (omega (arith, lt-get_elem? vars idx found))) (sees idx v found)

Zip-mono :
    (R S : Scope → Scope → Type 0) (ss ts : List Scope)
    → ((s t : Scope) → R s t → S s t)
    → Zip R ss ts
    → Zip S ss ts
Zip-mono R S ss ts f z = Zip-both {T = S} ss ts (λ s t p (_ : R s t). f s t p) z z

-- A longer mapping serves as well.
pub grow-Sim :
    (m xs : List ℕ) (b c : Builder)
    → length m ≡ length b.variables
    → Sim (look m) b c
    → Sim (look (m ++ xs)) b c
grow-Sim m xs b c mapped sim = record {
  context = sim.context;
  scopes =
      Zip-mono (Follows (look m) b c) (Follows (look (m ++ xs)) b c) b.active_scopes c.active_scopes
        (λ s t p. (p.0, Visible-look m xs b.variables c.variables s.id t.id mapped p.1)) sim.scopes;
}

pub length-made_outputs :
    (i : Instruction) (b : Builder) → length (made i b) ≡ length (outputs_of i)
length-made_outputs i b =
    let o = scope_for i.operation (top_id (popped i.operation b.active_scopes)) in
    let n =
      scope_for i.operation
        (counted (entered_context_after_execution i.operation) b.scope_counter) in
    omega (
      arith,
      length-append (map (scoped o) (get_output_variables i.operation))
          (map (scoped n) (get_inner_output_variables i.operation)),
      length-append (get_output_variables i.operation) (get_inner_output_variables i.operation),
      length-map (scoped o) (get_output_variables i.operation),
      length-map (scoped n) (get_inner_output_variables i.operation),
    )

abbrev pub grown : List ℕ → ℕ → Instruction → List ℕ
grown m n i = m ++ map_outputs (outputs_of i) n

pub length-grown :
    (m : List ℕ) (n : ℕ) (i : Instruction) → length (grown m n i) ≡ length m + length (outputs_of i)
length-grown m n i =
    omega
      (arith, length-append m (map_outputs (outputs_of i) n), length-map_outputs (outputs_of i) n)

-- An instruction that is no nop is followed.
pub made-Removing :
    (m : List ℕ) (n : ℕ) (b c : Builder) (i : Instruction)
    → IsWellFormed b
    → Accepts b i
    → is_nop i.operation ≡ false
    → Removing m n b c
    → Removing
        (grown m n i)
        (count_outputs (outputs_of i) n)
        (advance i b)
        (advance (with_inputs (map (look (grown m n i)) i.inputs) i) c)
made-Removing m n b c i v accepts no_nop r =
    let made_vars = outputs_of-IsMade i no_nop in
    let xs = map_outputs (outputs_of i) n in
    let inputs = map (look (grown m n i)) i.inputs in
    record {
      sim =
          advance-Sim (look (grown m n i)) b c i inputs v accepts (grow-Sim m xs b c r.mapped r.sim)
            (λ k (lt : k < length (made i b)).
              rw (← r.mapped, ← r.counted, look_right m xs k)
                (look-map_outputs (outputs_of i) n k made_vars
                  (omega (arith, length-made_outputs i b))));
      mapped = omega (
        arith,
        r.mapped,
        length-grown m n i,
        length-made_outputs i b,
        length-append b.variables (made i b),
      );
      counted = omega (
        arith,
        r.counted,
        count_outputs_made (outputs_of i) n made_vars,
        length-made_outputs (with_inputs inputs i) c,
        length-append c.variables (made (with_inputs inputs i) c),
      );
    }

abbrev IsOutside : ScopedVariable → Type 0
IsOutside v = v.scope_id ≡ 0

map-IsOutside : (vs : List Variable) → All IsOutside (map (scoped 0) vs)
map-IsOutside [] = tt
map-IsOutside (v ∷ vs) = (refl, map-IsOutside vs)

made-IsOutside :
    (i : Instruction) (b : Builder) → is_nop i.operation ≡ true → All IsOutside (made i b)
made-IsOutside i b is =
    let (_, _, _, _, zero_scope) = nop_facts i.operation is in
    rw
      (
        zero_scope (top_id (popped i.operation b.active_scopes)),
        zero_scope (counted (entered_context_after_execution i.operation) b.scope_counter),
      )
      (All-append IsOutside (map (scoped 0) (get_output_variables i.operation))
        (map (scoped 0) (get_inner_output_variables i.operation))
        (map-IsOutside (get_output_variables i.operation))
        (map-IsOutside (get_inner_output_variables i.operation)))

-- Variables outside every scope are seen by none.
Visible-outside :
    (f : ℕ → ℕ) (vars more vars' : List ScopedVariable) (id id' : ℕ)
    → 1 ≤ id
    → All IsOutside more
    → Visible f vars vars' id id'
    → Visible f (vars ++ more) vars' id id'
Visible-outside f vars more vars' id id' positive outside sees idx v found =
    elim (get_elem?-append_cases vars more idx found) [
      | inl old ↦ sees idx v old
      | inr (k, at, new) ↦
          let zero_id : id ≡ 0 = All-get IsOutside more k outside new in absurd (omega arith)
    ]

SameOpener-left :
    (code code' more : List Instruction) (s t : Scope)
    → SameOpener code code' s t
    → SameOpener (code ++ more) code' s t
SameOpener-left code code' more s t (inl global) = inl global
SameOpener-left code code' more s t (inr (op, p, q)) = inr (op, OpensAt-append code more s op p, q)

skip-Sim :
    (f : ℕ → ℕ) (b c : Builder) (i : Instruction)
    → IsWellFormed b
    → is_nop i.operation ≡ true
    → Sim f b c
    → Sim f (advance i b) c
skip-Sim f b c i v is sim =
    let (_, _, other, not_end, _) = nop_facts i.operation is in
    let R = Follows f (advance i b) c in
    let same : scopes_after i b ≡ b.active_scopes =
      rw (not_end, (entered_context-EntersContext i.operation).1 other) refl in
    let positive =
      Zip-left (Follows f b c) (λ s. 1 ≤ s.id) b.active_scopes c.active_scopes sim.scopes
        (Opened-positive b.instructions b.active_scopes v.opened) in
    record {
      context = sim.context;
      scopes =
          subst (λ ss. Zip R ss c.active_scopes) (sym same)
            (Zip-both {T = R} b.active_scopes c.active_scopes
              (λ s t (p : Follows f b c s t) (one : 1 ≤ s.id). (
                SameOpener-left b.instructions c.instructions (i ∷ []) s t p.0,
                Visible-outside f b.variables (made i b) c.variables s.id t.id one
                    (made-IsOutside i b is) p.1,
              ))
              sim.scopes positive);
    }

-- A nop is not followed: the second builder stays.
pub skip-Removing :
    (m : List ℕ) (n : ℕ) (b c : Builder) (i : Instruction)
    → IsWellFormed b
    → is_nop i.operation ≡ true
    → Removing m n b c
    → Removing (grown m n i) (count_outputs (outputs_of i) n) (advance i b) c
skip-Removing m n b c i v is r = record {
  sim =
      skip-Sim (look (grown m n i)) b c i v is
        (grow-Sim m (map_outputs (outputs_of i) n) b c r.mapped r.sim);
  mapped = omega (
    arith,
    r.mapped,
    length-grown m n i,
    length-made_outputs i b,
    length-append b.variables (made i b),
  );
  counted = count_outputs_nops (outputs_of i) n (outputs_of_nops i is) ∙ r.counted;
}
