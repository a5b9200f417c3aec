-- ===== src/Builder/Simulation/Accepted.antt =====
-- What the first builder accepts, the second accepts renamed.
use bitcoin_antithesis.Prelude.{ℕ, ◌≡◌, refl, subst, List, [], ◌∷◌, map, inl, inr}
use bitcoin_antithesis.Variable.{Variable}
use bitcoin_antithesis.Operation.{Operation, load_node, load_connection, load_connection_type}
use bitcoin_antithesis.Operation.Signature.{get_input_variables}
use bitcoin_antithesis.Instruction.{Instruction}
use bitcoin_antithesis.Builder.State.{Scope, Builder, is_scope_active}
use bitcoin_antithesis.Builder.Checks.{InScope, HasInputs, NamesContext}
use bitcoin_antithesis.Builder.Invariant.{IsWellFormed}
use bitcoin_antithesis.Builder.Advance.{Closes, Opens}
use bitcoin_antithesis.Builder.Advance.Cases.{Accepts}
use bitcoin_antithesis.Builder.Programs.{rename}
use bitcoin_antithesis.Builder.Simulation.{Zip, SameOpener, Follows, Sim}
use bitcoin_antithesis.Builder.Simulation.Stacks.{Zip-active}

module _ (f : ℕ → ℕ) (b c : Builder) (v : IsWellFormed b) (w : IsWellFormed c)
    (sim : Sim f b c) where
  InScope-rename : (idx : ℕ) (t : Variable) → InScope b idx t → InScope c (f idx) t
  unfolding is_scope_active
  InScope-rename idx t (id, found, active) =
      let (id', found', active') =
        Zip-active f b.variables c.variables b.active_scopes c.active_scopes idx id t
          (λ x y (r : Follows f b c x y). r.1) sim.scopes found (rw v.tracked at active) in
      (id', found', rw w.tracked active')

  HasInputs-rename :
      (inputs : List ℕ) (ts : List Variable) → HasInputs b inputs ts → HasInputs c (map f inputs) ts
  HasInputs-rename [] [] h = tt
  HasInputs-rename (idx ∷ inputs) (t ∷ ts) h =
      (InScope-rename idx t h.0, HasInputs-rename inputs ts h.1)
  HasInputs-rename [] (_ ∷ _) h = h
  HasInputs-rename (_ ∷ _) [] h = h

  NamesContext-same : (op : Operation) → NamesContext b op → NamesContext c op
  NamesContext-same (load_node idx) h = rw (← sim.context) h
  NamesContext-same (load_connection idx) h = rw (← sim.context) h
  NamesContext-same (load_connection_type t) h = h
  NamesContext-same _ h = h

  top-Follows :
      (s : Scope) (rest : List Scope) (ss ts : List Scope)
      → ss ≡ s ∷ rest
      → Zip (Follows f b c) ss ts
      → (t : Scope) × (rest' : List Scope) × (ts ≡ t ∷ rest') × Follows f b c s t
  top-Follows s rest [] ts e z = cc
  top-Follows s rest (x ∷ ss) [] e z = absurd z
  top-Follows s rest (x ∷ ss) (t ∷ ts) e z =
      let same : x ≡ s = cc in (t, ts, refl, subst (λ y. Follows f b c y t) same z.0)

  opener-follows :
      (s t : Scope) (begin : Operation)
      → Opens b s begin
      → SameOpener b.instructions c.instructions s t
      → Opens c t begin
  opener-follows s t begin (at, i, begun, found, is) (inl global) = cc
  opener-follows s t begin (at, i, begun, found, is) (inr (op, (at', i', begun', found', is'), q)) =
      let same : op ≡ begin = cc in subst (Opens c t) same q

  Closes-follows : (op : Operation) → Closes b op → Closes c op
  Closes-follows op closes ends =
      let (s, rest, begin, stack, opened, match) = closes ends in
      let (t, rest', stack', (same, _)) =
        top-Follows s rest b.active_scopes c.active_scopes stack sim.scopes in
      (t, rest', begin, stack', opener-follows s t begin opened same, match)

  pub Accepts-rename : (i : Instruction) → Accepts b i → Accepts c (rename f i)
  Accepts-rename i ((inputs, named), closes) = (
    (
      HasInputs-rename i.inputs (get_input_variables i.operation) inputs,
      NamesContext-same i.operation named,
    ),
    Closes-follows i.operation closes,
  )
