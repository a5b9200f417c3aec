-- ===== src/Builder/Simulation/Exchange.antt =====
-- An instruction with other inputs: what follows it is accepted as before.
use bitcoin_antithesis.Prelude.{
  ℕ, ◌+◌, ◌<◌, ◌≡◌, refl, ap, sym, ◌∙◌, subst, List, [], ◌∷◌, inl, inr, arith, length,
}
use bitcoin_antithesis.Instruction.{Instruction}
use bitcoin_antithesis.Builder.State.{Scope, ScopedVariable, Builder}
use bitcoin_antithesis.Builder.Invariant.{Opened, IsWellFormed}
use bitcoin_antithesis.Builder.Advance.{made, advance}
use bitcoin_antithesis.Builder.Advance.Cases.{Accepts}
use bitcoin_antithesis.Builder.Programs.{remap}
use bitcoin_antithesis.Builder.Runs.{Runs, run, advance-IsWellFormed}
use bitcoin_antithesis.Builder.Runs.Valid.{rename_zero}
use bitcoin_antithesis.Builder.Simulation.{Zip, Visible, Follows}
use bitcoin_antithesis.Builder.Simulation.Step.{with_inputs, advance-Sim}
use bitcoin_antithesis.Builder.Simulation.Programs.{length-Zip, Shifted, run-Shifted}

remap_zero : (idx : ℕ) → remap 0 0 idx ≡ idx
remap_zero idx = ground arith

Visible-refl : (vars : List ScopedVariable) (id : ℕ) → Visible (remap 0 0) vars vars id id
Visible-refl vars id idx v found = rw (remap_zero idx) found

Follows-refl :
    (b : Builder) (scopes : List Scope)
    → Opened b.instructions scopes
    → Zip (Follows (remap 0 0) b b) scopes scopes
Follows-refl b [] o = absurd o
Follows-refl b (s ∷ []) o = ((inl (o.0, o.0), Visible-refl b.variables s.id), tt)
Follows-refl b (s ∷ t ∷ rest) ((at, i, begun, found, _, _), _, o) = (
  (
    inr (i.operation, (at, i, begun, found, refl), (at, i, begun, found, refl)),
    Visible-refl b.variables s.id,
  ),
  Follows-refl b (t ∷ rest) o,
)

module _ (b : Builder) (i : Instruction) (inputs : List ℕ) (v : IsWellFormed b)
    (accepts : Accepts b i) (accepts' : Accepts b (with_inputs inputs i)) where
  exchanged : Shifted 0 0 (advance i b) (advance (with_inputs inputs i) b)
  exchanged = record {
    sim =
        advance-Sim (remap 0 0) b b i inputs v accepts
          (record { context = refl; scopes = Follows-refl b b.active_scopes v.opened })
          (λ k (lt : k < length (made i b)). remap_zero (length b.variables + k));
    past = omega arith;
    ahead = omega arith;
  }

  -- The instructions after it run on, to scopes of the same depth.
  pub run-exchanged :
      (rest : List Instruction)
      → Runs (advance i b) rest
      → Runs (advance (with_inputs inputs i) b) rest
        × (length (run rest (advance (with_inputs inputs i) b)).active_scopes
            ≡ length (run rest (advance i b)).active_scopes)
  run-exchanged rest runs =
      let (runs', after) =
        run-Shifted 0 0 (advance i b) (advance (with_inputs inputs i) b) rest
          (advance-IsWellFormed b i v accepts)
          (advance-IsWellFormed b (with_inputs inputs i) v accepts') exchanged runs in
      let same = rename_zero rest in
      (
        subst (Runs (advance (with_inputs inputs i) b)) same runs',
        sym (
            length-Zip _ _ _ after.sim.scopes
            ∙ ap (λ is. length (run is (advance (with_inputs inputs i) b)).active_scopes) same),
      )
