-- ===== src/Program/Nops/Removed.antt =====
-- Removing the nops keeps a program valid: `Program::remove_nops` of workloads/ir-workload/
-- fuzzamoto-ir/src/lib.rs.
use bitcoin_antithesis.Prelude.{
  ℕ, ◌≡◌, refl, ap, sym, ◌∙◌, true, false, List, [], ◌∷◌, map, inl, inr, arith, Bool-cases, length,
  if◌then◌else◌,
}
use bitcoin_antithesis.Partial.{done}
use bitcoin_antithesis.Operation.{Operation}
use bitcoin_antithesis.Operation.Signature.{get_input_variables}
use bitcoin_antithesis.Instruction.{Instruction}
use bitcoin_antithesis.Builder.State.{Program, Builder, new_builder, enter_scope}
use bitcoin_antithesis.Builder.Invariant.{IsWellFormed}
use bitcoin_antithesis.Builder.Invariant.Preserved.{new_builder-IsWellFormed}
use bitcoin_antithesis.Builder.Advance.{advance}
use bitcoin_antithesis.Builder.Advance.Cases.{Accepts}
use bitcoin_antithesis.Builder.Runs.{Runs, run, advance-IsWellFormed}
use bitcoin_antithesis.Builder.Runs.Valid.{IsValid}
use bitcoin_antithesis.Builder.Simulation.Accepted.{Accepts-rename}
use bitcoin_antithesis.Builder.Simulation.Step.{with_inputs}
use bitcoin_antithesis.Builder.Simulation.Programs.{length-Zip, global-Sim}
use bitcoin_antithesis.Program.Nops.{
  is_nop, map_outputs, count_outputs, outputs_of, renumber, drop_nops, remove_nops, map_inputs,
}
use bitcoin_antithesis.Program.Nops.Mapping.{look, map_inputs-total}
use bitcoin_antithesis.Program.Nops.Follow.{
  Removing, grow-Sim, grown, length-grown, made-Removing, skip-Removing,
}

abbrev pub operations : List Instruction → List Operation
operations [] = []
operations (i ∷ is) = i.operation ∷ operations is

-- The operations that are no nops, in order.
abbrev pub kept_operations : List Instruction → List Operation
kept_operations [] = []
kept_operations (i ∷ is) =
    if is_nop i.operation then kept_operations is else i.operation ∷ kept_operations is

-- The renumbered instructions without nops run in the second builder.
abbrev IsFollowed : List ℕ → ℕ → Builder → Builder → List Instruction → Type 0
IsFollowed m n b c is =
    (js : List Instruction) × (renumber m n is ≡ done js)
    × Runs c (drop_nops js)
    × (length (run is b).active_scopes ≡ length (run (drop_nops js) c).active_scopes)
    × (operations (drop_nops js) ≡ kept_operations is)

module _ (m : List ℕ) (n : ℕ) (b c : Builder) (i : Instruction) (is : List Instruction)
    (v : IsWellFormed b) (w : IsWellFormed c) (r : Removing m n b c) (accepts : Accepts b i) where
  mapped_inputs : map_inputs (grown m n i) i.inputs ≡ done (map (look (grown m n i)) i.inputs)
  mapped_inputs =
      map_inputs-total b (grown m n i) i.inputs (get_input_variables i.operation) accepts.0.0
        (omega (arith, r.mapped, length-grown m n i))

  abbrev moved : Instruction
  moved = with_inputs (map (look (grown m n i)) i.inputs) i

  moved-Accepts : Accepts c moved
  moved-Accepts =
      Accepts-rename (look (grown m n i)) b c v w
        (grow-Sim m (map_outputs (outputs_of i) n) b c r.mapped r.sim) i accepts

  made-IsFollowed :
      is_nop i.operation ≡ false
      → IsFollowed (grown m n i) (count_outputs (outputs_of i) n) (advance i b) (advance moved c) is
      → IsFollowed m n b c (i ∷ is)
  unfolding renumber drop_nops
  made-IsFollowed no_nop (js, renumbers, runs, depth, same) = (
    moved ∷ js,
    rw (renumber, mapped_inputs, renumbers),
    rw no_nop (moved-Accepts, runs),
    rw no_nop depth,
    rw no_nop (ap (λ ops. i.operation ∷ ops) same),
  )

  skip-IsFollowed :
      is_nop i.operation ≡ true
      → IsFollowed (grown m n i) (count_outputs (outputs_of i) n) (advance i b) c is
      → IsFollowed m n b c (i ∷ is)
  unfolding renumber drop_nops
  skip-IsFollowed skipped (js, renumbers, runs, depth, same) = (
    moved ∷ js,
    rw (renumber, mapped_inputs, renumbers),
    rw skipped runs,
    rw skipped depth,
    rw skipped same,
  )

renumber-IsFollowed :
    (m : List ℕ) (n : ℕ) (b c : Builder) (is : List Instruction)
    → IsWellFormed b
    → IsWellFormed c
    → Removing m n b c
    → Runs b is
    → IsFollowed m n b c is
unfolding renumber drop_nops
renumber-IsFollowed m n b c [] v w r runs =
    ([], refl, tt, length-Zip _ b.active_scopes c.active_scopes r.sim.scopes, refl)
renumber-IsFollowed m n b c (i ∷ is) v w r (accepts, runs) =
    let v' = advance-IsWellFormed b i v accepts in
    elim (Bool-cases (is_nop i.operation)) [
      | inl skipped ↦ skip-IsFollowed m n b c i is v w r accepts skipped (
          renumber-IsFollowed (grown m n i) (count_outputs (outputs_of i) n) (advance i b) c is v' w
            (skip-Removing m n b c i v skipped r) runs)
      | inr no_nop ↦
          let j = moved m n b c i is v w r accepts in
          let accepts' = moved-Accepts m n b c i is v w r accepts in
          made-IsFollowed m n b c i is v w r accepts no_nop (
            renumber-IsFollowed (grown m n i) (count_outputs (outputs_of i) n) (advance i b)
              (advance j c) is v' (advance-IsWellFormed c j w accepts')
              (made-Removing m n b c i v accepts no_nop r) runs)
    ]

start-Removing : (p : Program) → Removing [] 0 (new_builder p.context) (new_builder p.context)
unfolding new_builder enter_scope
start-Removing p =
    let v = new_builder-IsWellFormed p.context in
    record {
      sim =
          global-Sim (look []) (new_builder p.context) (new_builder p.context) v v refl refl refl
            (λ idx t found. cc);
      mapped = refl;
      counted = refl;
    }

-- Removing the nops of a valid program does not panic and gives a valid program of the same
-- context, whose operations are those of the program that are no nops, in order.
pub remove_nops-IsValid :
    (p : Program)
    → IsValid p
    → (r : Program) × (remove_nops p ≡ done r)
      × IsValid r
      × (r.context ≡ p.context)
      × (operations r.instructions ≡ kept_operations p.instructions)
unfolding remove_nops
remove_nops-IsValid p valid =
    let v = new_builder-IsWellFormed p.context in
    let (js, renumbers, runs, depth, same) =
      renumber-IsFollowed [] 0 (new_builder p.context) (new_builder p.context) p.instructions v v
        (start-Removing p) valid.0 in
    (
      record p { instructions = drop_nops js },
      rw (remove_nops, renumbers),
      (runs, sym depth ∙ valid.1),
      refl,
      same,
    )
