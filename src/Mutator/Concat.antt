-- ===== src/Mutator/Concat.antt =====
-- Concatenation of programs: workloads/ir-workload/fuzzamoto-ir/src/mutators/concat.rs.
use bitcoin_antithesis.Prelude.{◌≡◌, refl, ap, sym, ◌∙◌, ◌++◌, map, inl, inr, arith, length}
use bitcoin_antithesis.Builder.State.{
  Program, Builder, ok, ◌>>◌, new_builder, enter_scope, variable_count,
}
use bitcoin_antithesis.Builder.Invariant.{IsWellFormed}
use bitcoin_antithesis.Builder.Invariant.Preserved.{new_builder-IsWellFormed}
use bitcoin_antithesis.Builder.Programs.{
  remap, rename, append_program, append_program_without_threshold, finalize, from_program,
}
use bitcoin_antithesis.Builder.Runs.{Runs, run, run-IsWellFormed}
use bitcoin_antithesis.Builder.Runs.Valid.{
  IsValid, append_program_cases, finalize_cases, from_program_cases, new_builder-context,
}
use bitcoin_antithesis.Builder.Simulation.Programs.{
  Runs-append, run-append, run-context, run-IsValid, length-Zip, Shifted, run-Shifted, global-Sim,
}
use bitcoin_antithesis.Mutator.{Mutated, changed, finish}

unfoldable pub concat : Program → Program → Mutated
concat program splice_with = finish (
    (do
      append_program_without_threshold program 0
      λ b. append_program_without_threshold splice_with (variable_count b) b
      finalize)
      (new_builder program.context))

abbrev pub program_of : Builder → Program
program_of b = record { context = b.context; instructions = b.instructions }

pub append_own :
    (p : Program)
    → Runs (new_builder p.context) p.instructions
    → append_program p 0 0 (new_builder p.context)
      ≡ ok tt (run p.instructions (new_builder p.context))
unfolding from_program
append_own p runs = elim (from_program_cases p) [
  | inl (_, appends) ↦ appends
  | inr (refused, _) ↦ absurd (refused runs)
]

pub finalize_closed :
    (b : Builder) → IsWellFormed b → length b.active_scopes ≡ 1 → finalize b ≡ ok (program_of b) b
finalize_closed b v one = elim (finalize_cases b v) [
  | inl (_, made) ↦ made
  | inr (open_still, _) ↦ absurd (open_still one)
]

-- The builder that appending a valid program to a builder in the global scope leaves.
pub append_shifted :
    (b : Builder) (p : Program)
    → IsWellFormed b
    → length b.active_scopes ≡ 1
    → p.context ≡ b.context
    → IsValid p
    → (let is = map (rename (remap 0 (length b.variables))) p.instructions in
        Runs b is
        × (append_program_without_threshold p (variable_count b) b ≡ ok tt (run is b))
        × (length (run is b).active_scopes ≡ 1))
unfolding append_program_without_threshold variable_count new_builder enter_scope
append_shifted b p v one same valid =
    let n = length b.variables in
    let start = new_builder p.context in
    let fresh = new_builder-IsWellFormed p.context in
    let shifted : Shifted 0 n start b = record {
      sim = global-Sim (remap 0 n) start b fresh v same refl one (λ idx t found. cc);
      past = omega arith;
      ahead = omega arith;
    } in
    let (runs, after) = run-Shifted 0 n start b p.instructions fresh v shifted valid.0 in
    let closed =
      sym (
        length-Zip _ (run p.instructions start).active_scopes
          (run (map (rename (remap 0 n)) p.instructions) b).active_scopes after.sim.scopes)
      ∙ valid.1 in
    elim (append_program_cases b p 0 n v same) [
      | inl (_, appends) ↦ (runs, appends, closed)
      | inr (refused, _) ↦ absurd (refused runs)
    ]

-- Concatenating two valid programs of one context succeeds. The result is valid: it is the first
-- program followed by the second, whose inputs are raised by the number of the first one's variables.
pub concat-IsValid :
    (p q : Program)
    → IsValid p
    → IsValid q
    → q.context ≡ p.context
    → (r : Program) × (concat p q ≡ changed r)
      × IsValid r
      × (r.context ≡ p.context)
      × (r.instructions
          ≡ p.instructions
            ++ map
                (rename (remap 0 (length (run p.instructions (new_builder p.context)).variables)))
                q.instructions)
unfolding concat append_program_without_threshold
concat-IsValid p q valid valid' same =
    let start = new_builder p.context in
    let b = run p.instructions start in
    let n = length b.variables in
    let js = map (rename (remap 0 n)) q.instructions in
    let v = new_builder-IsWellFormed p.context in
    let w = run-IsWellFormed start p.instructions v valid.0 in
    let here = same ∙ new_builder-context p.context ∙ sym (run-context start p.instructions) in
    let first = append_own p valid.0 in
    let (runs, second, closed) = append_shifted b q w valid.1 here valid' in
    let whole = run-append start p.instructions js in
    let (ok_r, context, code) =
      run-IsValid p.context (p.instructions ++ js)
        (Runs-append start p.instructions js valid.0 runs)
        (ap (λ x. length x.active_scopes) whole ∙ closed) in
    let made = finalize_closed (run js b) (run-IsWellFormed b js w runs) closed in
    (
      program_of (run (p.instructions ++ js) start),
      rw (first, second, made) (ap (λ x. changed (program_of x)) (sym whole)),
      ok_r,
      context,
      code,
    )
