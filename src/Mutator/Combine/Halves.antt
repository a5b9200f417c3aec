-- ===== src/Mutator/Combine/Halves.antt =====
-- Splicing at a position of the global scope makes a valid program: workloads/ir-workload/
-- fuzzamoto-ir/src/mutators/combine.rs.
use mathlib.Core.List.{append_assoc, append-nil}
use bitcoin_antithesis.Prelude.{
  ℕ, ◌-◌, ◌<◌, ◌≡◌, ap, sym, ◌∙◌, List, [], ◌∷◌, ◌++◌, map, inl, inr, arith, length, take, drop,
  take-append-drop, get_elem?-append, lt-get_elem?,
}
use bitcoin_antithesis.Instruction.{Instruction, global}
use bitcoin_antithesis.Builder.State.{
  Program, ScopedVariable, Builder, IndexedVariable, ok, new_builder, variable_count,
}
use bitcoin_antithesis.Builder.Invariant.{IsWellFormed}
use bitcoin_antithesis.Builder.Invariant.Preserved.{new_builder-IsWellFormed}
use bitcoin_antithesis.Builder.Advance.{advance, made, top_context}
use bitcoin_antithesis.Builder.Programs.{
  remap, rename, append_all, append_program_without_threshold,
}
use bitcoin_antithesis.Builder.Runs.{Runs, run, run-IsWellFormed, append_all_cases, variables_grow}
use bitcoin_antithesis.Builder.Runs.Valid.{IsValid, append_program_cases, new_builder-context}
use bitcoin_antithesis.Builder.Simulation.Programs.{
  Runs-append, Runs-split, run-append, run-context, run-IsValid, length-Zip, Shifted, run-Shifted,
  global-Sim,
}
use bitcoin_antithesis.Program.Positions.{global_top}
use bitcoin_antithesis.Mutator.{changed, finish}
use bitcoin_antithesis.Mutator.Concat.{program_of, finalize_closed, append_shifted}
use bitcoin_antithesis.Mutator.Combine.{append_second_half, combine_at, IsSpliced}

run-variables :
    (b : Builder) (is : List Instruction)
    → (more : List ScopedVariable) × ((run is b).variables ≡ b.variables ++ more)
run-variables b [] = ([], sym (append-nil b.variables))
run-variables b (i ∷ is) =
    let (more, grown) = run-variables (advance i b) is in
    (made i b ++ more, grown ∙ append_assoc b.variables (made i b) more)

remap-below : (threshold offset idx : ℕ) → idx < threshold → remap threshold offset idx ≡ idx
remap-below threshold offset idx below = ground arith

-- A builder that has gone on, and is back in the global scope, can follow itself.
resume :
    (b : Builder) (is : List Instruction)
    → IsWellFormed b
    → Runs b is
    → length b.active_scopes ≡ 1
    → length (run is b).active_scopes ≡ 1
    → Shifted (length b.variables) (length (run is b).variables - length b.variables) b (run is b)
resume b is v runs one one' =
    let n = length b.variables in
    let m = length (run is b).variables - n in
    let (more, grown) = run-variables b is in
    record {
      sim =
          global-Sim (remap n m) b (run is b) v (run-IsWellFormed b is v runs)
            (sym (run-context b is)) one one'
            (λ idx t found.
              rw (remap-below n m idx (lt-get_elem? b.variables idx found), grown)
                (get_elem?-append b.variables more idx found));
      past = omega arith;
      ahead = omega (arith, variables_grow b is);
    }

second_half :
    (p : Program) (c : Builder) (is : List Instruction) (n : ℕ)
    → IsWellFormed c
    → p.context ≡ c.context
    → Runs c (map (rename (remap n (length c.variables - n))) is)
    → append_second_half p is n c
      ≡ ok tt (run (map (rename (remap n (length c.variables - n))) is) c)
unfolding append_second_half variable_count
second_half p c is n w same runs =
    elim (append_program_cases c (record p { instructions = is }) n (length c.variables - n) w
      same) [ inl (_, appends) ↦ appends | inr (refused, _) ↦ absurd (refused runs) ]

first_half :
    (b : Builder) (is : List Instruction)
    → IsWellFormed b
    → Runs b is
    → (vs : List IndexedVariable) × (append_all is b ≡ ok vs (run is b))
first_half b is v runs = elim (append_all_cases b is v) [
  | inl (_, appends) ↦ appends
  | inr (refused, _) ↦ absurd (refused runs)
]

module _ (p q : Program) (idx : ℕ) (valid : IsValid p) (valid' : IsValid q)
    (same : q.context ≡ p.context)
    (top : top_context (run (take idx p.instructions) (new_builder p.context)).active_scopes
      ≡ global) where
  abbrev start : Builder
  start = new_builder p.context

  abbrev before : Builder
  before = run (take idx p.instructions) start

  abbrev n : ℕ
  n = length before.variables

  abbrev spliced : List Instruction
  spliced = map (rename (remap 0 n)) q.instructions

  abbrev between : Builder
  between = run spliced before

  abbrev moved : List Instruction
  moved = map (rename (remap n (length between.variables - n))) (drop idx p.instructions)

  halves : Runs start (take idx p.instructions) × Runs before (drop idx p.instructions)
  halves =
      Runs-split start (take idx p.instructions) (drop idx p.instructions)
        (rw (take-append-drop idx p.instructions) valid.0)

  before-IsWellFormed : IsWellFormed before
  before-IsWellFormed =
      run-IsWellFormed start (take idx p.instructions) (new_builder-IsWellFormed p.context) halves.0

  one : length before.active_scopes ≡ 1
  one = global_top before.instructions before.active_scopes before-IsWellFormed.opened top

  before-context : before.context ≡ p.context
  before-context = run-context start (take idx p.instructions) ∙ sym (new_builder-context p.context)

  middle :
      Runs before spliced
      × (append_program_without_threshold q (variable_count before) before ≡ ok tt between)
      × (length between.active_scopes ≡ 1)
  middle = append_shifted before q before-IsWellFormed one (same ∙ sym before-context) valid'

  between-IsWellFormed : IsWellFormed between
  between-IsWellFormed = run-IsWellFormed before spliced before-IsWellFormed middle.0

  ending : Runs between moved × (length (run moved between).active_scopes ≡ 1)
  ending =
      let (runs, after) =
        run-Shifted n (length between.variables - n) before between (drop idx p.instructions)
          before-IsWellFormed between-IsWellFormed
          (resume before spliced before-IsWellFormed middle.0 one middle.2) halves.1 in
      (
        runs,
        sym (length-Zip _ _ _ after.sim.scopes)
            ∙ ap (λ x. length x.active_scopes)
                (sym (run-append start (take idx p.instructions) (drop idx p.instructions)))
            ∙ ap (λ x. length (run x start).active_scopes) (take-append-drop idx p.instructions)
            ∙ valid.1,
      )

  whole : run (take idx p.instructions ++ (spliced ++ moved)) start ≡ run moved between
  whole =
      run-append start (take idx p.instructions) (spliced ++ moved)
      ∙ run-append before spliced moved

  pub combine_at-IsSpliced :
      (r : Program) × (finish (combine_at p q idx start) ≡ changed r) × IsSpliced p q idx r
  unfolding combine_at variable_count
  combine_at-IsSpliced =
      let (vs, first) =
        first_half start (take idx p.instructions) (new_builder-IsWellFormed p.context) halves.0 in
      let last =
        second_half p between (drop idx p.instructions) n between-IsWellFormed
          (sym (run-context before spliced ∙ before-context)) ending.0 in
      let made_last =
        finalize_closed (run moved between)
          (run-IsWellFormed between moved between-IsWellFormed ending.0) ending.1 in
      let code = take idx p.instructions ++ (spliced ++ moved) in
      let runs =
        Runs-append start (take idx p.instructions) (spliced ++ moved) halves.0
          (Runs-append before spliced moved middle.0 ending.0) in
      (
        program_of (run code start),
        rw (first, middle.1, last, made_last) (ap (λ x. changed (program_of x)) (sym whole)),
        run-IsValid p.context code runs (ap (λ x. length x.active_scopes) whole ∙ ending.1),
      )
