-- ===== src/Builder/Runs/Valid.antt =====
-- `is_statically_valid` and `to_builder` of workloads/ir-workload/fuzzamoto-ir/src/lib.rs decide the
-- declarative validity.
use bitcoin_antithesis.Prelude.{
  ℕ, ◌≡◌, refl, ap, ap₂, ◌∙◌, subst, true, false, List, [], ◌∷◌, ◌⊎◌, inl, inr, arith, length,
  length-map, map, Bool-cases, ◌==◌, none, some,
}
use bitcoin_antithesis.Partial.{done}
use bitcoin_antithesis.Instruction.{Instruction}
use bitcoin_antithesis.Builder.State.{
  ProgramContext, Program, Builder, ok, err, scope_still_open, new_builder, enter_scope,
}
use bitcoin_antithesis.Builder.Invariant.{IsWellFormed}
use bitcoin_antithesis.Builder.Invariant.Preserved.{new_builder-IsWellFormed}
use bitcoin_antithesis.Builder.Advance.{Refused}
use bitcoin_antithesis.Builder.Programs.{
  context_eq, remap, rename, append_program, from_program, finalize, is_statically_valid,
  to_builder,
}
use bitcoin_antithesis.Builder.Runs.{Runs, run, run-IsWellFormed, append_all_cases}

-- Every instruction is accepted in turn, and only the global scope is open at the end.
abbrev pub IsValid : Program → Type 0
IsValid p =
    Runs (new_builder p.context) p.instructions
    × (length (run p.instructions (new_builder p.context)).active_scopes ≡ 1)

pub context_eq_refl : (x : ProgramContext) → context_eq x x ≡ true
unfolding context_eq
context_eq_refl x = ground arith

remap-zero : (xs : List ℕ) → map (remap 0 0) xs ≡ xs
remap-zero [] = refl
remap-zero (x ∷ xs) = ap₂ ◌∷◌ (ground arith) (remap-zero xs)

pub rename_zero : (is : List Instruction) → map (rename (remap 0 0)) is ≡ is
rename_zero [] = refl
rename_zero (i ∷ is) = ap₂ ◌∷◌ (ground (arith, remap-zero i.inputs)) (rename_zero is)

pub finalize_cases :
    (b : Builder)
    → IsWellFormed b
    → ((length b.active_scopes ≡ 1)
        × (finalize b ≡ ok (record { context = b.context; instructions = b.instructions }) b))
      ⊎ (¬ (length b.active_scopes ≡ 1) × (finalize b ≡ err scope_still_open b))
unfolding finalize
finalize_cases b v =
    let same : length b.active_scopes_set ≡ length b.active_scopes =
      ap length v.tracked ∙ length-map (λ s. s.id) b.active_scopes in
    elim (Bool-cases (length b.active_scopes == 1)) [
      | inl one ↦ inl (ground arith, ground (arith, same))
      | inr other ↦ inr ((λ e. ground arith), ground (arith, same))
    ]

-- Appending a program of the context of a well formed builder appends its renamed instructions, if
-- each is accepted in turn, and is refused otherwise.
pub append_program_cases :
    (b : Builder) (p : Program) (threshold offset : ℕ)
    → IsWellFormed b
    → p.context ≡ b.context
    → (let is = map (rename (remap threshold offset)) p.instructions in
        (Runs b is × (append_program p threshold offset b ≡ ok tt (run is b)))
        ⊎ (¬ Runs b is × Refused (append_program p threshold offset b)))
unfolding append_program
append_program_cases b p threshold offset v same =
    let equal : context_eq p.context b.context ≡ true = rw same (context_eq_refl b.context) in
    elim (append_all_cases b (map (rename (remap threshold offset)) p.instructions) v) [
      | inr (refused, (e, c, gone)) ↦ inr (refused, (e, c, rw (equal, gone)))
      | inl (runs, (vs, all)) ↦ inl (runs, rw (equal, all))
    ]

pub new_builder-context : (context : ProgramContext) → context ≡ (new_builder context).context
unfolding new_builder enter_scope
new_builder-context context = refl

pub from_program_cases :
    (p : Program)
    → (Runs (new_builder p.context) p.instructions
        × (from_program p ≡ ok tt (run p.instructions (new_builder p.context))))
      ⊎ (¬ Runs (new_builder p.context) p.instructions × Refused (from_program p))
unfolding from_program
from_program_cases p =
    subst
      (λ is.
        (Runs (new_builder p.context) is
          × (from_program p ≡ ok tt (run is (new_builder p.context))))
        ⊎ (¬ Runs (new_builder p.context) is × Refused (from_program p)))
      (rename_zero p.instructions)
      (append_program_cases (new_builder p.context) p 0 0 (new_builder-IsWellFormed p.context)
        (new_builder-context p.context))

-- The check of a program never panics, and answers `true` exactly for the programs in which every
-- instruction is accepted in turn and every block is closed.
pub is_statically_valid_cases :
    (p : Program)
    → ((is_statically_valid p ≡ done true) × IsValid p)
      ⊎ ((is_statically_valid p ≡ done false) × ¬ IsValid p)
unfolding is_statically_valid
is_statically_valid_cases p = elim (from_program_cases p) [
  | inr (refused, (e, c, gone)) ↦ inr (rw gone, (λ valid. refused valid.0))
  | inl (runs, builds) ↦
      elim (finalize_cases (run p.instructions (new_builder p.context)) (
        run-IsWellFormed (new_builder p.context) p.instructions (new_builder-IsWellFormed p.context)
          runs)) [
            | inl (closed, final) ↦ inl (rw (builds, final), (runs, closed))
            | inr (still, final) ↦ inr (rw (builds, final), (λ valid. still valid.1))
          ]
]

-- `to_builder` gives the builder of a program whose instructions are accepted in turn, closed or
-- not, and nothing for any other program.
pub to_builder_cases :
    (p : Program)
    → ((to_builder p ≡ done (some (run p.instructions (new_builder p.context))))
        × Runs (new_builder p.context) p.instructions)
      ⊎ ((to_builder p ≡ done none) × ¬ Runs (new_builder p.context) p.instructions)
unfolding to_builder
to_builder_cases p = elim (from_program_cases p) [
  | inr (refused, (e, c, gone)) ↦ inr (rw gone, refused)
  | inl (runs, builds) ↦ inl (rw builds, runs)
]

pub is_statically_valid-IsValid : (p : Program) → is_statically_valid p ≡ done true → IsValid p
is_statically_valid-IsValid p valid = elim (is_statically_valid_cases p) [
  | inl (_, is) ↦ is
  | inr (answers, _) ↦ cc
]
