-- ===== src/Compiler/Batches/Whole.antt =====
-- Two batches against one: workloads/ir-workload/fuzzamoto-ir/src/compiler.rs.
use mathlib.Core.List.{append_assoc}
use bitcoin_antithesis.Prelude.{
  ℕ, zero, suc, ◌≤◌, arith, ◌≡◌, refl, sym, ap, ◌∙◌, subst, List, [], ◌∷◌, ◌++◌, length, drop,
}
use bitcoin_antithesis.Instruction.{Instruction}
use bitcoin_antithesis.Builder.State.{Builder}
use bitcoin_antithesis.Compiler.Bitcoin.{Library}
use bitcoin_antithesis.Compiler.State.{
  CompiledAction, Compiler, Exit, ok, err, panic, lost, diverge, and_then, ◌>>=◌, gets,
}
use bitcoin_antithesis.Compiler.Compile.{batch_steps, compile_from, set_compiled}
use bitcoin_antithesis.Compiler.Records.{noted, noted_after}
use bitcoin_antithesis.Compiler.Batches.{
  Appends, batch, drop-append, compile_from-batch, batch_steps-Appends, batch_steps-noted,
  batch_steps-append,
}

drop-both {ℓ} : {A : Type ℓ} (xs ys zs : List A) → drop (length (xs ++ ys)) (xs ++ (ys ++ zs)) ≡ zs
drop-both [] ys zs = drop-append ys zs
drop-both (x ∷ xs) ys zs = drop-both xs ys zs

drop-more {ℓ} :
    {A : Type ℓ} (n : ℕ) (xs ys : List A) → n ≤ length xs → drop n (xs ++ ys) ≡ drop n xs ++ ys
drop-more zero xs ys h = refl
drop-more (suc n) [] ys h = absurd (omega arith)
drop-more (suc n) (x ∷ xs) ys h = drop-more n xs ys (omega arith)

-- What one batch gives, where its second half gives `r` after a first half with the actions `first`.
abbrev pub IsWhole :
    List CompiledAction
    → ℕ
    → Exit (List CompiledAction) × Compiler
    → Exit (List CompiledAction) × Compiler
    → Type 0
IsWhole first n (ok second, u) whole = whole ≡ (ok (first ++ second), u)
IsWhole first n (err e, u) whole = whole ≡ (err e, noted n u)
IsWhole first n (panic, u) whole = whole ≡ (panic, noted n u)
IsWhole first n (lost cause, u) whole = whole ≡ (lost cause, noted n u)
IsWhole first n (diverge, u) whole = whole ≡ (diverge, noted n u)

module _ (lib : Library) where
  actions_given : Exit (List CompiledAction) × Compiler → List CompiledAction
  actions_given (ok new, _) = new
  actions_given _ = []

  batch-ok :
      (n before : ℕ) (r : Exit (Unit {0}) × Compiler) (first : List CompiledAction) (t : Compiler)
      → batch n before r ≡ (ok first, t)
      → (t0 : Compiler) × (r ≡ (ok tt, t0))
        × (first ≡ drop before t0.output.actions)
        × (t ≡ noted n t0)
  unfolding batch ◌>>=◌ gets set_compiled actions_given
  batch-ok n before (ok _, t0) first t e =
      (t0, refl, sym (ap actions_given e), sym (ap (λ r. r.1) e))
  batch-ok n before (err x, t0) first t e = cc
  batch-ok n before (panic, t0) first t e = cc
  batch-ok n before (lost cause, t0) first t e = cc
  batch-ok n before (diverge, t0) first t e = cc

  halves :
      (k m n : ℕ) (s t0 : Compiler) (r : Exit (Unit {0}) × Compiler)
      → Appends s t0
      → Appends t0 r.1
      → r.1 ≡ noted k r.1
      → IsWhole
          (drop (length s.output.actions) t0.output.actions)
          k
          (batch m (length t0.output.actions) (noted_after n r))
          (batch m (length s.output.actions) r)
  unfolding batch ◌>>=◌ gets set_compiled Appends
  halves k m n s t0 (ok _, u) (a, e) (b, f) same =
      ap (λ new. (ok new, noted m u))
        (rw
          (
            f,
            e,
            append_assoc,
            drop-append s.output.actions (a ++ b),
            drop-append s.output.actions a,
          )
          (ap (λ rest. a ++ rest) (sym (drop-both s.output.actions a b))))
  halves k m n s t0 (err x, u) h g same = ap (λ v. (err x, v)) same
  halves k m n s t0 (panic, u) h g same = ap (λ v. (panic, v)) same
  halves k m n s t0 (lost cause, u) h g same = ap (λ v. (lost cause, v)) same
  halves k m n s t0 (diverge, u) h g same = ap (λ v. (diverge, v)) same

  -- Steps that were done from `s` leave its note.
  keeps_note :
      (is : List Instruction) (s : Compiler)
      → batch_steps lib is s ≡ noted_after s.last_compiled_instruction (batch_steps lib is s)
  keeps_note is s = batch_steps-noted lib is s.last_compiled_instruction s

  second_half :
      (b c : Builder) (more : List Instruction) (t0 : Compiler)
      → c.instructions ≡ b.instructions ++ more
      → compile_from lib c (noted (length b.instructions) t0)
        ≡ batch
            (length c.instructions)
            (length t0.output.actions)
            (noted_after (length b.instructions) (batch_steps lib more t0))
  second_half b c more t0 e =
      compile_from-batch lib c (noted (length b.instructions) t0)
      ∙ ap
          (λ is.
            batch (length c.instructions) (length t0.output.actions)
              (batch_steps lib is (noted (length b.instructions) t0)))
          (ap (drop (length b.instructions)) e ∙ drop-append b.instructions more)
      ∙ ap (batch (length c.instructions) (length t0.output.actions))
          (batch_steps-noted lib more (length b.instructions) t0)

  both_halves :
      (b c : Builder) (more : List Instruction) (s t0 : Compiler)
      → c.instructions ≡ b.instructions ++ more
      → s.last_compiled_instruction ≤ length b.instructions
      → batch_steps lib (drop s.last_compiled_instruction b.instructions) s ≡ (ok tt, t0)
      → compile_from lib c s
        ≡ batch (length c.instructions) (length s.output.actions) (batch_steps lib more t0)
  both_halves b c more s t0 e within run =
      let from = s.last_compiled_instruction in
      compile_from-batch lib c s
      ∙ ap (batch (length c.instructions) (length s.output.actions)) (
          ap (λ is. batch_steps lib is s)
            (ap (drop from) e ∙ drop-more from b.instructions more within)
          ∙ batch_steps-append lib (drop from b.instructions) more s
          ∙ ap (λ r. and_then r λ _. batch_steps lib more) run)

  -- Compiling the instructions of a builder, and then those that were added to it, gives what one batch
  -- from the same compiler gives: the actions of both halves, in order, and the same compiler; if the
  -- second half fails, one batch fails in the same way, without a note of the first half.
  pub compile_from-IsWhole :
      (b c : Builder) (more : List Instruction) (s t : Compiler) (first : List CompiledAction)
      → c.instructions ≡ b.instructions ++ more
      → s.last_compiled_instruction ≤ length b.instructions
      → compile_from lib b s ≡ (ok first, t)
      → IsWhole first s.last_compiled_instruction (compile_from lib c t) (compile_from lib c s)
  compile_from-IsWhole b c more s t first e within run =
      let steps = batch_steps lib (drop s.last_compiled_instruction b.instructions) s in
      let (t0, ran, actions, note) =
        batch-ok (length b.instructions) (length s.output.actions) steps first t
          (sym (compile_from-batch lib b s) ∙ run) in
      let from_s : Appends s t0 =
        subst (λ r. Appends s r.1) ran
          (batch_steps-Appends lib (drop s.last_compiled_instruction b.instructions) s) in
      let same : t0.last_compiled_instruction ≡ s.last_compiled_instruction =
        ap (λ r. r.1.last_compiled_instruction) (sym ran ∙ keeps_note _ s) in
      rw (note, actions, second_half b c more t0 e, both_halves b c more s t0 e within ran)
        (halves s.last_compiled_instruction (length c.instructions) (length b.instructions) s t0
          (batch_steps lib more t0) from_s (batch_steps-Appends lib more t0)
          (subst (λ k. (batch_steps lib more t0).1 ≡ noted k (batch_steps lib more t0).1) same
            (ap (λ r. r.1) (keeps_note more t0))))
