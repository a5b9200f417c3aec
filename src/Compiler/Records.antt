-- ===== src/Compiler/Records.antt =====
-- The records of the compiler before and after a call: compiler.rs of workloads/ir-workload/
-- fuzzamoto-ir/src.
use mathlib.Core.List.{append-nil, append_assoc}
use native.Mathlib.Nat.{zero-add, suc-add}
use bitcoin_antithesis.Prelude.{
  ℕ, zero, suc, ◌+◌, ◌≡◌, refl, sym, ap, ◌∙◌, List, [], ◌∷◌, ◌++◌, arith, length, replicate,
}
use bitcoin_antithesis.Compiler.State.{CompiledAction, Compiler, Exit}

-- The variables grow, and with them the indices of their instruction; the actions grow.
pub record Grows (s t : Compiler) : Type 0 where
  pub instructions : t.output.metadata.instructions ≡ s.output.metadata.instructions
  pub action_indices : t.output.metadata.action_indices ≡ s.output.metadata.action_indices
  pub made : ℕ
  pub variables : length t.variables ≡ length s.variables + made
  pub variable_indices :
      t.output.metadata.variable_indices
      ≡ s.output.metadata.variable_indices ++ replicate made s.output.metadata.instructions
  pub more : List CompiledAction
  pub actions : t.output.actions ≡ s.output.actions ++ more

-- The note of how far compile_from has come.
abbrev pub noted : ℕ → Compiler → Compiler
noted n s = record s { last_compiled_instruction = n }

abbrev pub noted_after : {A : Type 0} → ℕ → Exit A × Compiler → Exit A × Compiler
noted_after n r = (r.0, noted n r.1)

replicate-add {ℓ} :
    {A : Type ℓ} (m n : ℕ) (a : A) → replicate m a ++ replicate n a ≡ replicate (m + n) a
replicate-add zero n a = rw zero-add
replicate-add (suc m) n a = rw suc-add (ap (◌∷◌ a) (replicate-add m n a))

pub Grows-refl : (s : Compiler) → Grows s s
Grows-refl s = record {
  instructions = refl;
  action_indices = refl;
  made = 0;
  variables = omega arith;
  variable_indices = sym (append-nil s.output.metadata.variable_indices);
  more = [];
  actions = sym (append-nil s.output.actions);
}

pub Grows-trans : {s t u : Compiler} → Grows s t → Grows t u → Grows s u
Grows-trans {s} {t} {u} g h = record {
  instructions = h.instructions ∙ g.instructions;
  action_indices = h.action_indices ∙ g.action_indices;
  made = g.made + h.made;
  variables = omega arith;
  variable_indices = rw (
    h.variable_indices,
    g.instructions,
    g.variable_indices,
    append_assoc,
    replicate-add g.made h.made s.output.metadata.instructions,
  );
  more = g.more ++ h.more;
  actions = rw (h.actions, g.actions, append_assoc);
}
