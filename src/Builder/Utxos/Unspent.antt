-- ===== src/Builder/Utxos/Unspent.antt =====
-- The set of unspent outputs: builder.rs of workloads/ir-workload/fuzzamoto-ir/src.
use bitcoin_antithesis.Prelude.{
  ℕ, ◌≡◌, subst, sym, ◌∙◌, true, List, [], ◌∷◌, ◌++◌, inl, inr, All, All-append, All-mono,
  get_elem?-append, lt-get_elem?, length, length-append, arith,
}
use bitcoin_antithesis.Partial.{Partial, done}
use bitcoin_antithesis.Variable.{Variable}
use bitcoin_antithesis.Operation.{Operation, add_tx_input}
use bitcoin_antithesis.Operation.Signature.{
  get_input_variables, get_output_variables, get_inner_output_variables, num_outputs,
  num_inner_outputs,
}
use bitcoin_antithesis.Instruction.{Instruction}
use bitcoin_antithesis.Builder.State.{Builder, contains, insert}
use bitcoin_antithesis.Builder.Advance.{made, advance}
use bitcoin_antithesis.Builder.Sets.{NoRepeat, insert-NoRepeat, contains-insert}
use bitcoin_antithesis.Program.Nops.Follow.{length-made_outputs}
use bitcoin_antithesis.Builder.Typed.{IsAt, IsTypedIn, AllTyped}
use bitcoin_antithesis.Builder.Utxos.{count_after}

-- The instruction spends the output.
abbrev pub Spends : ℕ → Instruction → Type 0
Spends x i = (a : ℕ) × (rest : List ℕ) × (i.operation ≡ add_tx_input) × (i.inputs ≡ a ∷ x ∷ rest)

-- It is an output, and no instruction spends it.
abbrev pub IsUnspent : Builder → ℕ → Type 0
IsUnspent b x = IsAt b.variables Variable.txo x × All (λ i. ¬ Spends x i) b.instructions

pub record Tracks (b : Builder) (n : ℕ) (utxos : List ℕ) : Type 0 where
  pub counted : n ≡ length b.variables
  pub no_repeat : NoRepeat utxos
  pub unspent : (x : ℕ) → contains utxos x ≡ true → IsUnspent b x

abbrev pub instruction_of : Operation → List ℕ → Instruction
instruction_of op inputs = record { inputs = inputs; operation = op }

count_after-made :
    (b : Builder) (i : Instruction) (n : ℕ)
    → n ≡ length b.variables
    → count_after i.operation n ≡ length (b.variables ++ made i b)
unfolding num_outputs num_inner_outputs
count_after-made b i n same = omega (
  arith,
  length-append b.variables (made i b),
  length-made_outputs i b,
  length-append (get_output_variables i.operation) (get_inner_output_variables i.operation),
)

-- An output that was unspent, and that the instruction does not spend, stays unspent.
stays-IsUnspent :
    (b : Builder) (i : Instruction) (x : ℕ)
    → ¬ Spends x i
    → IsUnspent b x
    → IsUnspent (advance i b) x
stays-IsUnspent b i x other ((y, found, same), unspent) = (
  (y, get_elem?-append b.variables (made i b) x found, same),
  All-append (λ j. ¬ Spends x j) b.instructions (i ∷ []) unspent (other, tt),
)

-- No instruction spends a variable that is not there yet.
fresh-unspent :
    (b : Builder) → AllTyped b → All (λ i. ¬ Spends (length b.variables) i) b.instructions
unfolding get_input_variables
fresh-unspent b typed =
    All-mono b.instructions
      (λ i (h : IsTypedIn b.variables i) (a, rest, op, inputs).
        let takes = rw (op, inputs) at h in
        absurd (omega (arith, lt-get_elem? b.variables (length b.variables) takes.1.0.1)))
      typed

new-IsUnspent :
    (b : Builder) (i : Instruction)
    → AllTyped b
    → IsAt (b.variables ++ made i b) Variable.txo (length b.variables)
    → ¬ Spends (length b.variables) i
    → IsUnspent (advance i b) (length b.variables)
new-IsUnspent b i typed there other = (
  there,
  All-append (λ j. ¬ Spends (length b.variables) j) b.instructions (i ∷ []) (fresh-unspent b typed)
      (other, tt),
)

-- An instruction that makes an output.
pub inserted-Tracks :
    (b : Builder) (i : Instruction) (n : ℕ) (utxos : List ℕ)
    → AllTyped b
    → ((x : ℕ) → ¬ Spends x i)
    → IsAt (b.variables ++ made i b) Variable.txo (length b.variables)
    → Tracks b n utxos
    → Tracks (advance i b) (count_after i.operation n) (insert n utxos)
inserted-Tracks b i n utxos typed other there t = record {
  counted = count_after-made b i n t.counted;
  no_repeat = insert-NoRepeat n utxos t.no_repeat;
  unspent = λ x h. elim (contains-insert n x utxos h) [
    | inl same ↦
        subst (IsUnspent (advance i b)) (sym (same ∙ t.counted))
          (new-IsUnspent b i typed there (other (length b.variables)))
    | inr old ↦ stays-IsUnspent b i x (other x) (t.unspent x old)
  ];
}

-- An instruction that makes and spends none.
pub kept-Tracks :
    (b : Builder) (i : Instruction) (n : ℕ) (utxos : List ℕ)
    → ((x : ℕ) → contains utxos x ≡ true → ¬ Spends x i)
    → Tracks b n utxos
    → Tracks (advance i b) (count_after i.operation n) utxos
kept-Tracks b i n utxos other t = record {
  counted = count_after-made b i n t.counted;
  no_repeat = t.no_repeat;
  unspent = λ x h. stays-IsUnspent b i x (other x h) (t.unspent x h);
}

abbrev pub Spent : Builder → Instruction → Partial (List ℕ × ℕ) → Type 0
Spent b i result =
    (utxos : List ℕ) × (n : ℕ) × (result ≡ done (utxos, n)) × Tracks (advance i b) n utxos
