-- ===== src/Builder/Utxos/Collected.antt =====
-- The outputs that `get_random_utxos` chooses from are unspent: builder.rs of workloads/ir-workload/
-- fuzzamoto-ir/src.
use bitcoin_antithesis.Prelude.{
  ℕ, ◌≡◌, refl, subst, sym, true, List, [], ◌∷◌, inl, inr, Bool-cases, get_elem?-end, arith,
}
use bitcoin_antithesis.Variable.{Variable}
use bitcoin_antithesis.Operation.{Operation, take_txo, load_txo, add_tx_input}
use bitcoin_antithesis.Operation.Signature.{
  get_input_variables, get_output_variables, get_inner_output_variables, num_outputs,
  num_inner_outputs,
}
use bitcoin_antithesis.Builder.State.{ScopedVariable, Builder, contains, insert, remove}
use bitcoin_antithesis.Builder.Append.{scope_for}
use bitcoin_antithesis.Builder.Sets.{contains-remove, remove-NoRepeat, removed}
use bitcoin_antithesis.Builder.Typed.{HasTypes, AllTyped}
use bitcoin_antithesis.Builder.Advance.{advance}
use bitcoin_antithesis.Builder.Utxos.{count_after, spend}
use bitcoin_antithesis.Builder.Utxos.Unspent.{
  Tracks, instruction_of, inserted-Tracks, kept-Tracks, Spent,
}

three_inputs :
    (vars : List ScopedVariable) (inputs : List ℕ) (u v w : Variable)
    → HasTypes vars inputs (u ∷ v ∷ w ∷ [])
    → (a : ℕ) × (x : ℕ) × (c : ℕ) × (inputs ≡ a ∷ x ∷ c ∷ [])
three_inputs vars [] u v w h = absurd h
three_inputs vars (_ ∷ []) u v w h = absurd h.1
three_inputs vars (_ ∷ _ ∷ []) u v w h = absurd h.1.1
three_inputs vars (a ∷ x ∷ c ∷ []) u v w h = (a, x, c, refl)
three_inputs vars (_ ∷ _ ∷ _ ∷ _ ∷ _) u v w h = absurd h.1.1.1

no_outputs : (n : ℕ) → count_after add_tx_input n ≡ n
unfolding num_outputs num_inner_outputs get_output_variables get_inner_output_variables
no_outputs n = omega arith

-- The input of a transaction spends the output that it takes, if that was unspent.
spend_at :
    (b : Builder) (a x c n : ℕ) (utxos : List ℕ)
    → Tracks b n utxos
    → Spent b
        (instruction_of add_tx_input (a ∷ x ∷ c ∷ []))
        (spend add_tx_input (a ∷ x ∷ c ∷ []) n utxos)
unfolding spend
spend_at b a x c n utxos t =
    let i = instruction_of add_tx_input (a ∷ x ∷ c ∷ []) in
    elim (Bool-cases (contains utxos x)) [
      | inl there ↦
          let fewer : Tracks b n (remove x utxos) = record {
            counted = t.counted;
            no_repeat = remove-NoRepeat x utxos t.no_repeat;
            unspent = λ y h. t.unspent y (contains-remove x y utxos h);
          } in
          (
            remove x utxos,
            count_after add_tx_input n,
            rw there refl,
            kept-Tracks b i n (remove x utxos)
                (λ y h (_, _, _, same).
                  let taken : x ≡ y = cc in
                  let gone = removed x utxos t.no_repeat in
                  let still = subst (λ z. contains (remove x utxos) z ≡ true) (sym taken) h in cc)
                fewer,
          )
      | inr absent ↦ (
        utxos,
        n,
        rw absent refl,
        subst (λ k. Tracks (advance i b) k utxos) (no_outputs n)
            (kept-Tracks b i n utxos
              (λ y h (_, _, _, same).
                let taken : x ≡ y = cc in
                let there = subst (λ z. contains utxos z ≡ true) (sym taken) h in cc)
              t),
      )
    ]

add_tx_input-Spent :
    (b : Builder) (inputs : List ℕ) (n : ℕ) (utxos : List ℕ)
    → HasTypes b.variables inputs (Variable.mut_tx_inputs ∷ Variable.txo ∷ Variable.sequence ∷ [])
    → Tracks b n utxos
    → Spent b (instruction_of add_tx_input inputs) (spend add_tx_input inputs n utxos)
add_tx_input-Spent b inputs n utxos typed t =
    let (a, x, c, three) =
      three_inputs b.variables inputs Variable.mut_tx_inputs Variable.txo Variable.sequence typed in
    subst (λ ins. Spent b (instruction_of add_tx_input ins) (spend add_tx_input ins n utxos))
      (sym three) (spend_at b a x c n utxos t)

pub spend-Spent :
    (b : Builder) (op : Operation) (inputs : List ℕ) (n : ℕ) (utxos : List ℕ)
    → AllTyped b
    → HasTypes b.variables inputs (get_input_variables op)
    → Tracks b n utxos
    → Spent b (instruction_of op inputs) (spend op inputs n utxos)
unfolding spend get_input_variables get_output_variables scope_for
spend-Spent b take_txo inputs n utxos all typed t = (
  insert n utxos,
  count_after take_txo n,
  refl,
  inserted-Tracks b (instruction_of take_txo inputs) n utxos all (λ x (_, _, same, _). cc)
      (_, get_elem?-end b.variables _ _, refl) t,
)
spend-Spent b (load_txo p) inputs n utxos all typed t = (
  insert n utxos,
  count_after (load_txo p) n,
  refl,
  inserted-Tracks b (instruction_of (load_txo p) inputs) n utxos all (λ x (_, _, same, _). cc)
      (_, get_elem?-end b.variables _ _, refl) t,
)
spend-Spent b add_tx_input inputs n utxos all typed t = add_tx_input-Spent b inputs n utxos typed t
spend-Spent b op inputs n utxos all typed t = (
  utxos,
  count_after op n,
  refl,
  kept-Tracks b (instruction_of op inputs) n utxos (λ x _ (_, _, same, _). cc) t,
)
