-- ===== src/Builder/Utxos/Chosen.antt =====
-- The outputs that `get_random_utxos` gives are unspent: builder.rs of workloads/ir-workload/
-- fuzzamoto-ir/src.
use bitcoin_antithesis.Prelude.{
  ℕ, suc, ◌≡◌, refl, ap, ◌∙◌, true, List, [], ◌∷◌, some, inl, inr, ◌==◌, Bool-cases, All, All-mono,
  All-get, get_elem?, length, arith,
}
use bitcoin_antithesis.Partial.{done}
use bitcoin_antithesis.Variable.{Variable, var_eq, var_eq_refl}
use bitcoin_antithesis.Instruction.{Instruction}
use bitcoin_antithesis.Builder.State.{
  ProgramContext, IndexedVariable, Builder, contains, is_scope_active, new_builder, enter_scope,
}
use bitcoin_antithesis.Builder.Append.{scoped}
use bitcoin_antithesis.Builder.Checks.{InScope}
use bitcoin_antithesis.Builder.Typed.{AllTyped, run-AllTyped, HasInputs-HasTypes}
use bitcoin_antithesis.Operation.Signature.{get_input_variables}
use bitcoin_antithesis.Builder.Advance.{advance}
use bitcoin_antithesis.Builder.Runs.{Runs, run}
use bitcoin_antithesis.Builder.Utxos.{collect_utxos, utxo_variables, choose_utxos, get_random_utxos}
use bitcoin_antithesis.Builder.Simulation.Programs.{run-instructions}
use bitcoin_antithesis.Builder.Utxos.Unspent.{Spends, IsUnspent, Tracks}
use bitcoin_antithesis.Builder.Utxos.Collected.{spend-Spent}

-- What the documentation of `rand` says of the choice of several: they are elements of the sequence.
pub record IsSelection (choose_multiple : List IndexedVariable → ℕ → List IndexedVariable)
    : Type 0 where
  pub selected :
      (xs : List IndexedVariable) (n : ℕ)
      → All (λ y. (k : ℕ) × (get_elem? xs k ≡ some y)) (choose_multiple xs n)

collect_utxos-Tracks :
    (b : Builder) (is : List Instruction) (n : ℕ) (utxos : List ℕ)
    → AllTyped b
    → Runs b is
    → Tracks b n utxos
    → (out : List ℕ) × (m : ℕ) × (collect_utxos is n utxos ≡ done out) × Tracks (run is b) m out
unfolding collect_utxos
collect_utxos-Tracks b [] n utxos typed runs t = (utxos, n, refl, t)
collect_utxos-Tracks b (i ∷ is) n utxos typed (accepts, runs) t =
    let inputs = HasInputs-HasTypes b i.inputs (get_input_variables i.operation) accepts.0.0 in
    let (next, m, spends, t') = spend-Spent b i.operation i.inputs n utxos typed inputs t in
    let (out, k, collects, t'') =
      collect_utxos-Tracks (advance i b) is m next (run-AllTyped b (i ∷ []) (accepts, tt) typed)
        runs t' in
    (out, k, rw (collect_utxos, spends, collects) refl, t'')

contains-All : (P : ℕ → Type 0) (xs : List ℕ) → ((x : ℕ) → contains xs x ≡ true → P x) → All P xs
contains-All P [] h = tt
contains-All P (x ∷ xs) h =
    let here : (x == x) ≡ true = ground arith in
    (
      h x (rw here refl),
      contains-All P xs (λ y there.
          h y
            (elim (Bool-cases (y == x)) [ inl same ↦ rw same refl | inr other ↦ rw other there ])),
    )

-- An output in scope that no instruction spends.
abbrev pub IsSpendable : Builder → IndexedVariable → Type 0
IsSpendable b v =
    (v.var ≡ Variable.txo)
    × InScope b v.index Variable.txo
    × All (λ i. ¬ Spends v.index i) b.instructions

utxo_variables-IsSpendable :
    (b : Builder) (utxos : List ℕ)
    → All (IsUnspent b) utxos
    → (vs : List IndexedVariable) × (utxo_variables b utxos ≡ done vs) × All (IsSpendable b) vs
unfolding utxo_variables
utxo_variables-IsSpendable b [] h = ([], refl, tt)
utxo_variables-IsSpendable b (x ∷ utxos) (((y, found, same), unspent), h) =
    let (vs, keeps, spendable) = utxo_variables-IsSpendable b utxos h in
    elim (Bool-cases (is_scope_active b y.scope_id)) [
      | inr closed ↦ (vs, rw (utxo_variables, keeps, found, closed) refl, spendable)
      | inl active ↦
          let output : var_eq y.var Variable.txo ≡ true = rw same (var_eq_refl Variable.txo) in
          (
            record { var = y.var; index = x } ∷ vs,
            rw (utxo_variables, keeps, found, active, output) refl,
            (
              (
                same,
                (y.scope_id, found ∙ ap (λ t. some (scoped y.scope_id t)) same, active),
                unspent,
              ),
              spendable,
            ),
          )
    ]

module _ (gen_range : ℕ → ℕ) (choose_multiple : List IndexedVariable → ℕ → List IndexedVariable)
    (selection : IsSelection choose_multiple) where
  choose_utxos-IsSpendable :
      (b : Builder) (vs : List IndexedVariable)
      → All (IsSpendable b) vs
      → All (IsSpendable b) (choose_utxos gen_range choose_multiple vs)
  choose_utxos-IsSpendable b [] h = tt
  choose_utxos-IsSpendable b (v ∷ vs) h =
      All-mono (choose_utxos gen_range choose_multiple (v ∷ vs))
        (λ y (k, found). All-get (IsSpendable b) (v ∷ vs) k h found)
        (selection.selected (v ∷ vs) (suc (gen_range (length (v ∷ vs)))))

  -- In a builder whose instructions have been accepted in turn, the choice of unspent outputs does
  -- not panic: its assertion holds. All that it gives are outputs in scope that no instruction of
  -- the program spends.
  pub get_random_utxos-IsSpendable :
      (context : ProgramContext) (is : List Instruction)
      → Runs (new_builder context) is
      → (let b = run is (new_builder context) in
          (vs : List IndexedVariable) × (get_random_utxos gen_range choose_multiple b ≡ done vs)
          × All (IsSpendable b) vs)
  unfolding get_random_utxos new_builder enter_scope
  get_random_utxos-IsSpendable context is runs =
      let start = new_builder context in
      let b = run is start in
      let code : b.instructions ≡ is = run-instructions start is in
      let nothing : Tracks start 0 [] = record {
        counted = refl;
        no_repeat = tt;
        unspent = λ x h. cc;
      } in
      let (utxos, n, collects, t) = collect_utxos-Tracks start is 0 [] tt runs nothing in
      let (vs, keeps, spendable) =
        utxo_variables-IsSpendable b utxos (contains-All (IsUnspent b) utxos t.unspent) in
      (
        choose_utxos gen_range choose_multiple vs,
        rw (get_random_utxos, code, collects, keeps) refl,
        choose_utxos-IsSpendable b vs spendable,
      )
