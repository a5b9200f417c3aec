-- ===== src/Compiler/Taken.antt =====
-- The outputs that a transaction gives: the arm of TakeTxo of workloads/ir-workload/fuzzamoto-ir/src/
-- compiler.rs.
use mathlib.Core.Option.{some-injective}
use mathlib.Core.List.{append-nil, append_assoc}
use native.Mathlib.Nat.{mod-eq_of_lt}
use bitcoin_antithesis.Prelude.{
  ℕ, zero, suc, ◌%◌, ◌<◌, ◌≡◌, refl, sym, ap, List, [], ◌∷◌, ◌++◌, map, some, arith, length,
  length-append, get_elem?, set,
}
use bitcoin_antithesis.Operation.{take_txo}
use bitcoin_antithesis.Compiler.Bitcoin.{Library}
use bitcoin_antithesis.Compiler.Values.{Value, Txo, Tx}
use bitcoin_antithesis.Compiler.Types.Coins.{as_tx, cast_tx}
use bitcoin_antithesis.Compiler.State.{
  Compiler, ok, Run, ◌>>=◌, ◌>>◌, pure, or_raise, on_option, found, downcast, get_variable,
  input_index, write_variable, append_variable,
}
use bitcoin_antithesis.Compiler.Transactions.{take_from, handle_transaction_building_operations}

get_elem?-middle {ℓ} :
    {A : Type ℓ} (xs : List A) (y : A) (ys : List A) → get_elem? (xs ++ y ∷ ys) (length xs) ≡ some y
get_elem?-middle [] y ys = refl
get_elem?-middle (x ∷ xs) y ys = get_elem?-middle xs y ys

get_elem?-set {ℓ} :
    {A : Type ℓ} (xs : List A) (i : ℕ) {x : A} (y : A)
    → get_elem? xs i ≡ some x
    → get_elem? (set xs i y) i ≡ some y
get_elem?-set [] i y e = cc
get_elem?-set (x ∷ xs) zero y e = refl
get_elem?-set (x ∷ xs) (suc i) y e = get_elem?-set xs i y e

get_elem?-left {ℓ} :
    {A : Type ℓ} (xs ys : List A) (i : ℕ) {x : A}
    → get_elem? xs i ≡ some x
    → get_elem? (xs ++ ys) i ≡ some x
get_elem?-left [] ys i e = cc
get_elem?-left (x ∷ xs) ys zero e = e
get_elem?-left (x ∷ xs) ys (suc i) e = get_elem?-left xs ys i e

-- The change of a place that lies in the first list, made again.
set-left {ℓ} :
    {A : Type ℓ} (xs ys : List A) (i : ℕ) {x : A} (y z : A)
    → get_elem? xs i ≡ some x
    → set (set xs i y ++ ys) i z ≡ set xs i z ++ ys
set-left [] ys i y z e = cc
set-left (x ∷ xs) ys zero y z e = refl
set-left (x ∷ xs) ys (suc i) y z e = ap (λ rest. x ∷ rest) (set-left xs ys i y z e)

set-same {ℓ} :
    {A : Type ℓ} (xs : List A) (i : ℕ) {x : A} → get_elem? xs i ≡ some x → set xs i x ≡ xs
set-same [] i e = refl
set-same (x ∷ xs) zero e = ap (λ y. y ∷ xs) (sym (some-injective _ _ e))
set-same (x ∷ xs) (suc i) e = ap (λ ys. x ∷ ys) (set-same xs i e)

abbrev pub selecting : Tx → ℕ → Value
selecting t n = Value.tx (record t { output_selector = n })

module _ (lib : Library) where
  -- TakeTxo of the variable with the index `index`, a number of times.
  abbrev pub take_times : ℕ → ℕ → Run (Unit {0})
  take_times index zero = pure tt
  take_times index (suc n) = do
    handle_transaction_building_operations lib take_txo (index ∷ [])
    take_times index n

  module _ (index : ℕ) (t : Tx) where
    abbrev selected : ℕ → Tx
    selected n = record t { output_selector = n }

    -- The compiler after the transaction has given `txo` and selects the output `n` next.
    abbrev given : ℕ → Txo → Compiler → Compiler
    given n txo s = record s {
      variables = set s.variables index (selecting t n) ++ Value.txo txo ∷ [];
      output = record s.output {
        metadata = record s.output.metadata {
          variable_indices =
              s.output.metadata.variable_indices ++ s.output.metadata.instructions ∷ [];
        };
      };
    }

    found_tx :
        (s : Compiler) (n : ℕ)
        → get_elem? s.variables index ≡ some (selecting t n)
        → get_variable as_tx index s ≡ (ok (selected n), s)
    unfolding get_variable found downcast cast_tx
    found_tx s n there = rw there refl

    in_turn :
        (taken rest : List Txo) (txo : Txo)
        → t.txos ≡ taken ++ txo ∷ rest
        → get_elem? t.txos (length taken % length t.txos) ≡ some txo
    in_turn taken rest txo whole =
        let below : length taken < length t.txos =
          rw (whole, length-append taken (txo ∷ rest)) (omega arith) in
        let place : length taken % length t.txos ≡ length taken = mod-eq_of_lt below in
        rw (place, whole) (get_elem?-middle taken txo rest)

    -- One step, where `taken` have been given and `txo` comes next.
    take_one :
        (taken rest : List Txo) (txo : Txo) (s : Compiler)
        → t.txos ≡ taken ++ txo ∷ rest
        → get_elem? s.variables index ≡ some (selecting t (length taken))
        → handle_transaction_building_operations lib take_txo (index ∷ []) s
          ≡ (ok tt, given (suc (length taken)) txo s)
    unfolding handle_transaction_building_operations take_from ◌>>=◌ pure or_raise on_option
        input_index write_variable append_variable
    take_one taken rest txo s whole there =
        rw (found_tx s (length taken) there, in_turn taken rest txo whole) refl

    take_rest :
        (taken rest : List Txo) (s : Compiler)
        → t.txos ≡ taken ++ rest
        → get_elem? s.variables index ≡ some (selecting t (length taken))
        → (s' : Compiler) × (take_times index (length rest) s ≡ (ok tt, s'))
          × (s'.variables
              ≡ set s.variables index (selecting t (length t.txos)) ++ map (λ o. Value.txo o) rest)
    unfolding ◌>>=◌ pure
    take_rest taken [] s whole there =
        let all : length t.txos ≡ length taken = rw (whole, append-nil taken) refl in
        (
          s,
          refl,
          rw (all, append-nil (set s.variables index (selecting t (length taken))))
              (sym (set-same s.variables index there)),
        )
    take_rest taken (txo ∷ rest) s whole there =
        let next = given (suc (length taken)) txo s in
        let here = selecting t (suc (length taken)) in
        let more : suc (length taken) ≡ length (taken ++ txo ∷ []) =
          rw (length-append taken (txo ∷ [])) (omega arith) in
        let (s', run, vars) =
          take_rest (taken ++ txo ∷ []) rest next (rw (append_assoc taken (txo ∷ []) rest) whole) (
            rw (← more) (
              get_elem?-left (set s.variables index here) (Value.txo txo ∷ []) index
                (get_elem?-set s.variables index here there))) in
        (
          s',
          rw (take_one taken rest txo s whole there) run,
          rw
              (
                vars,
                set-left s.variables (Value.txo txo ∷ []) index here (selecting t (length t.txos))
                    there,
                append_assoc (set s.variables index (selecting t (length t.txos)))
                    (Value.txo txo ∷ []),
              )
              refl,
        )

  -- A transaction that has given no output yet gives each of its outputs once, in their order, when as
  -- many are taken as it has: the takes succeed, append the outputs as variables, and change nothing
  -- else of the variables but the transaction's selector.
  pub take_times-in_order :
      (index : ℕ) (t : Tx) (s : Compiler)
      → get_elem? s.variables index ≡ some (selecting t 0)
      → (s' : Compiler) × (take_times index (length t.txos) s ≡ (ok tt, s'))
        × (s'.variables
            ≡ set s.variables index (selecting t (length t.txos)) ++ map (λ o. Value.txo o) t.txos)
  take_times-in_order index t s there = take_rest index t [] t.txos s refl there
