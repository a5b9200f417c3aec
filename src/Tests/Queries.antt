-- ===== src/Tests/Queries.antt =====
-- What the builder tells of sent headers and unspent outputs, on the small programs.
use bitcoin_antithesis.Prelude.{ℕ, ◌≡◌, refl, List, [], ◌∷◌, All, some, get_elem?}
use bitcoin_antithesis.Partial.{done}
use bitcoin_antithesis.Builder.State.{IndexedVariable, new_builder}
use bitcoin_antithesis.Builder.Runs.{run}
use bitcoin_antithesis.Builder.Utxos.{get_random_utxos}
use bitcoin_antithesis.Builder.Utxos.Chosen.{IsSpendable, get_random_utxos-IsSpendable}
use bitcoin_antithesis.Tests.{one_node, load_coin}
use bitcoin_antithesis.Tests.Runs.{load_coin-IsValid}

abbrev lowest : ℕ → ℕ
lowest n = 0

abbrev first_alone : List IndexedVariable → ℕ → List IndexedVariable
first_alone [] n = []
first_alone (x ∷ _) n = x ∷ []

first_alone_selected :
    (xs : List IndexedVariable) (n : ℕ)
    → All (λ y. (k : ℕ) × (get_elem? xs k ≡ some y)) (first_alone xs n)
first_alone_selected [] n = tt
first_alone_selected (x ∷ xs) n = ((0, refl), tt)

get_random_utxos-IsSpendable_example :
    (vs : List IndexedVariable) × (get_random_utxos lowest first_alone
        (run load_coin.instructions (new_builder one_node))
      ≡ done vs)
    × All (IsSpendable (run load_coin.instructions (new_builder one_node))) vs
get_random_utxos-IsSpendable_example =
    get_random_utxos-IsSpendable lowest first_alone (record { selected = first_alone_selected })
      one_node load_coin.instructions load_coin-IsValid.0
