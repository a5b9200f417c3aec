-- ===== src/Mutator/Choice.antt =====
-- The random choice of the crate rand, from a sequence.
use bitcoin_antithesis.Prelude.{ℕ, ◌≡◌, ◌⊎◌, List, [], Option, none, some, get_elem?}

-- What the documentation of `rand` says of the choice: none of an empty sequence, and an element of
-- any other.
pub record IsChoice {A : Type 0} (choose : List A → Option A) : Type 0 where
  pub chosen :
      (xs : List A)
      → ((xs ≡ []) × (choose xs ≡ none))
        ⊎ ((k : ℕ) × (y : A) × (choose xs ≡ some y) × (get_elem? xs k ≡ some y))
