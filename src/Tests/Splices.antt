-- ===== src/Tests/Splices.antt =====
-- The mutators on the small programs.
use bitcoin_antithesis.Prelude.{
  ◌≤◌, ℕ, suc, ◌≡◌, ◌⊎◌, inl, inr, refl, List, [], ◌∷◌, ◌++◌, map, length, get_elem?, some, none,
  All,
}
use bitcoin_antithesis.Partial.{done}
use bitcoin_antithesis.Instruction.{global}
use bitcoin_antithesis.Builder.State.{Program, new_builder, enter_scope}
use bitcoin_antithesis.Builder.Invariant.Preserved.{new_builder-IsWellFormed}
use bitcoin_antithesis.Builder.Programs.{remap, rename}
use bitcoin_antithesis.Builder.Runs.{run}
use bitcoin_antithesis.Builder.Runs.Valid.{IsValid}
use bitcoin_antithesis.Mutator.{changed}
use bitcoin_antithesis.Mutator.Choice.{IsChoice}
use bitcoin_antithesis.Mutator.Concat.{concat, concat-IsValid}
use bitcoin_antithesis.Mutator.Combine.{combine, IsSpliced}
use bitcoin_antithesis.Mutator.Combine.Chosen.{combine-IsSpliced}
use bitcoin_antithesis.Program.{scan, get_random_instruction_index}
use bitcoin_antithesis.Program.Positions.{IsPosition, ListsAll, scan-IsPosition}
use bitcoin_antithesis.Tests.{one_node, send_inventory, ask_addresses, last_of}
use bitcoin_antithesis.Tests.Runs.{send_inventory-IsValid, ask_addresses-IsValid}

last_of_chosen {ℓ} :
    {A : Type ℓ} (xs : List A)
    → ((xs ≡ []) × (last_of xs ≡ none))
      ⊎ ((k : ℕ) × (y : A) × (last_of xs ≡ some y) × (get_elem? xs k ≡ some y))
last_of_chosen [] = inl (refl, refl)
last_of_chosen (x ∷ []) = inr (0, x, refl, refl)
last_of_chosen (x ∷ y ∷ ys) = elim (last_of_chosen (y ∷ ys)) [
  | inl (empty, _) ↦ cc
  | inr (k, z, chosen, found) ↦ inr (suc k, z, chosen, found)
]

pub last_of-IsChoice : {A : Type 0} → IsChoice (last_of {A = A})
last_of-IsChoice = record { chosen = last_of_chosen }

concat-IsValid_example :
    (r : Program) × (concat send_inventory ask_addresses ≡ changed r)
    × IsValid r
    × (r.context ≡ send_inventory.context)
    × (r.instructions
        ≡ send_inventory.instructions
          ++ map
              (rename (
                remap 0 (
                  length
                    (run send_inventory.instructions
                      (new_builder send_inventory.context)).variables)))
              ask_addresses.instructions)
concat-IsValid_example =
    concat-IsValid send_inventory ask_addresses send_inventory-IsValid ask_addresses-IsValid refl

combine-IsSpliced_example :
    (idx : ℕ) × (r : Program) × (get_random_instruction_index last_of send_inventory global
      ≡ done (some idx))
    × (idx ≤ length send_inventory.instructions)
    × (combine last_of send_inventory ask_addresses ≡ changed r)
    × IsSpliced send_inventory ask_addresses idx r
combine-IsSpliced_example =
    combine-IsSpliced last_of send_inventory ask_addresses last_of-IsChoice send_inventory-IsValid
      ask_addresses-IsValid refl

scan-IsPosition_example :
    (xs : List ℕ) × (scan global send_inventory.instructions 0 0
        (record { begin = none; id = 0; context = global } ∷ [])
      ≡ done xs)
    × All (IsPosition global (new_builder one_node) send_inventory.instructions 0) xs
    × ListsAll global (new_builder one_node) send_inventory.instructions 0 xs
unfolding new_builder enter_scope
scan-IsPosition_example =
    scan-IsPosition global (new_builder one_node) send_inventory.instructions 0 0
      (record { begin = none; id = 0; context = global } ∷ []) (new_builder-IsWellFormed one_node)
      send_inventory-IsValid.0 (refl, tt)
