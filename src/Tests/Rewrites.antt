-- ===== src/Tests/Rewrites.antt =====
-- The queries of the builder, the exchange of an input and the removal of nops, on small programs.
use bitcoin_antithesis.Prelude.{ℕ, ◌≤◌, ◌≡◌, ◌⊎◌, some, none}
use bitcoin_antithesis.Partial.{done}
use bitcoin_antithesis.Variable.{Variable}
use bitcoin_antithesis.Builder.State.{Program}
use bitcoin_antithesis.Builder.Checks.{InScope}
use bitcoin_antithesis.Builder.Queries.{get_variable, get_nearest_variable}
use bitcoin_antithesis.Builder.Queries.Found.{get_variable_cases, get_nearest_variable_cases}
use bitcoin_antithesis.Builder.Runs.Valid.{IsValid}
use bitcoin_antithesis.Mutator.Input.{mutate_input}
use bitcoin_antithesis.Mutator.Input.Chosen.{Mutates, mutate_input-Mutates}
use bitcoin_antithesis.Program.Nops.{remove_nops}
use bitcoin_antithesis.Program.Nops.Removed.{operations, kept_operations, remove_nops-IsValid}
use bitcoin_antithesis.Tests.{after_nop, two_connections, last_of}
use bitcoin_antithesis.Tests.Runs.{sent, after_nop-IsValid, two_connections-IsValid}
use bitcoin_antithesis.Tests.Splices.{last_of-IsChoice}

get_variable_cases_example :
    ((v : Variable) × (get_variable sent 1 ≡ some (record { var = v; index = 1 }))
      × InScope sent 1 v)
    ⊎ ((get_variable sent 1 ≡ none) × ((v : Variable) → ¬ InScope sent 1 v))
get_variable_cases_example = get_variable_cases sent 1

get_nearest_variable_cases_example :
    ((idx : ℕ) × (get_nearest_variable sent Variable.const_inventory
        ≡ some (record { var = Variable.const_inventory; index = idx }))
      × InScope sent idx Variable.const_inventory
      × ((j : ℕ) → InScope sent j Variable.const_inventory → j ≤ idx))
    ⊎ ((get_nearest_variable sent Variable.const_inventory ≡ none)
        × ((j : ℕ) → ¬ InScope sent j Variable.const_inventory))
get_nearest_variable_cases_example = get_nearest_variable_cases sent Variable.const_inventory

mutate_input-Mutates_example :
    Mutates two_connections (mutate_input last_of last_of last_of two_connections)
mutate_input-Mutates_example =
    mutate_input-Mutates last_of last_of last_of last_of-IsChoice last_of-IsChoice last_of-IsChoice
      two_connections two_connections-IsValid

remove_nops-IsValid_example :
    (r : Program) × (remove_nops after_nop ≡ done r)
    × IsValid r
    × (r.context ≡ after_nop.context)
    × (operations r.instructions ≡ kept_operations after_nop.instructions)
remove_nops-IsValid_example = remove_nops-IsValid after_nop after_nop-IsValid
