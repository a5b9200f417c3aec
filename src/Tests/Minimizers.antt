-- ===== src/Tests/Minimizers.antt =====
-- The minimizers on the small programs.
use bitcoin_antithesis.Prelude.{
  ◌≢◌, ℕ, suc, ◌*◌, ◌≤◌, ◌≡◌, ◌⊎◌, refl, true, length, Bool, leb, some, none,
}
use bitcoin_antithesis.Partial.{done}
use bitcoin_antithesis.Builder.State.{Program}
use bitcoin_antithesis.Minimizer.Nopping.{new_nopping, nopping_next}
use bitcoin_antithesis.Minimizer.Nopping.Steps.{
  Searches, untried, nopping_next-Searches, new_nopping-IsTrying,
}
use bitcoin_antithesis.Minimizer.Cutting.{CuttingMinimizer, new_cutting, minimize}
use bitcoin_antithesis.Minimizer.Cutting.Search.{cut, minimize-passes}
use bitcoin_antithesis.Minimizer.InstrBlock.{InstrBlockMinimizer, new_instr_block, instr_block_next}
use bitcoin_antithesis.Minimizer.InstrBlock.Blocks.{NoBlock, IsBlock}
use bitcoin_antithesis.Minimizer.InstrBlock.Steps.{
  IsWithout, instr_block_next_cases, new_instr_block-IsPlaced,
}
use bitcoin_antithesis.Tests.{send_inventory}

nopping_next-Searches_example :
    Searches
      (new_nopping send_inventory)
      (untried (new_nopping send_inventory))
      (nopping_next (new_nopping send_inventory))
nopping_next-Searches_example =
    nopping_next-Searches (new_nopping send_inventory) (new_nopping-IsTrying send_inventory)

-- The program has at least three instructions.
abbrev has_three : Program → Bool
has_three p = leb 3 (length p.instructions)

minimize-passes_example :
    (t : CuttingMinimizer) × (minimize has_three (suc 4 * suc 4) (new_cutting send_inventory)
      ≡ done (some t))
    × (t.chopped ≤ 4)
    × (has_three (cut send_inventory t.chopped) ≡ true)
    × (t.current ≡ t.chopped)
minimize-passes_example = minimize-passes has_three send_inventory refl

instr_block_next_cases_example :
    let s = new_instr_block send_inventory in
    ((instr_block_next s ≡ done (none, s))
      × ((s.current_index ≡ 0) ⊎ NoBlock s.current.instructions s.current_index))
    ⊎ ((begin : ℕ) × (end : ℕ) × (t : InstrBlockMinimizer) × (instr_block_next s
          ≡ done (some t.current, t))
        × (s.current_index ≢ 0)
        × IsBlock s.current.instructions s.current_index begin end
        × IsWithout s begin end t)
instr_block_next_cases_example =
    instr_block_next_cases (new_instr_block send_inventory)
      (new_instr_block-IsPlaced send_inventory)
