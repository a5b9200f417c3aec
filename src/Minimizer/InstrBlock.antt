-- ===== src/Minimizer/InstrBlock.antt =====
-- The minimizer that nops whole blocks: workloads/ir-workload/fuzzamoto-ir/src/minimizers/
-- instr_block.rs.
pub mod Blocks
pub mod Steps
use bitcoin_antithesis.Prelude.{
  ℕ, zero, suc, ◌-◌, max, List, [], Option, none, some, ◌==◌, if◌then◌else◌, length, get_elem?, set,
}
use bitcoin_antithesis.Partial.{Partial, done, panics}
use bitcoin_antithesis.Operation.Blocks.{is_block_end, is_matching_block_begin}
use bitcoin_antithesis.Instruction.{Instruction, nop_instruction}
use bitcoin_antithesis.Builder.State.{Program}

pub record InstrBlockMinimizer : Type 0 where
  pub last_good : Program
  pub current : Program
  pub current_index : ℕ

unfoldable pub new_instr_block : Program → InstrBlockMinimizer
new_instr_block program = record {
  last_good = program;
  current = program;
  current_index = max (length program.instructions) 1 - 1;
}

unfoldable pub instr_block_success : InstrBlockMinimizer → InstrBlockMinimizer
instr_block_success self = record self { last_good = self.current }

unfoldable pub instr_block_failure : InstrBlockMinimizer → InstrBlockMinimizer
instr_block_failure self = record self { current = self.last_good }

-- One round of the loop: it goes on, with the end of a block or none yet, or it has found the
-- beginning and the end.
pub data Round : Type 0 where
  looking : Option ℕ → Round
  found : ℕ → ℕ → Round

abbrev pub match_begin : ℕ → ℕ → Option Instruction → Option Instruction → Partial Round
match_begin i block_end (some instr) (some end) = done (
    if is_matching_block_begin end.operation instr.operation
    then found i block_end
    else looking (some block_end))
match_begin i block_end _ _ = panics

abbrev pub match_end : ℕ → Option Instruction → Partial Round
match_end i (some instr) = done (looking (if is_block_end instr.operation then some i else none))
match_end i none = panics

unfoldable pub visit : List Instruction → ℕ → Option ℕ → Partial Round
visit instructions i none = match_end i (get_elem? instructions i)
visit instructions i (some block_end) =
    match_begin i block_end (get_elem? instructions i) (get_elem? instructions block_end)

-- The loop over the places from `i` down to 0.
unfoldable pub search_block : List Instruction → ℕ → Option ℕ → Partial (Option (ℕ × ℕ))
search_block instructions zero found_end = elim (visit instructions 0 found_end) [
  | panics ↦ panics
  | done (found begin end) ↦ done (some (begin, end))
  | done (looking _) ↦ done none
]
search_block instructions (suc i) found_end = elim (visit instructions (suc i) found_end) [
  | panics ↦ panics
  | done (found begin end) ↦ done (some (begin, end))
  | done (looking next_end) ↦ search_block instructions i next_end
]

abbrev pub nop_at : ℕ → Option Instruction → List Instruction → List Instruction
nop_at i (some instr) instructions = set instructions i (nop_instruction instr)
nop_at i none instructions = instructions

-- `count` instructions from a place on; those of a block are all there.
unfoldable pub nop_each : ℕ → ℕ → List Instruction → List Instruction
nop_each i zero instructions = instructions
nop_each i (suc count) instructions =
    nop_each (suc i) count (nop_at i (get_elem? instructions i) instructions)

abbrev pub without_block : ℕ → ℕ → InstrBlockMinimizer → InstrBlockMinimizer
without_block begin end self = record self {
  current = record self.current {
    instructions = nop_each begin (suc end - begin) self.current.instructions;
  };
  current_index = begin;
}

unfoldable pub instr_block_next :
    InstrBlockMinimizer → Partial (Option Program × InstrBlockMinimizer)
instr_block_next self =
    if self.current_index == 0
    then done (none, self)
    else elim (search_block self.current.instructions self.current_index none) [
      | panics ↦ panics
      | done none ↦ done (none, self)
      | done (some (begin, end)) ↦
          done (some (without_block begin end self).current, without_block begin end self)
    ]
