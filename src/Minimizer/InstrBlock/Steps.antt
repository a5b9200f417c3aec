-- ===== src/Minimizer/InstrBlock/Steps.antt =====
-- What a call of `next` of the block minimizer does: workloads/ir-workload/fuzzamoto-ir/src/
-- minimizers/instr_block.rs.
use bitcoin_antithesis.Prelude.{
  ℕ, suc, ◌-◌, ◌<◌, ◌≡◌, ◌≢◌, refl, ◌∙◌, none, some, ◌⊎◌, inl, inr, ◌==◌, ==_iff, arith, Bool-cases,
  length, get_elem?, lt-get_elem?, if◌then◌else◌,
}
use bitcoin_antithesis.Partial.{done}
use bitcoin_antithesis.Instruction.{nop_instruction}
use bitcoin_antithesis.Builder.State.{Program}
use bitcoin_antithesis.Minimizer.InstrBlock.{
  InstrBlockMinimizer, new_instr_block, without_block, instr_block_next, instr_block_failure,
}
use bitcoin_antithesis.Minimizer.InstrBlock.Blocks.{
  IsBlock, NoBlock, search_block-Finds, nopped, within, nop_each-nopped,
}

-- The index is a place of the program; a program without instructions has index 0.
abbrev pub IsPlaced : InstrBlockMinimizer → Type 0
IsPlaced s = s.current_index ≢ 0 → s.current_index < length s.current.instructions

-- The block from `begin` to `end` is nopped and nothing else is changed, the index is its beginning,
-- and a failure goes back to the last good program.
abbrev pub IsWithout : InstrBlockMinimizer → ℕ → ℕ → InstrBlockMinimizer → Type 0
IsWithout s begin end t =
    ((j : ℕ)
      → get_elem? t.current.instructions j
        ≡ nopped (within begin (suc end - begin) j) (get_elem? s.current.instructions j))
    × (t.current.context ≡ s.current.context)
    × (t.current_index ≡ begin)
    × IsPlaced t
    × ((instr_block_failure t).current ≡ s.last_good)

without_block-IsWithout :
    (s : InstrBlockMinimizer) (top begin end : ℕ)
    → IsBlock s.current.instructions top begin end
    → IsWithout s begin end (without_block begin end s)
unfolding instr_block_failure
without_block-IsWithout s top begin end (i, j, lt, here, _, _, _) =
    let count = suc end - begin in
    let places = nop_each-nopped begin count s.current.instructions in
    let still : get_elem? (without_block begin end s).current.instructions begin
        ≡ some (if within begin count begin then nop_instruction i else i) =
      places begin ∙ rw here refl in
    (
      places,
      refl,
      refl,
      (λ _. lt-get_elem? (without_block begin end s).current.instructions begin still),
      refl,
    )

-- A call of `next` does not panic. It ends, and then the index is 0, or up to the index there is no end
-- of a block, or no beginning of the kind of the last one stands before that. Otherwise it finds the
-- last end up to the index and the nearest beginning of its kind before it, offers the program in which
-- exactly the instructions from that beginning to that end are nopped, and moves the index down to the
-- beginning; a failure goes back to the last good program.
pub instr_block_next_cases :
    (s : InstrBlockMinimizer)
    → IsPlaced s
    → ((instr_block_next s ≡ done (none, s))
        × ((s.current_index ≡ 0) ⊎ NoBlock s.current.instructions s.current_index))
      ⊎ ((begin : ℕ) × (end : ℕ) × (t : InstrBlockMinimizer) × (instr_block_next s
            ≡ done (some t.current, t))
          × (s.current_index ≢ 0)
          × IsBlock s.current.instructions s.current_index begin end
          × IsWithout s begin end t)
unfolding instr_block_next
instr_block_next_cases s placed = elim (Bool-cases (s.current_index == 0)) [
  | inl ended ↦ inl (rw ended, inl ((==_iff s.current_index 0).0 ended))
  | inr more ↦
      let index : s.current_index < length s.current.instructions = placed (λ same. ground arith) in
      elim (search_block-Finds s.current.instructions s.current_index s.current_index none
        (omega arith) index (λ k i from upto found. absurd (omega arith))) [
          | inl (nothing, no_block) ↦ inl (rw (more, nothing), inr no_block)
          | inr (begin, end, finds, block) ↦ inr (
            begin,
            end,
            without_block begin end s,
            rw (more, finds),
            (λ same. ground arith),
            block,
            without_block-IsWithout s s.current_index begin end block,
          )
        ]
]

-- At first the index is the last place of the program.
pub new_instr_block-IsPlaced : (p : Program) → IsPlaced (new_instr_block p)
unfolding new_instr_block
new_instr_block-IsPlaced p other = omega arith
