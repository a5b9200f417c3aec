-- ===== src/Minimizer/Nopping.antt =====
-- The minimizer that nops one instruction after the other, in reverse: workloads/ir-workload/
-- fuzzamoto-ir/src/minimizers/nopping.rs.
pub mod Steps
use bitcoin_antithesis.Prelude.{
  ℕ, zero, suc, ◌-◌, Bool, true, false, List, [], ◌∷◌, Option, none, some, if◌then◌else◌, length,
  get_elem?, set,
}
use bitcoin_antithesis.Partial.{Partial, done, panics}
use bitcoin_antithesis.Instruction.{Instruction, is_noppable, nop_instruction}
use bitcoin_antithesis.Builder.State.{Program}

pub record NoppingMinimizer : Type 0 where
  pub program : Program
  pub current : Program
  pub current_nop : Option ℕ

unfoldable pub new_nopping : Program → NoppingMinimizer
new_nopping program = record { program = program; current = program; current_nop = none }

-- Nothing is to be done.
unfoldable pub nopping_success : NoppingMinimizer → NoppingMinimizer
nopping_success self = self

-- `self.current.instructions[at] = i`.
abbrev pub put : ℕ → Instruction → NoppingMinimizer → NoppingMinimizer
put at i self = record self {
  current = record self.current { instructions = set self.current.instructions at i };
}

abbrev restore :
    ℕ → Option Instruction → Option Instruction → NoppingMinimizer → Partial NoppingMinimizer
restore at (some original) (some _) self = done (put at original self)
restore at _ _ self = panics

-- The `expect`, and an index out of range, panic.
unfoldable pub nopping_failure : NoppingMinimizer → Partial NoppingMinimizer
unfolding restore
nopping_failure self = elim self.current_nop [
  | none ↦ panics
  | some at ↦
      restore at (get_elem? self.program.instructions at) (get_elem? self.current.instructions at)
        self
]

abbrev pub Next : Type 0
Next = Partial (Option Program × NoppingMinimizer)

abbrev pub at_nop : ℕ → NoppingMinimizer → NoppingMinimizer
at_nop at self = record self { current_nop = some at }

abbrev pub offer : NoppingMinimizer → Next
offer self = done (some self.current, self)

-- The instruction at `at` is nopped, or the call is repeated: `again`.
abbrev pub nop_or : Option Instruction → ℕ → NoppingMinimizer → Next → Next
nop_or none at self again = panics
nop_or (some i) at self again =
    if is_noppable i then offer (put at (nop_instruction i) self) else again

-- `next`, from the place that `current_nop` is moved to. At 0 the repeated call ends.
unfoldable pub nop_from : ℕ → NoppingMinimizer → Next
nop_from zero self =
    nop_or (get_elem? self.current.instructions 0) 0 (at_nop 0 self) (done (none, at_nop 0 self))
nop_from (suc at) self =
    nop_or (get_elem? self.current.instructions (suc at)) (suc at) (at_nop (suc at) self)
      (nop_from at (at_nop (suc at) self))

abbrev pub next_from : Option ℕ → NoppingMinimizer → Next
next_from (some zero) self = done (none, self)
next_from (some (suc at)) self = nop_from at self
next_from none self = nop_from (length self.program.instructions - 1) self

abbrev pub is_empty : List Instruction → Bool
is_empty [] = true
is_empty (_ ∷ _) = false

unfoldable pub nopping_next : NoppingMinimizer → Next
nopping_next self =
    if is_empty self.program.instructions
    then done (none, self)
    else next_from self.current_nop self
