-- ===== src/Builder/Headers/Sent.antt =====
-- What `get_nearest_sent_header` finds, and that its assertions hold: builder.rs of workloads/
-- ir-workload/fuzzamoto-ir/src.
use bitcoin_antithesis.Prelude.{ℕ, suc, ◌≤◌, ◌≡◌, List, Option, none, some, ◌⊎◌, get_elem?}
use bitcoin_antithesis.Partial.{Partial, done}
use bitcoin_antithesis.Variable.{Variable}
use bitcoin_antithesis.Instruction.{Instruction}
use bitcoin_antithesis.Builder.State.{ScopedVariable, IndexedVariable, Builder}
use bitcoin_antithesis.Builder.Checks.{InScope}
use bitcoin_antithesis.Builder.Runs.{Runs}
use bitcoin_antithesis.Builder.Headers.Collected.{IsSentIn}

-- What the search for a sent header ends with: none in scope has been sent, or the last of them.
abbrev pub FindsSentHeader : Builder → Partial (Option IndexedVariable) → Type 0
FindsSentHeader b result =
    ((result ≡ done none) × ((j : ℕ) → InScope b j Variable.header → ¬ IsSentIn b.instructions j))
    ⊎ ((header : ℕ) × (result ≡ done (some (record { var = Variable.header; index = header })))
        × InScope b header Variable.header
        × IsSentIn b.instructions header
        × ((j : ℕ) → InScope b j Variable.header → IsSentIn b.instructions j → j ≤ header))

-- Directly before every block variable stands a header variable.
abbrev pub BlocksFollow : List ScopedVariable → Type 0
BlocksFollow vars =
    (k : ℕ) (x : ScopedVariable)
    → get_elem? vars k ≡ some x
    → x.var ≡ Variable.block
    → (j : ℕ) × (y : ScopedVariable) × (k ≡ suc j)
      × (get_elem? vars j ≡ some y)
      × (y.var ≡ Variable.header)
