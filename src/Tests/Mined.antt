-- ===== src/Tests/Mined.antt =====
-- The search for a nonce and the bloom filter at concrete inputs.
use bitcoin_antithesis.Prelude.{ℕ, ◌^◌, ◌<◌, ◌≡◌, ◌⊎◌, refl, true, List, [], ◌∷◌, some, pos, arith}
use bitcoin_antithesis.Partial.{done}
use bitcoin_antithesis.Bloom.{filter_insert, insert_from, hash, raise_bit}
use bitcoin_antithesis.Bloom.Inserted.{Raised, is_hashed, filter_insert-Raised}
use bitcoin_antithesis.Compiler.Bitcoin.{BlockHeader}
use bitcoin_antithesis.Compiler.State.{ok, diverge, new_compiler}
use bitcoin_antithesis.Compiler.Mining.{with_nonce, needs_work, mine, fixup_proof_of_work}
use bitcoin_antithesis.Compiler.Mining.Work.{IsMinedFrom, fixup_proof_of_work_cases}
use bitcoin_antithesis.Tests.Compiled.{plain}

abbrev unworked : BlockHeader
unworked = record {
  version = pos 5;
  prev_blockhash = [];
  merkle_root = [];
  bits = 0x207fffff;
  nonce = 1;
  time = 0;
}

fixup_proof_of_work_cases_example :
    ((m : BlockHeader) × (fixup_proof_of_work plain unworked new_compiler ≡ (ok m, new_compiler))
      × IsMinedFrom plain unworked m)
    ⊎ ((fixup_proof_of_work plain unworked new_compiler ≡ (diverge, new_compiler))
        × ((nonce : ℕ) → nonce < 2 ^ 32 → needs_work plain (with_nonce unworked nonce) ≡ true))
fixup_proof_of_work_cases_example =
    fixup_proof_of_work_cases plain unworked new_compiler (omega arith)

-- The nonce 1 is not good, nor is 2; 3 is.
mined_in_turn : mine plain 3 unworked ≡ some (with_nonce unworked 3)
unfolding mine needs_work
mined_in_turn = refl

abbrev seed_of : List ℕ → ℕ → ℕ
seed_of key seed = seed

filter_insert-Raised_example :
    (g : List ℕ) × (filter_insert seed_of (0 ∷ 1 ∷ []) 2 (9 ∷ []) ≡ done g)
    × Raised (0 ∷ 1 ∷ []) g (is_hashed seed_of (9 ∷ []) 2 0 2)
filter_insert-Raised_example =
    filter_insert-Raised seed_of (9 ∷ []) (0 ∷ 1 ∷ []) 2 (omega arith, (omega arith, tt))
      (omega arith) (omega arith)

-- The bits 0 and 5 are raised.
two_bits : filter_insert seed_of (0 ∷ 1 ∷ []) 2 (9 ∷ []) ≡ done (33 ∷ 1 ∷ [])
unfolding filter_insert insert_from hash raise_bit
two_bits = refl
