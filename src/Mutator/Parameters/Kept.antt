-- ===== src/Mutator/Parameters/Kept.antt =====
-- What the change of parameters keeps: workloads/ir-workload/fuzzamoto-ir/src/mutators/operation.rs.
use bitcoin_antithesis.Prelude.{
  ℕ, zero, suc, ◌-◌, ◌≤◌, ◌≡◌, refl, ap, List, [], ◌∷◌, ◌++◌, Option, none, some, ltb, false, arith,
  All, Bool-cases, inl, inr, length, length-append, take, replicate,
}
use bitcoin_antithesis.Addr.{AddrNetwork, expected_payload_len}
use bitcoin_antithesis.Operation.{Operation, nop}
use bitcoin_antithesis.Operation.Blocks.{is_block_begin, is_block_end}
use bitcoin_antithesis.Operation.Signature.{
  get_input_variables, get_output_variables, get_inner_output_variables,
}
use bitcoin_antithesis.Mutator.Parameters.{
  replacements, max_unknown_addr_payload, fitted, mutate_addr_payload,
}

-- The two operations take and make the same, and open and close no block.
abbrev pub IsLike : Operation → Operation → Type 0
IsLike op other =
    (get_input_variables other ≡ get_input_variables op)
    × (get_output_variables other ≡ get_output_variables op)
    × (get_inner_output_variables other ≡ get_inner_output_variables op)
    × (is_block_begin other ≡ false)
    × (is_block_end other ≡ false)

-- Every operation that is chosen in the place of another takes and makes variables of the same
-- types, and neither opens nor closes a block.
pub replacements-IsLike : (op : Operation) → All (IsLike op) (replacements op)
unfolding replacements get_input_variables get_output_variables get_inner_output_variables
    is_block_begin is_block_end
replacements-IsLike (nop _ _) = tt
replacements-IsLike _ = search (tt, refl)

length-take : (n : ℕ) (xs : List ℕ) → n ≤ length xs → length (take n xs) ≡ n
length-take zero xs h = refl
length-take (suc n) [] h = absurd (omega arith)
length-take (suc n) (x ∷ xs) h = ap suc (length-take n xs (omega arith))

length-zeros : (n : ℕ) → length {A = ℕ} (replicate n 0) ≡ n
length-zeros zero = refl
length-zeros (suc n) = ap suc (length-zeros n)

-- The lengths that a network allows.
abbrev pub FitsNetwork : Option ℕ → ℕ → Type 0
FitsNetwork (some expected) n = n ≡ expected
FitsNetwork none n = (1 ≤ n) × (n ≤ max_unknown_addr_payload)

fitted-FitsNetwork :
    (chosen_len : ℕ) (fill_bytes mutate_bytes : List ℕ → List ℕ) (expected : Option ℕ)
    → (payload : List ℕ)
    → FitsNetwork expected (length (fitted chosen_len fill_bytes mutate_bytes expected payload))
unfolding fitted
fitted-FitsNetwork chosen fill mutate (some n) payload =
    elim (Bool-cases (ltb (length payload) n)) [
      | inl short ↦
          let padded : length (payload ++ replicate (n - length payload) 0) ≡ n = ground (
            arith,
            length-append payload (replicate (n - length payload) 0),
            length-zeros (n - length payload),
          ) in
          rw short padded
      | inr other ↦ elim (Bool-cases (ltb n (length payload))) [
        | inl long ↦ rw (other, long) (length-take n payload (ground arith))
        | inr same ↦ rw (other, same) (ground arith)
      ]
    ]
fitted-FitsNetwork chosen fill mutate none [] = (omega arith, omega arith)
fitted-FitsNetwork chosen fill mutate none (x ∷ xs) =
    elim (Bool-cases (ltb max_unknown_addr_payload (length (x ∷ xs)))) [
      | inl long ↦
          let cut = length-take max_unknown_addr_payload (x ∷ xs) (ground arith) in
          rw (long, cut) (omega arith, omega arith)
      | inr fits ↦ rw fits (omega arith, ground arith)
    ]

-- Whatever the byte mutator and the random bytes are, the changed payload of an address has the
-- length of its network, or one between 1 and 512 where the network is unknown.
pub mutate_addr_payload-FitsNetwork :
    (chosen_len : ℕ) (fill_bytes mutate_bytes : List ℕ → List ℕ) (network : AddrNetwork)
    → (payload : List ℕ)
    → FitsNetwork
        (expected_payload_len network)
        (length (mutate_addr_payload chosen_len fill_bytes mutate_bytes network payload))
unfolding mutate_addr_payload
mutate_addr_payload-FitsNetwork chosen fill mutate network payload =
    fitted-FitsNetwork chosen fill mutate (expected_payload_len network) _
